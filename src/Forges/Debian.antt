-- ===== src/Forges/Debian.antt =====
-- package/debian/loader.py: the packages, their files and the download.
pub mod Files
pub mod Verified
pub mod Intrinsic
pub mod Release
use Prim.Native.String
use swh_loader_core.Prelude.{
  ℕ, zero, suc, String, Bool, true, false, not, ◌&&◌, Option, none, some, List, [], ◌∷◌, ◌++◌, map,
  Dict, insert, lookup, keep, length, contains, string_eq, if◌then◌else◌,
}
use swh_loader_core.Effects.{
  Exception, Exec, Result, ok, raise, pure, throw, assert, value_error, other, ◌>>=◌, ◌>>◌,
}
use swh_loader_core.Model.{truthy, PartialExtId}
use swh_loader_core.Core.Utils.{release_name}
use swh_loader_core.Core.Utils.Download.{Digest, hex, Web, Extrinsic, download}
use swh_loader_core.Package.Info.{PackageInfo}
use swh_loader_core.Package.Defaults.{sort_versions}
use swh_loader_core.Forges.Text.{has_char, is_slash, ends_with}
use swh_loader_core.Forges.Json.{
  Json, dict, no_entries, str, int, as_dict, as_str, as_int, item, str_item, each, present,
  type_error,
}

-- DebianFileMetadata; a checksum that is not given is "".
pub record DebianFile : Type 0 where
  pub name : String
  pub size : ℕ
  pub uri : String
  pub sha256 : String
  pub md5sum : String
  pub sha1 : String
  pub sha512 : String

-- DebianPackageInfo
pub record DebianInfo : Type 0 where
  pub base : PackageInfo
  pub raw_info : Json
  pub files : Dict String DebianFile
  pub name : String
  pub intrinsic_version : String

abbrev pub dsc_count_error : Exception
dsc_count_error = value_error "DscCountError"

abbrev field_names : List String
field_names = "name" ∷ "size" ∷ "uri" ∷ "sha256" ∷ "md5sum" ∷ "sha1" ∷ "sha512" ∷ []

-- a.endswith(".dsc")
abbrev pub is_dsc : String → Bool
is_dsc name = ends_with name ".dsc"

-- `[file for (name, file) in self.files.items() if name.endswith(".dsc")]`, with the names
unfoldable pub dsc_files : Dict String DebianFile → Dict String DebianFile
dsc_files files = keep (λ (f : String × DebianFile). is_dsc f.0) files

-- `a or b or c` on texts
abbrev pub first_text : String → String → String → String
first_text a b c = if truthy (some a) then a else if truthy (some b) then b else c

-- The hash that stands for the package.
abbrev pub dsc_hash : DebianFile → String
dsc_hash file = first_text file.sha256 file.sha1 file.md5sum

-- `if value: extrinsic_hashes[algo] = value`
abbrev known_hash : (algo value : String) → Dict String Digest
known_hash algo value = if truthy (some value) then (algo, hex value) ∷ [] else []

-- The hashes of a file that download_package asks for.
abbrev pub extrinsic_hashes : DebianFile → Dict String Digest
extrinsic_hashes file =
    known_hash "md5" file.md5sum ++ (known_hash "sha256" file.sha256 ++ known_hash "sha1" file.sha1)

abbrev all_known : Dict String Json → Bool
all_known [] = true
all_known ((k, v) ∷ d) = let rest = all_known d in contains field_names k && rest

-- `.get("files", {})`
abbrev or_no_files : Option Json → Json
or_no_files none = dict no_entries
or_no_files (some v) = v

module _ {W : Type 0} where
  -- A keyword that is needed, and one with the default "".
  abbrev required : Option Json → Exec W Json
  required none = throw type_error
  required (some v) = pure v

  abbrev defaulted : Option Json → Exec W String
  defaulted none = pure ""
  defaulted (some v) = as_str v

  abbrev check_keywords : Bool → Exec W (Unit {0})
  check_keywords true = pure tt
  check_keywords false = throw type_error

  -- DebianFileMetadata(**file_metadata): an unknown keyword or a missing one is a TypeError.
  unfoldable pub file_metadata : Json → Exec W DebianFile
  file_metadata data_ = do
    d ← as_dict data_
    check_keywords (all_known d)
    name_item ← required (lookup "name" d)
    name ← as_str name_item
    size_item ← required (lookup "size" d)
    size ← as_int size_item
    uri_item ← required (lookup "uri" d)
    uri ← as_str uri_item
    sha256 ← defaulted (lookup "sha256" d)
    md5sum ← defaulted (lookup "md5sum" d)
    sha1 ← defaulted (lookup "sha1" d)
    sha512 ← defaulted (lookup "sha512" d)
    pure (record {
      name = name;
      size = size;
      uri = uri;
      sha256 = sha256;
      md5sum = md5sum;
      sha1 = sha1;
      sha512 = sha512;
    })

  abbrev named_file : String × Json → Exec W (String × DebianFile)
  named_file f = do file ← file_metadata f.1; pure (f.0, file)

  -- DebianPackageInfo.from_metadata
  unfoldable pub from_metadata : (a_metadata : Json) → (url version : String) → Exec W DebianInfo
  unfolding file_metadata
  from_metadata a_metadata url version = do
    intrinsic_version ← str_item "version" a_metadata
    assert (has_char is_slash version && not (has_char is_slash intrinsic_version))
    d ← as_dict a_metadata
    files_item ← as_dict (or_no_files (lookup "files" d))
    files ← each named_file files_item
    name ← str_item "name" a_metadata
    pure (record {
      base = record {
        url = url;
        filename = none;
        version = version;
        directory_extrinsic_metadata = [];
        checksums = [];
        manifest = none;
      };
      raw_info = a_metadata;
      files = files;
      name = name;
      intrinsic_version = intrinsic_version;
    })

  -- The ExtID for the .dsc files of the package.
  abbrev pub extid_of_files :
      (hash_to_bytes : String → Exec W String)
      → Dict String DebianFile
      → Exec W (Option PartialExtId)
  extid_of_files hash_to_bytes ((name, file) ∷ []) = do
    hash ← hash_to_bytes (dsc_hash file)
    pure (some (record { extid_type = "dsc-sha256"; extid_version = 1; extid = hash }))
  extid_of_files hash_to_bytes _ = throw dsc_count_error

  -- DebianPackageInfo.extid
  unfoldable pub extid :
      (hash_to_bytes : String → Exec W String) → DebianInfo → Exec W (Option PartialExtId)
  unfolding dsc_files
  extid hash_to_bytes p_info = extid_of_files hash_to_bytes (dsc_files p_info.files)

  -- get_sorted_versions: the versions by the intrinsic versions of their packages
  unfoldable pub get_sorted_versions :
      (newer : String → String → Bool) → (packages : Dict String Json) → Exec W (List String)
  get_sorted_versions newer packages = do
    keyed ← each keyed_version packages
    pure (
        map (λ (p : String × String). p.1)
          (sort_versions (λ (a b : String × String). newer a.0 b.0) keyed))
    where
      keyed_version : String × Json → Exec W (String × String)
      keyed_version p = do version ← str_item "version" p.1; pure (version, p.0)

  -- get_package_info: the only pair that the generator yields
  unfoldable pub get_package_info :
      (packages : Dict String Json) → (url version : String) → Exec W (String × DebianInfo)
  unfolding from_metadata
  get_package_info packages url version = do
    meta ← present (lookup version packages)
    p_info ← from_metadata meta url version
    pure (release_name version none, p_info)

  -- `for filename, fileinfo in p_info.files.items()`: the URL and the name found so far.
  unfoldable pub find_dsc :
      Dict String DebianFile
      → (dsc_url dsc_name : Option String) → Exec W (Option String × Option String)
  find_dsc [] dsc_url dsc_name = pure (dsc_url, dsc_name)
  find_dsc ((filename, fileinfo) ∷ files) dsc_url dsc_name =
      let taken = find_dsc files (some fileinfo.uri) (some filename) in
      let passed = find_dsc files dsc_url dsc_name in
      if is_dsc filename then (if truthy dsc_name then throw dsc_count_error else taken) else passed

  -- dsc_information
  unfoldable pub dsc_information : DebianInfo → Exec W (Option String × Option String)
  unfolding find_dsc
  dsc_information p_info = find_dsc p_info.files none none

module _ {W : Type 0} (web : Web W) where
  -- The function download_package: each file with the hashes that are known, in the order of the files.
  unfoldable pub download_files :
      (tmpdir : String) → Dict String DebianFile → Exec W (Dict String Extrinsic)
  download_files tmpdir [] = pure []
  download_files tmpdir ((filename, fileinfo) ∷ files) = do
    result ← download web fileinfo.uri tmpdir (extrinsic_hashes fileinfo) (some filename) []
    rest ← download_files tmpdir files
    pure ((filename, result.1) ∷ rest)

  -- DebianLoader.download_package
  unfoldable pub download_package :
      DebianInfo → (tmpdir : String) → Exec W (List (String × Extrinsic))
  unfolding download_files
  download_package p_info tmpdir = do
    all_hashes ← download_files tmpdir p_info.files
    pure (map (λ (h : String × Extrinsic). (tmpdir, h.1)) all_hashes)
