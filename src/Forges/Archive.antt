-- ===== src/Forges/Archive.antt =====
-- package/archive/loader.py
use swh_loader_core.Prelude.{
  ℕ, String, Bool, true, false, Option, none, some, List, [], ◌∷◌, Dict, map, string_eq, ◌==◌,
}
use swh_loader_core.Effects.{Exec, pure, throw, ◌>>=◌}
use swh_loader_core.Model.{Sha1Git, truthy, directory, Release, Branches, Snapshot, PartialExtId}
use swh_loader_core.Core.Utils.Download.{size}
use swh_loader_core.Core.Utils.{release_name}
use swh_loader_core.Package.Info.{PackageInfo, ExtidClass}
use swh_loader_core.Forges.Text.{join_texts, is_slash, last_part}
use swh_loader_core.Forges.Json.{
  Json, str, int, null, as_dict, as_int, item, str_item, get_str, type_error,
}
use swh_loader_core.Forges.Person.{Person, empty_author}

-- ArchivePackageInfo
pub record ArchiveInfo : Type 0 where
  pub base : PackageInfo
  pub raw_info : Json
  pub length : ℕ
  pub time : Json

-- `filename if filename else path.split(url)[-1]`
abbrev pub file_of : Option String → (url : String) → String
file_of none url = last_part is_slash url
file_of (some filename) url = elim (truthy (some filename)) [
  | true ↦ filename
  | false ↦ last_part is_slash url
]

module _ {W : Type 0} where
  -- ArchivePackageInfo.from_metadata
  unfoldable pub from_metadata : (a_metadata : Json) → Exec W ArchiveInfo
  from_metadata a_metadata = do
    url ← str_item "url" a_metadata
    filename ← get_str "filename" a_metadata
    length_item ← item "length" a_metadata
    length ← as_int length_item
    time ← item "time" a_metadata
    version ← str_item "version" a_metadata
    pure (record {
      base = record {
        url = url;
        filename = some (file_of filename url);
        version = version;
        directory_extrinsic_metadata = [];
        checksums = ("length", size length) ∷ [];
        manifest = none;
      };
      raw_info = a_metadata;
      length = length;
      time = time;
    })

  -- ArchivePackageInfo.extid; `substitute` puts the values of a dictionary into a template, and `cls`
  -- has the type, the version and the hash.
  unfoldable pub extid :
      {Template : Type 0}
      → (substitute : Template → Dict String String → Exec W String) → (text : Json → String)
      → ExtidClass
      → (default_format : Template) → (manifest_format : Option Template) → ArchiveInfo
      → Exec W PartialExtId
  extid {Template} substitute text cls default_format manifest_format p_info = do
    d ← as_dict p_info.raw_info
    manifest ← substitute (chosen manifest_format) (map (λ (e : String × Json). (e.0, text e.1)) d)
    pure (record {
      extid_type = cls.extid_type;
      extid_version = cls.extid_version;
      extid = cls.sha256 manifest;
    })
    where
      chosen : Option Template → Template
      chosen none = default_format
      chosen (some format) = format

  -- get_versions: a version that is missing or empty is left out.
  unfoldable pub get_versions : (artifacts : List Json) → Exec W (List String)
  get_versions [] = pure []
  get_versions (archive ∷ artifacts) = do
    v ← get_str "version" archive
    rest ← get_versions artifacts
    pure (with_version v rest)
    where
      with_version : Option String → List String → List String
      with_version none versions = versions
      with_version (some v) versions = elim (truthy (some v)) [
        | true ↦ v ∷ versions
        | false ↦ versions
      ]

  -- get_package_info: what the generator yields, if none of the artifacts makes it raise.
  unfoldable pub get_package_info :
      (artifacts : List Json) → (version : String) → Exec W (List (String × ArchiveInfo))
  unfolding from_metadata
  get_package_info [] version = pure []
  get_package_info (a_metadata ∷ artifacts) version = do
    p_info ← from_metadata a_metadata
    rest ← get_package_info artifacts version
    pure (elim (version == p_info.base.version) [
      | true ↦ (release_name version none, p_info) ∷ rest
      | false ↦ rest
    ])

  -- build_release; `parse_date` reads a text, a time that is no text is a datetime or None.
  unfoldable pub build_release :
      (from_fullname : String → Person)
      → (parse_date : String → Exec W ℕ) → ArchiveInfo
      → Sha1Git
      → Exec W (Option Release)
  build_release from_fullname parse_date p_info directory_id = do
    date ← parsed p_info.time
    pure (
        some (record {
          name = p_info.base.version;
          message =
              some (join_texts ("Synthetic release for archive at " ∷ p_info.base.url ∷ "\n" ∷ []));
          author = some (empty_author from_fullname).fullname;
          date = date;
          target = some directory_id;
          target_type = directory;
          synthetic = true;
        }))
    where
      parsed : Json → Exec W (Option ℕ)
      parsed (str time) = do date ← parse_date time; pure (some date)
      parsed (int time) = pure (some time)
      parsed null = pure none
      parsed _ = throw type_error

  -- extra_branches: the branches of the last snapshot, if they are to be kept.
  unfoldable pub extra_branches :
      (snapshot_append : Bool) → (last_snapshot : Exec W (Option Snapshot)) → Exec W Branches
  extra_branches false last_snapshot = pure []
  extra_branches true last_snapshot = do found ← last_snapshot; pure (branches_of found)
    where
      branches_of : Option Snapshot → Branches
      branches_of none = []
      branches_of (some snapshot) = snapshot.branches
