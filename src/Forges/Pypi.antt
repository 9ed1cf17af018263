-- ===== src/Forges/Pypi.antt =====
-- package/pypi/loader.py
pub mod Verified
pub mod Names
use Prim.Native.String
use swh_loader_core.Prelude.{
  ℕ, String, Bool, true, false, not, ◌&&◌, ◌||◌, Option, none, some, List, [], ◌∷◌, Dict, lookup,
  map, is_empty, string_eq, ◌==◌,
}
use swh_loader_core.Effects.{Exec, pure, throw, key_error, ◌>>=◌, ◌>>◌}
use swh_loader_core.Model.{Sha1Git, truthy, directory, Release, MetadataAuthority, PartialExtId}
use swh_loader_core.Core.Utils.Download.{hex}
use swh_loader_core.Core.Utils.{cached_method, release_name}
use swh_loader_core.Package.Info.{PackageInfo}
use swh_loader_core.Forges.Text.{join_texts, is_slash, rstrip, last_part, ends_with_any}
use swh_loader_core.Forges.Json.{
  Json, null, str, as_dict, as_list, as_optional, item, str_item, get_str, present, each,
  type_error, Cache,
}
use swh_loader_core.Forges.Person.{Person, empty_author}
use swh_loader_core.Forges.Host.{Host, Url}

-- PyPIPackageInfo
pub record PypiInfo : Type 0 where
  pub base : PackageInfo
  pub raw_info : Json
  pub name : String
  pub comment_text : Option String
  pub sha256 : String
  pub upload_time : String

-- `"%s <%s>" % (name, email)` prints a missing name as None.
abbrev printed_name : Option String → String
printed_name none = "None"
printed_name (some name) = name

-- The full name of author; the email counts when it is not empty.
unfoldable pub author_fullname : (name email : Option String) → Option String
author_fullname name email = elim (truthy email) [
  | true ↦ some (join_texts (printed_name name ∷ " <" ∷ printed_name email ∷ ">" ∷ []))
  | false ↦ name
]

abbrev unwanted_suffixes : List String
unwanted_suffixes = ".deb" ∷ ".egg" ∷ ".rpm" ∷ ".whl" ∷ []

module _ {W : Type 0} (host : Host W) where
  -- pypi_api_url
  unfoldable pub pypi_api_url : String → String
  pypi_api_url url =
      let p_url = host.urlparse url in
      let project_name = last_part is_slash (rstrip is_slash p_url.path) in
      join_texts (p_url.scheme ∷ "://" ∷ p_url.netloc ∷ "/pypi/" ∷ project_name ∷ "/json" ∷ [])

  -- get_metadata_authority
  unfoldable pub get_metadata_authority : (origin_url : String) → MetadataAuthority
  get_metadata_authority origin_url =
      let p_url = host.urlparse origin_url in
      record { type = "forge"; url = join_texts (p_url.scheme ∷ "://" ∷ p_url.netloc ∷ "/" ∷ []) }

  -- PyPIPackageInfo.from_metadata
  unfoldable pub from_metadata : (metadata : Json) → (name version : String) → Exec W PypiInfo
  from_metadata metadata name version = do
    url ← str_item "url" metadata
    filename ← str_item "filename" metadata
    comment_text ← get_str "comment_text" metadata
    digests ← item "digests" metadata
    sha256 ← str_item "sha256" digests
    upload_time ← str_item "upload_time" metadata
    pure (record {
      base = record {
        url = url;
        filename = some filename;
        version = version;
        directory_extrinsic_metadata =
            record {
              format = "pypi-project-json";
              metadata = host.dumps metadata;
              discovery_date = none;
            }
            ∷ [];
        checksums = ("sha256", hex sha256) ∷ [];
        manifest = none;
      };
      raw_info = metadata;
      name = name;
      comment_text = comment_text;
      sha256 = sha256;
      upload_time = upload_time;
    })

  -- PyPIPackageInfo.extid
  unfoldable pub extid : PypiInfo → Exec W (Option PartialExtId)
  extid p_info = do
    hash ← host.hash_to_bytes p_info.sha256
    pure (some (record { extid_type = "pypi-archive-sha256"; extid_version = 0; extid = hash }))

  -- info; _raw_info is only read here.
  unfoldable pub info : Cache W String Json → (provider_url : String) → Exec W Json
  info cache provider_url =
      cached_method (cache.look provider_url) (cache.keep provider_url)
        (do raw ← host.get_url_body provider_url; host.loads raw)

  -- `meta["packagetype"] != "sdist" or ...`: the file name is read only of an sdist.
  unfoldable pub is_wanted : Json → Exec W Bool
  is_wanted meta = do
    packagetype ← str_item "packagetype" meta
    elim (packagetype == "sdist") [
      | false ↦ pure false
      | true ↦ do
        filename ← str_item "filename" meta
        pure (not (ends_with_any (host.lower filename) unwanted_suffixes))
    ]

  -- `for meta in self.info()["releases"][version]`; `info_json` is what self.info() returns.
  unfoldable pub collect_sdists :
      (info_json : Json) → (version : String) → List Json → Exec W (List PypiInfo)
  unfolding is_wanted from_metadata
  collect_sdists info_json version [] = pure []
  collect_sdists info_json version (meta ∷ metas) = do
    wanted ← is_wanted meta
    let rest = collect_sdists info_json version metas
    elim wanted [
      | false ↦ rest
      | true ↦ do
        project ← item "info" info_json
        name ← str_item "name" project
        p_info ← from_metadata meta name version
        more ← rest
        pure (p_info ∷ more)
    ]

-- The branch names: with the file name, unless there is one package only.
unfoldable pub with_names : (version : String) → List PypiInfo → List (String × PypiInfo)
with_names version [] = []
with_names version (p_info ∷ infos) =
    (release_name version p_info.base.filename, p_info) ∷ with_names version infos

unfoldable pub branch_names : (version : String) → List PypiInfo → List (String × PypiInfo)
unfolding with_names
branch_names version (p_info ∷ []) = (release_name version none, p_info) ∷ []
branch_names version infos = with_names version infos

module _ {W : Type 0} (host : Host W) (cache : Cache W String Json) (provider_url : String) where
  -- get_versions
  unfoldable pub get_versions : Exec W (List String)
  unfolding info
  get_versions = do
    info_json ← info host cache provider_url
    releases ← item "releases" info_json
    d ← as_dict releases
    pure (map (λ (e : String × Json). e.0) d)

  -- get_default_version
  unfoldable pub get_default_version : Exec W String
  unfolding info
  get_default_version = do
    info_json ← info host cache provider_url
    project ← item "info" info_json
    str_item "version" project

  -- get_package_info: what the generator yields, all after the loop that may raise.
  unfoldable pub get_package_info : (version : String) → Exec W (List (String × PypiInfo))
  unfolding info collect_sdists branch_names
  get_package_info version = do
    info_json ← info host cache provider_url
    releases ← item "releases" info_json
    metas_item ← item version releases
    metas ← as_list metas_item
    infos ← collect_sdists host info_json version metas
    pure (branch_names version infos)

module _ {W : Type 0} (host : Host W) (unpacked : String → Exec W (Dict String Json)) where
  -- raw.pop("filename")
  abbrev without_filename : Dict String Json → Dict String Json
  without_filename [] = []
  without_filename ((k, v) ∷ raw) =
      let rest = without_filename raw in
      elim (k == "filename") [ true ↦ rest | false ↦ (k, v) ∷ rest ]

  -- extract_intrinsic_metadata; `unpacked` reads UnpackedSDist(pkginfo_path).__dict__.
  unfoldable pub extract_intrinsic_metadata : (dir_path : String) → Exec W (Dict String Json)
  extract_intrinsic_metadata dir_path = do
    found ← host.exists dir_path
    elim found [ false ↦ pure [] | true ↦ do lst ← host.listdir dir_path; of_listing lst ]
    where
      of_pkginfo : String → Exec W (Dict String Json)
      of_pkginfo pkginfo_path = do
        found ← host.exists pkginfo_path
        elim found [
          | false ↦ pure []
          | true ↦ do
            raw ← unpacked pkginfo_path
            filename ← present (lookup "filename" raw)
            pure (without_filename raw)
        ]

      of_listing : List String → Exec W (Dict String Json)
      of_listing (project_dirname ∷ []) =
          of_pkginfo (host.join (host.join dir_path project_dirname) "PKG-INFO")
      of_listing _ = pure []

  -- `data.get(key)` of the intrinsic metadata
  abbrev optional : Option Json → Exec W (Option String)
  optional none = pure none
  optional (some v) = as_optional v

  -- author
  unfoldable pub author : Dict String Json → Exec W Person
  unfolding author_fullname
  author data_ = do
    name ← optional (lookup "author" data_)
    email ← optional (lookup "author_email" data_)
    let fullname = author_fullname name email
    elim (truthy fullname) [
      | false ↦ pure (empty_author host.from_fullname)
      | true ↦ do
        found ← present fullname
        pure (record { fullname = found; name = name; email = email })
    ]

  -- `i_metadata.get("version", p_info.version)`, printed
  abbrev printed_version : Option Json → String → String
  printed_version none version = version
  printed_version (some v) version = host.text v

  -- The comment of the author of the package, else a synthetic message.
  unfoldable pub release_message : PypiInfo → Dict String Json → String
  release_message p_info i_metadata =
      let version = printed_version (lookup "version" i_metadata) p_info.base.version in
      let synthetic = join_texts (
        "Synthetic release for PyPI source package " ∷ p_info.name ∷ " version " ∷ version ∷ "\n"
        ∷ []) in
      or_synthetic p_info.comment_text synthetic
    where
      or_synthetic : Option String → String → String
      or_synthetic none m = m
      or_synthetic (some comment) m = elim (truthy (some comment)) [ true ↦ comment | false ↦ m ]

  -- build_release
  unfoldable pub build_release :
      PypiInfo → (uncompressed_path : String) → Sha1Git → Exec W (Option Release)
  unfolding extract_intrinsic_metadata author release_message
  build_release p_info uncompressed_path directory_id = do
    i_metadata ← extract_intrinsic_metadata uncompressed_path
    elim (is_empty i_metadata) [
      | true ↦ pure none
      | false ↦ do
        author_ ← author i_metadata
        date ← host.from_iso8601 p_info.upload_time
        pure (
            some (record {
              name = p_info.base.version;
              message = some (release_message p_info i_metadata);
              author = some author_.fullname;
              date = some date;
              target = some directory_id;
              target_type = directory;
              synthetic = true;
            }))
    ]
