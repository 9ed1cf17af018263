-- ===== src/Forges/Npm.antt =====
-- package/npm/loader.py
pub mod Author
pub mod Manifest
pub mod Verified
use Prim.Native.String
use swh_loader_core.Prelude.{
  ℕ, String, Bool, true, false, Option, none, some, List, [], ◌∷◌, Dict, lookup, has_key, map,
  is_empty, string_eq, ◌==◌,
}
use swh_loader_core.Effects.{Exec, pure, throw, assert, value_error, ◌>>=◌, ◌>>◌}
use swh_loader_core.Model.{Sha1Git, directory, Release, MetadataAuthority}
use swh_loader_core.Core.Utils.Download.{hex}
use swh_loader_core.Core.Utils.{cached_method, release_name}
use swh_loader_core.Package.Info.{PackageInfo}
use swh_loader_core.Forges.Text.{join_texts, is_slash, last_part}
use swh_loader_core.Forges.Json.{
  Json, str, as_str, as_dict, as_optional, item, str_item, present, Cache,
}
use swh_loader_core.Forges.Person.{Person, empty_author}
use swh_loader_core.Forges.Host.{Host}
use swh_loader_core.Forges.Npm.Author.{extract_npm_package_author}

-- NpmPackageInfo
pub record NpmInfo : Type 0 where
  pub base : PackageInfo
  pub raw_info : Json
  pub package_name : String
  pub date : Option String
  pub shasum : String

-- str(date)
abbrev pub printed_date : Option String → String
printed_date none = "None"
printed_date (some date) = date

-- MANIFEST_FORMAT with the attributes put in
unfoldable pub manifest :
    (date : Option String) → (package_name shasum url version : String) → String
manifest date package_name shasum url version = join_texts (
    "date "
    ∷ printed_date date
    ∷ "\nname "
    ∷ package_name
    ∷ "\nshasum "
    ∷ shasum
    ∷ "\nurl "
    ∷ url
    ∷ "\nversion "
    ∷ version
    ∷ [])

-- The message of build_release.
abbrev pub release_message : NpmInfo → String
release_message p_info = join_texts (
    "Synthetic release for NPM source package " ∷ p_info.package_name ∷ " version "
    ∷ p_info.base.version ∷ "\n" ∷ [])

module _ {W : Type 0} (host : Host W) where
  -- The date of the API, else the time of the last modification, else None.
  unfoldable pub choose_date :
      (project_metadata package_metadata : Json)
      → (extrinsic_version : String) → Exec W (Option String)
  choose_date project_metadata package_metadata extrinsic_version = do
    project ← as_dict project_metadata
    found ← as_dict package_metadata
    from_project project found
    where
      from_package : Option Json → Exec W (Option String)
      from_package none = pure none
      from_package (some mtime) = as_optional mtime

      from_project : Dict String Json → Dict String Json → Exec W (Option String)
      from_project project found = elim (has_key "time" project) [
        | true ↦ do
          times ← present (lookup "time" project)
          date ← item extrinsic_version times
          as_optional date
        | false ↦ from_package (lookup "mtime" found)
      ]

  -- NpmPackageInfo.from_metadata
  unfoldable pub from_metadata : (project_metadata : Json) → (version : String) → Exec W NpmInfo
  unfolding manifest choose_date
  from_metadata project_metadata version = do
    versions ← item "versions" project_metadata
    package_metadata ← item version versions
    dist ← item "dist" package_metadata
    url ← str_item "tarball" dist
    package_name ← str_item "name" package_metadata
    project_name ← str_item "name" project_metadata
    assert (package_name == project_name)
    extrinsic_version ← str_item "version" package_metadata
    date ← choose_date project_metadata package_metadata extrinsic_version
    shasum ← str_item "shasum" dist
    pure (record {
      base = record {
        url = url;
        filename = some (last_part is_slash url);
        version = extrinsic_version;
        directory_extrinsic_metadata =
            record {
              format = "replicate-npm-package-json";
              metadata = host.dumps package_metadata;
              discovery_date = none;
            }
            ∷ [];
        checksums = ("sha1", hex shasum) ∷ [];
        manifest = some (manifest date package_name shasum url extrinsic_version);
      };
      raw_info = package_metadata;
      package_name = package_name;
      date = date;
      shasum = shasum;
    })

module _ {W : Type 0} (host : Host W) (cache : Cache W String Json) (provider_url : String) where
  -- info; _raw_info is only read here.
  unfoldable pub info : Exec W Json
  info =
      cached_method (cache.look provider_url) (cache.keep provider_url)
        (do raw ← host.get_url_body provider_url; host.loads raw)

  -- get_versions; the dictionary is iterated over by its keys.
  unfoldable pub get_versions : Exec W (List String)
  unfolding info
  get_versions = do
    project ← info
    versions ← item "versions" project
    d ← as_dict versions
    pure (map (λ (e : String × Json). e.0) d)

  -- `.get("latest", "")`
  abbrev latest_or : Option Json → Exec W String
  latest_or none = pure ""
  latest_or (some v) = as_str v

  -- get_default_version
  unfoldable pub get_default_version : Exec W String
  unfolding info
  get_default_version = do
    project ← info
    tags ← item "dist-tags" project
    d ← as_dict tags
    latest_or (lookup "latest" d)

  -- get_package_info: the only pair that the generator yields
  unfoldable pub get_package_info : (version : String) → Exec W (String × NpmInfo)
  unfolding info from_metadata
  get_package_info version = do
    project ← info
    p_info ← from_metadata host project version
    pure (release_name version none, p_info)

-- get_metadata_authority
abbrev pub npm_authority : MetadataAuthority
npm_authority = record { type = "forge"; url = "https://npmjs.com/" }

module _ {W : Type 0} (host : Host W) (load_json : String → Exec W (Dict String Json))
    (package_name : String) where
  -- extract_intrinsic_metadata; `load_json` reads the file and parses it.
  unfoldable pub extract_intrinsic_metadata : (dir_path : String) → Exec W (Dict String Json)
  extract_intrinsic_metadata dir_path = do
    found ← host.exists dir_path
    elim found [ false ↦ pure [] | true ↦ do lst ← host.listdir dir_path; of_listing lst ]
    where
      of_listing : List String → Exec W (Dict String Json)
      of_listing [] = pure []
      of_listing (project_dirname ∷ _) = do
        let package_json_path = host.join (host.join dir_path project_dirname) "package.json"
        found ← host.exists package_json_path
        elim found [ false ↦ pure [] | true ↦ load_json package_json_path ]

  -- `if p_info.date is None: raise ValueError(...)`
  abbrev known_date : NpmInfo → Option String → Exec W String
  known_date p_info (some date) = pure date
  known_date p_info none = throw (
      value_error (
        join_texts (
          "Origin "
          ∷ p_info.base.url
          ∷ ": Cannot determine upload time for artifact "
          ∷ last_part is_slash p_info.base.url
          ∷ "."
          ∷ [])))

  -- build_release from the intrinsic metadata; `seconds` drops the microseconds of a time.
  unfoldable pub release_from :
      (seconds : ℕ → ℕ) → NpmInfo → Sha1Git → Dict String Json → Exec W (Option Release)
  release_from seconds p_info directory_id i_metadata = do
    author ← extract_npm_package_author host i_metadata
    assert (package_name == p_info.package_name)
    text ← known_date p_info p_info.date
    date ← host.from_iso8601 text
    pure (
        some (record {
          name = p_info.base.version;
          message = some (release_message p_info);
          author = some author.fullname;
          date = some (seconds date);
          target = some directory_id;
          target_type = directory;
          synthetic = true;
        }))

  -- build_release
  unfoldable pub build_release :
      (seconds : ℕ → ℕ) → NpmInfo → (uncompressed_path : String) → Sha1Git → Exec W (Option Release)
  unfolding extract_intrinsic_metadata release_from
  build_release seconds p_info uncompressed_path directory_id = do
    i_metadata ← extract_intrinsic_metadata uncompressed_path
    elim (is_empty i_metadata) [
      | true ↦ pure none
      | false ↦ release_from seconds p_info directory_id i_metadata
    ]
