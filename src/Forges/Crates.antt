-- ===== src/Forges/Crates.antt =====
-- package/crates/loader.py
pub mod Verified
use Prim.Native.String
use swh_loader_core.Prelude.{
  ℕ, String, Bool, true, false, Option, none, some, List, [], ◌∷◌, Dict, lookup, insert, map,
  string_eq,
}
use swh_loader_core.Effects.{Exec, pure, assert, ◌>>=◌, ◌>>◌}
use swh_loader_core.Model.{Sha1Git, truthy, directory, Release, MetadataAuthority}
use swh_loader_core.Core.Utils.Download.{hex}
use swh_loader_core.Core.Utils.{cached_method, release_name}
use swh_loader_core.Package.Info.{PackageInfo}
use swh_loader_core.Forges.Text.{join_texts, is_slash, last_part}
use swh_loader_core.Forges.Json.{
  Json, list, item_and, str, as_dict, as_list, as_str, item, str_item, get, present, Cache,
}
use swh_loader_core.Forges.Person.{Person, empty_author}
use swh_loader_core.Forges.Host.{Host}

-- CratesPackageInfo
pub record CratesInfo : Type 0 where
  pub base : PackageInfo
  pub name : String
  pub sha256 : String
  pub last_update : ℕ

-- MANIFEST_FORMAT with the attributes put in; `printed_date` is str of a datetime.
unfoldable pub manifest :
    (printed_date : ℕ → String) → (name sha256 url version : String) → ℕ → String
manifest printed_date name sha256 url version last_update = join_texts (
    "name "
    ∷ name
    ∷ "\nshasum "
    ∷ sha256
    ∷ "\nurl "
    ∷ url
    ∷ "\nversion "
    ∷ version
    ∷ "\nlast_update "
    ∷ printed_date last_update
    ∷ [])

module _ {W : Type 0} where
  -- `{artifact[key]: artifact for artifact in artifacts}`: a later one takes the place of an earlier.
  unfoldable pub by_key : (key : String) → List Json → Dict String Json → Exec W (Dict String Json)
  by_key key [] found = pure found
  by_key key (artifact ∷ artifacts) found = do
    k ← str_item key artifact
    by_key key artifacts (insert k artifact found)

-- get_versions
abbrev pub get_versions : (artifacts : Dict String Json) → List String
get_versions artifacts = map (λ (a : String × Json). a.0) artifacts

module _ {W : Type 0} (host : Host W) (printed_date : ℕ → String) (parse_date : String → Exec W ℕ)
    (cache : Cache W String (Dict String Json)) (url : String) (artifacts : Dict String Json) where
  -- self.crate_name
  abbrev pub crate_name : String
  crate_name = last_part is_slash (host.urlparse url).path

  -- get_metadata_authority
  unfoldable pub get_metadata_authority : MetadataAuthority
  get_metadata_authority =
      let p_url = host.urlparse url in
      record { type = "forge"; url = join_texts (p_url.scheme ∷ "://" ∷ p_url.netloc ∷ "/" ∷ []) }

  -- `crate_metadata.get("versions", [])`
  abbrev versions_of : Option Json → Exec W (List Json)
  versions_of none = pure []
  versions_of (some versions) = as_list versions

  -- crate_extrinsic_medata
  unfoldable pub crate_extrinsic_metadata : Exec W (Dict String Json)
  unfolding by_key
  crate_extrinsic_metadata =
      let api_url = String.◌++◌ "https://crates.io/api/v1/crates/" crate_name in
      cached_method (cache.look api_url) (cache.keep api_url) (do
        raw ← host.get_url_body api_url
        crate_metadata ← host.loads raw
        versions ← get "versions" crate_metadata
        list_of_versions ← versions_of versions
        by_key "num" list_of_versions [])

  -- get_package_info: the only pair that the generator yields
  unfoldable pub get_package_info : (version : String) → Exec W (String × CratesInfo)
  unfolding crate_extrinsic_metadata
  get_package_info version = do
    artifact ← present (lookup version artifacts)
    filename ← str_item "filename" artifact
    checksums ← item "checksums" artifact
    sha256 ← str_item "sha256" checksums
    assert (truthy (some sha256))
    artifact_url ← str_item "url" artifact
    extrinsic ← crate_extrinsic_metadata
    crate_version_metadata ← present (lookup version extrinsic)
    updated_at ← str_item "updated_at" crate_version_metadata
    last_update ← parse_date updated_at
    pure (
      release_name version (some filename),
      record {
        base = record {
          url = artifact_url;
          filename = some filename;
          version = version;
          directory_extrinsic_metadata =
              record {
                format = "crates-package-json";
                metadata = host.dumps crate_version_metadata;
                discovery_date = none;
              }
              ∷ [];
          checksums = ("sha256", hex sha256) ∷ [];
          manifest =
              some (manifest printed_date crate_name sha256 artifact_url version last_update);
        };
        name = crate_name;
        sha256 = sha256;
        last_update = last_update;
      },
    )

module _ {W : Type 0} (host : Host W) (load_toml : String → Exec W Json) (timestamp : ℕ → ℕ) where
  -- `if authors and isinstance(authors, list)`
  abbrev first_author : Option Json → Exec W Person
  first_author (some (list (item_and author rest))) = do
    fullname ← as_str author
    pure (host.from_fullname fullname)
  first_author _ = pure (empty_author host.from_fullname)

  -- `i_metadata.get("package", {}).get("authors")`
  abbrev authors_of : Option Json → Exec W (Option Json)
  authors_of none = pure none
  authors_of (some found) = get "authors" found

  -- build_release
  unfoldable pub build_release :
      CratesInfo → (uncompressed_path : String) → Sha1Git → Exec W (Option Release)
  build_release p_info uncompressed_path directory_id = do
    let dir_path =
        host.join uncompressed_path (join_texts (p_info.name ∷ "-" ∷ p_info.base.version ∷ []))
    i_metadata ← load_toml (host.join dir_path "Cargo.toml")
    found ← get "package" i_metadata
    authors ← authors_of found
    author ← first_author authors
    pure (
        some (record {
          name = p_info.base.version;
          message = some (
              join_texts (
                "Synthetic release for Crate source package " ∷ p_info.name ∷ " version "
                ∷ p_info.base.version ∷ "\n" ∷ []));
          author = some author.fullname;
          date = some (timestamp p_info.last_update);
          target = some directory_id;
          target_type = directory;
          synthetic = true;
        }))
