-- ===== src/Forges/Golang.antt =====
-- package/golang/loader.py
pub mod Versions
use Prim.Native.Char.{Char, code}
use Prim.Native.String
use text.Mathlib.Text.{starts_with}
use swh_loader_core.Prelude.{
  ℕ, String, Bool, true, false, not, ◌&&◌, Option, none, some, List, [], ◌∷◌, ◌++◌, contains,
  string_eq, leb, if◌then◌else◌,
}
use swh_loader_core.Effects.{
  Exception, Exec, pure, throw, modify, try_base, not_found, http_error, value_error, ◌>>=◌, ◌>>◌,
}
use swh_loader_core.Model.{Sha1Git, directory, Release}
use swh_loader_core.Core.Utils.{cached_method, release_name}
use swh_loader_core.Package.Info.{PackageInfo}
use swh_loader_core.Forges.Text.{join_texts, is_slash, splitlines}
use swh_loader_core.Forges.Json.{Json, item, str_item, Cache}
use swh_loader_core.Forges.Person.{Person, empty_author}
use swh_loader_core.Forges.Host.{Host}

-- GolangPackageInfo
pub record GolangInfo : Type 0 where
  pub base : PackageInfo
  pub name : String
  pub timestamp : ℕ

abbrev is_capital : Char → Bool
is_capital c = leb b'A' (code c) && leb (code c) b'Z'

-- re.sub("([A-Z]{1})", r"!\1", url)
unfoldable pub mark_capitals : String → String
mark_capitals String.[] = ""
mark_capitals (String.◌∷◌ c s) =
    let rest = String.◌∷◌ c (mark_capitals s) in if is_capital c then String.◌++◌ "!" rest else rest

module _ (lower : String → String) where
  -- _uppercase_encode
  unfoldable pub uppercase_encode : String → String
  unfolding mark_capitals
  uppercase_encode url = lower (mark_capitals url)

-- self.name.replace("/", "__")
unfoldable pub encode_name : String → String
encode_name String.[] = ""
encode_name (String.◌∷◌ c s) =
    let rest = encode_name s in if is_slash c then String.◌++◌ "__" rest else String.◌∷◌ c rest

-- The newest of the versions, as max finds it: the first of those that none is newer than.
unfoldable pub max_version :
    (newer : String → String → Bool) → (best : String) → List String → String
max_version newer best [] = best
max_version newer best (v ∷ versions) =
    max_version newer (if newer v best then v else best) versions

module _ {W : Type 0} (host : Host W) (is_json_error : Exception → Bool)
    (newer : String → String → Bool) (url : String)
    (versions_cache : Cache W (Unit {0}) (List String))
    (default_cache : Cache W (Unit {0}) String) where
  -- _get_versions
  unfoldable pub listed_versions : Exec W (List String)
  listed_versions =
      cached_method (versions_cache.look tt) (versions_cache.keep tt)
        (do body ← host.get_url_body (join_texts (url ∷ "/@v/list" ∷ [])); pure (splitlines body))

  -- `max(self._get_versions(), key=LooseVersion2)`
  abbrev newest : List String → Exec W String
  newest [] = throw (value_error "max() arg is an empty sequence")
  newest (v ∷ versions) = pure (max_version newer v versions)

  -- `except (NotFound, HTTPError, json.JSONDecodeError)`
  abbrev is_handled : Exception → Bool
  is_handled (not_found m) = true
  is_handled (http_error code) = true
  is_handled e = is_json_error e

  -- get_default_version
  unfoldable pub get_default_version : Exec W String
  unfolding listed_versions max_version
  get_default_version = cached_method (default_cache.look tt) (default_cache.keep tt) (
      try_base
        (do
          latest ← host.get_url_body (join_texts (url ∷ "/@latest" ∷ []))
          answer ← host.loads latest
          str_item "Version" answer)
        (λ e. elim (is_handled e) [
          | true ↦ do versions ← listed_versions; newest versions
          | false ↦ throw e
        ]))

  -- `if default_version not in versions: versions.append(default_version)`; the list is the one in the
  -- cache, so that the cache has the new version too.
  unfoldable pub with_default : List String → String → Exec W (List String)
  with_default versions default_version = elim (contains versions default_version) [
    | true ↦ pure versions
    | false ↦ do
      modify (versions_cache.keep tt (versions ++ default_version ∷ []))
      pure (versions ++ default_version ∷ [])
  ]

  -- get_versions
  unfoldable pub get_versions : Exec W (List String)
  unfolding listed_versions get_default_version with_default
  get_versions = do
    versions ← listed_versions
    default_version ← get_default_version
    with_default versions default_version

  -- _raw_info
  unfoldable pub raw_info : (version : String) → Exec W Json
  unfolding uppercase_encode
  raw_info version = do
    body ←
        host.get_url_body
          (join_texts (url ∷ "/@v/" ∷ uppercase_encode host.lower version ∷ ".info" ∷ []))
    host.loads body

  -- get_package_info: the only pair that the generator yields
  unfoldable pub get_package_info : (name version : String) → Exec W (String × GolangInfo)
  unfolding raw_info uppercase_encode encode_name
  get_package_info name version = do
    info ← raw_info version
    time ← str_item "Time" info
    timestamp ← host.from_iso8601 time
    pure (
      release_name version none,
      record {
        base = record {
          url = join_texts (url ∷ "/@v/" ∷ uppercase_encode host.lower version ∷ ".zip" ∷ []);
          filename = some (join_texts (encode_name name ∷ "-" ∷ version ∷ ".zip" ∷ []));
          version = version;
          directory_extrinsic_metadata = [];
          checksums = [];
          manifest = none;
        };
        name = name;
        timestamp = timestamp;
      },
    )

-- build_release
unfoldable pub build_release :
    (from_fullname : String → Person) → GolangInfo → Sha1Git → Option Release
build_release from_fullname p_info directory_id = some (record {
  name = p_info.base.version;
  message = some (
      join_texts (
        "Synthetic release for Golang source package " ∷ p_info.name ∷ " version "
        ∷ p_info.base.version ∷ "\n" ∷ []));
  author = some (empty_author from_fullname).fullname;
  date = some p_info.timestamp;
  target = some directory_id;
  target_type = directory;
  synthetic = true;
})
