-- ===== src/Forges/Pubdev.antt =====
-- package/pubdev/loader.py
use swh_loader_core.Prelude.{
  String, true, false, Option, none, some, List, [], ◌∷◌, Dict, lookup, insert, map, string_eq,
  ◌==◌,
}
use swh_loader_core.Effects.{Exec, pure, assert, ◌>>=◌, ◌>>◌}
use swh_loader_core.Model.{Sha1Git, truthy, directory, Release}
use swh_loader_core.Core.Utils.Download.{Digest, hex}
use swh_loader_core.Core.Utils.{cached_method, release_name}
use swh_loader_core.Package.Info.{PackageInfo}
use swh_loader_core.Forges.Text.{join_texts}
use swh_loader_core.Forges.Json.{
  Json, list, item_and, dict, no_entries, as_list, as_str, item, str_item, get, get_str, present,
  Cache,
}
use swh_loader_core.Forges.Person.{Person, empty_author}
use swh_loader_core.Forges.Host.{Host}

-- PubDevPackageInfo
pub record PubdevInfo : Type 0 where
  pub base : PackageInfo
  pub name : String
  pub last_modified : String
  pub author : Person

module _ {W : Type 0} (host : Host W) (cache : Cache W String (Dict String Json))
    (package_info_url : String) where
  -- `{v["version"]: v for v in info["versions"]}`
  unfoldable pub by_version : List Json → Dict String Json → Exec W (Dict String Json)
  by_version [] found = pure found
  by_version (v ∷ vs) found = do
    version ← str_item "version" v
    by_version vs (insert version v found)

  -- info: what is used of it, the versions. `host.loads` takes newlines in texts here.
  unfoldable pub info : Exec W (Dict String Json)
  unfolding by_version
  info = cached_method (cache.look package_info_url) (cache.keep package_info_url) (do
    raw ← host.get_url_body package_info_url
    answer ← host.loads raw
    versions_item ← item "versions" answer
    versions ← as_list versions_item
    by_version versions [])

  -- get_versions
  unfoldable pub get_versions : Exec W (List String)
  unfolding info
  get_versions = do versions ← info; pure (map (λ (v : String × Json). v.0) versions)

  -- `{"sha256": ...} if v.get("archive_sha256") else {}`
  abbrev checksums_of : Option String → Dict String Digest
  checksums_of none = []
  checksums_of (some sha256) = elim (truthy (some sha256)) [
    | true ↦ ("sha256", hex sha256) ∷ []
    | false ↦ []
  ]

  -- `v.get("pubspec", {})`
  abbrev pubspec_of : Option Json → Json
  pubspec_of none = dict no_entries
  pubspec_of (some found) = found

  -- The author where there is no list of authors.
  abbrev single_author : Option String → Person
  single_author none = empty_author host.from_fullname
  single_author (some fullname) = elim (truthy (some fullname)) [
    | true ↦ host.from_fullname fullname
    | false ↦ empty_author host.from_fullname
  ]

  -- The first of a list of authors, else the author, else nobody.
  unfoldable pub author_of : (pubspec : Json) → Option Json → Exec W Person
  author_of pubspec (some (list (item_and author authors))) = do
    fullname ← as_str author
    pure (host.from_fullname fullname)
  author_of pubspec _ = do fullname ← get_str "author" pubspec; pure (single_author fullname)

  -- get_package_info: the only pair that the generator yields
  unfoldable pub get_package_info : (version : String) → Exec W (String × PubdevInfo)
  unfolding info author_of
  get_package_info version = do
    versions ← info
    v ← present (lookup version versions)
    own_version ← str_item "version" v
    assert (own_version == version)
    url ← str_item "archive_url" v
    own_pubspec ← item "pubspec" v
    name ← str_item "name" own_pubspec
    last_modified ← str_item "published" v
    sha256 ← get_str "archive_sha256" v
    found ← get "pubspec" v
    let pubspec = pubspec_of found
    authors ← get "authors" pubspec
    author ← author_of pubspec authors
    pure (
      release_name version none,
      record {
        base = record {
          url = url;
          filename = some (join_texts (name ∷ "-" ∷ version ∷ ".tar.gz" ∷ []));
          version = version;
          directory_extrinsic_metadata = [];
          checksums = checksums_of sha256;
          manifest = none;
        };
        name = name;
        last_modified = last_modified;
        author = author;
      },
    )

  -- build_release
  unfoldable pub build_release : PubdevInfo → Sha1Git → Exec W (Option Release)
  build_release p_info directory_id = do
    date ← host.from_iso8601 p_info.last_modified
    pure (
        some (record {
          name = p_info.base.version;
          message = some (
              join_texts (
                "Synthetic release for pub.dev source package " ∷ p_info.name ∷ " version "
                ∷ p_info.base.version ∷ "\n" ∷ []));
          author = some p_info.author.fullname;
          date = some date;
          target = some directory_id;
          target_type = directory;
          synthetic = true;
        }))
