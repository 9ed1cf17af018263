-- ===== src/Forges/Samples.antt =====
-- The theorems on the loaders of the forges and on the defaults of PackageLoader, at small packages.
pub mod Registries
pub mod Deposits
pub mod Sources
pub mod Archives
use Prim.Native.String
use swh_loader_core.Prelude.{
  ℕ, String, ◌≡◌, ◌≢◌, refl, Bool, true, false, Option, none, some, List, [], ◌∷◌, Dict, All,
  Within, length, ltb, arith, lookup, string_eq,
}
use swh_loader_core.Effects.{Exec, Result, ok, raise}
use swh_loader_core.Effects.Hoare.{Post, Any, Returned}
use swh_loader_core.Model.{
  Sha1Git, truthy, directory, release, target_of, Revision, Release, Snapshot, TaskResult,
  SnapshotBranch,
}
use swh_loader_core.Samples.{done, give, sample_config, sample_identifiers}
use swh_loader_core.Core.Utils.Download.{Web, hex, Digest, Extrinsic}
use swh_loader_core.Package.Info.{PackageInfo}
use swh_loader_core.Package.Release.{ends_with_newline, rev2rel}
use swh_loader_core.Package.Release.Newline.{rev2rel-message}
use swh_loader_core.Package.Defaults.{download_package, get_default_version}
use swh_loader_core.Package.Defaults.Verified.{OneFetched, HasDigest, download_package-Fetched}
use swh_loader_core.Package.Defaults.Sorted.{get_default_version_newest}
use swh_loader_core.Forges.Json.{
  Json, null, str, list, dict, no_items, item_and, no_entries, entry_and, Cache,
}
use swh_loader_core.Forges.Host.{Host}
use swh_loader_core.Forges.Person.{Person}

abbrev pub sample_web : Web ℕ
sample_web = record {
  get = λ u h. give (record { url = u; disposition = none; chunks = (1 ∷ []) ∷ [] });
  write = λ p b. done;
  digest = λ algo b. hex algo;
  url_basename = λ u. "f";
  join = λ a b. b;
}

abbrev sample_package : PackageInfo
sample_package = record {
  url = "https://example.org/f.tgz";
  filename = some "f.tgz";
  version = "1.0";
  directory_extrinsic_metadata = [];
  checksums = ("sha256", hex "sha256") ∷ [];
  manifest = none;
}

download_package-Fetched_example :
    Post
      (λ artifacts v.
        OneFetched sample_web "https://example.org/f.tgz" (("sha256", hex "sha256") ∷ []) artifacts)
      Any
      (download_package sample_web sample_package "/tmp" 0)
download_package-Fetched_example = download_package-Fetched sample_web sample_package "/tmp" 0

-- Longer texts are newer.
abbrev longer : String → String → Bool
longer a b = ltb (Prim.Native.String.count b) (Prim.Native.String.count a)

longer-asym : (a b : String) → longer a b ≡ true → longer b a ≡ false
longer-asym a b h = ground arith

longer_trans : (a b c : String) → longer a b ≡ false → longer b c ≡ false → longer a c ≡ false
longer_trans a b c h k = ground arith

get_default_version_newest_example :
    Post {S = ℕ}
      (λ v w'.
        (versions : List String) × (Returned {S = ℕ} (give ("1" ∷ "10" ∷ [])) versions
          × (Within v versions × All (λ y. longer y v ≡ false) versions)))
      Any
      (get_default_version longer (give ("1" ∷ "10" ∷ [])) 0)
get_default_version_newest_example =
    get_default_version_newest longer (give ("1" ∷ "10" ∷ [])) longer-asym longer_trans 0

abbrev sample_revision : Revision
sample_revision = record {
  message = some "Import";
  directory = "d";
  synthetic = true;
  author = none;
  date = none;
}

rev2rel-message_example :
    (t : String) × (((rev2rel sample_revision "1.0").message ≡ some t)
      × ((ends_with_newline t ≡ true) × (ends_with_newline "Import" ≡ true → t ≡ "Import")))
rev2rel-message_example = rev2rel-message sample_revision "1.0" "Import" refl refl

abbrev pub sample_project : Json
sample_project = dict (
    entry_and "info"
      (dict (entry_and "name" (str "f") (entry_and "version" (str "1.0") no_entries)))
      (entry_and "releases"
        (dict (
          entry_and "1.0"
            (list (
              item_and
                (dict (
                  entry_and "url" (str "https://example.org/f.tgz") (
                    entry_and "filename" (str "f.tgz") (
                      entry_and "packagetype" (str "sdist") (
                        entry_and "digests" (dict (entry_and "sha256" (str "sha256") no_entries))
                          (entry_and "upload_time" (str "2020") no_entries))))))
                no_items))
            no_entries))
        no_entries))

abbrev pub sample_host : Host ℕ
sample_host = record {
  get_url_body = λ u. give "{}";
  loads = λ s. give sample_project;
  dumps = λ j. "{}";
  text = λ j. "";
  lower = λ s. s;
  urlparse = λ u. record { scheme = "https"; netloc = "example.org"; path = "/project/f/" };
  join = λ a b. b;
  exists = λ p. give true;
  listdir = λ p. give ("f" ∷ []);
  from_iso8601 = λ d. give 7;
  from_fullname = λ n. record { fullname = n; name = none; email = none };
  hash_to_bytes = λ h. give h;
}

-- A cache that forgets.
abbrev pub no_cache : Cache ℕ String Json
no_cache = record { look = λ k w. none; keep = λ k v w. w }
