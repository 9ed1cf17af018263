-- ===== src/Package/Visit/Samples.antt =====
-- package/loader.py: a package with one version.
use swh_loader_core.Prelude.{◌⊎◌, ℕ, ◌≡◌, true, false, String, none, some, [], ◌∷◌}
use swh_loader_core.Effects.Hoare.{Post}
use swh_loader_core.Model.{Release, directory}
use swh_loader_core.Core.Base.Load.Order.{start}
use swh_loader_core.Package.Info.{PackageInfo}
use swh_loader_core.Package.Methods.{Methods, Disk, Directory}
use swh_loader_core.Package.Visit.{load}
use swh_loader_core.Package.Visit.Protocol.{phase}
use swh_loader_core.Package.Visit.Refusal.{Refused}
use swh_loader_core.Package.Visit.Order.{is_closed, is_sound, package_load_order}
use swh_loader_core.Samples.{done, give, quiet_storage, sample_config, sample_identifiers}

abbrev sample_package : PackageInfo
sample_package = record {
  url = "https://example.org/p-1.0.tgz";
  filename = none;
  version = "1.0";
  directory_extrinsic_metadata = [];
  checksums = [];
  manifest = none;
}

abbrev a_release : String → Release
a_release hash = record {
  name = "1.0";
  message = some "first";
  target = some hash;
  target_type = directory;
  synthetic = true;
  author = none;
  date = none;
}

abbrev found : Directory
found = record { hash = "d1"; contents = "c1" ∷ []; skipped_contents = []; directories = "d1" ∷ [] }

abbrev sample_methods : Methods ℕ
sample_methods = record {
  get_sorted_versions = give ("1.0" ∷ []);
  get_default_version = give "1.0";
  get_package_info = λ v w. (((("releases/1.0", sample_package) ∷ []), none), w);
  extid = λ p. none;
  select_extid_target = λ p t. give none;
  download_package = λ p d. give (record { path = "/tmp/p"; metadata = "m" } ∷ []);
  uncompress = λ a d. give d;
  build_release = λ p d hash. give (some (a_release hash));
  extra_branches = give [];
  get_metadata_fetcher = give (record { name = "loader"; version = "1" });
  get_metadata_authority = give (record { type = "forge"; url = "https://example.org" });
  get_extrinsic_origin_metadata = give [];
  get_extrinsic_snapshot_metadata = give [];
  newer = λ v w. false;
}

abbrev sample_disk : Disk ℕ
sample_disk = record {
  make_directory = give "/tmp";
  remove_directory = λ d. done;
  from_disk = λ p limit. give found;
  filter_known_objects = λ d. give d;
  json_dumps = λ l. "[]";
}

package_load_order_example :
    Post
      (λ result s.
        (is_closed (phase s.calls) ≡ true)
        ⊎ ((result.status ≡ "failed") × Refused {W = ℕ} sample_config quiet_storage 0))
      (λ _ s. is_sound (phase s.calls) ≡ true)
      (load sample_config sample_identifiers sample_methods sample_disk quiet_storage (start 0))
package_load_order_example =
    package_load_order sample_config sample_identifiers sample_methods sample_disk quiet_storage 0
