-- ===== src/Package/Methods.antt =====
-- package/loader.py: the methods of PackageLoader that a subclass overrides, and what the loader
-- uses of the file system, of swh.core and of swh.model.
use swh_loader_core.Prelude.{ℕ, String, Bool, Option, List}
use swh_loader_core.Effects.{Exception, Exec}
use swh_loader_core.Model.{
  Sha1Git, Swhid, PartialExtId, Release, MetadataAuthority, MetadataFetcher,
  RawExtrinsicMetadataCore,
}
use swh_loader_core.Package.Info.{PackageInfo}
use swh_loader_core.Package.Snapshot.{BranchDict}

-- A downloaded file, and the mapping of its extrinsic metadata as JSON.
pub record Artifact : Type 0 where
  pub path : String
  pub metadata : String

-- from_disk.Directory with what iter_directory finds below it.
pub record Directory : Type 0 where
  pub hash : Sha1Git
  pub contents : List Sha1Git
  pub skipped_contents : List Sha1Git
  pub directories : List Sha1Git

pub record Methods (W : Type 0) : Type 0 where
  pub get_sorted_versions : Exec W (List String)
  pub get_default_version : Exec W String
  -- The pairs that the iterator yields, and the exception that ends it, if one does.
  pub get_package_info : String → W → (List (String × PackageInfo) × Option Exception) × W
  pub extid : PackageInfo → Option PartialExtId
  pub select_extid_target : PackageInfo → List Swhid → Exec W (Option Swhid)
  pub download_package : PackageInfo → (tmpdir : String) → Exec W (List Artifact)
  pub uncompress : List Artifact → (dest : String) → Exec W String
  pub build_release : PackageInfo → String → Sha1Git → Exec W (Option Release)
  pub extra_branches : Exec W BranchDict
  pub get_metadata_fetcher : Exec W MetadataFetcher
  pub get_metadata_authority : Exec W MetadataAuthority
  pub get_extrinsic_origin_metadata : Exec W (List RawExtrinsicMetadataCore)
  pub get_extrinsic_snapshot_metadata : Exec W (List RawExtrinsicMetadataCore)
  -- LooseVersion2(v) > LooseVersion2(w)
  pub newer : String → String → Bool

-- tempfile, swh.model.from_disk, discovery.filter_known_objects, and json.dumps of a list.
pub record Disk (W : Type 0) : Type 0 where
  pub make_directory : Exec W String
  pub remove_directory : String → Exec W (Unit {0})
  pub from_disk : String → (max_content_length : Option ℕ) → Exec W Directory
  pub filter_known_objects : Directory → Exec W Directory
  pub json_dumps : List String → String
