-- ===== src/Core/Node/Load.antt =====
-- core/loader.py: ContentLoader and TarballDirectoryLoader as BaseLoader.load runs them, with the methods
-- that they have from NodeLoader and BaseLoader.
pub mod Halting
pub mod Ending
pub mod Termination
pub mod Samples
use swh_loader_core.Prelude.{String, Bool, true, Option, none, [], ◌∷◌}
use swh_loader_core.Effects.{Exec, pure}
use swh_loader_core.Model.{Sha1Git, Branches}
use swh_loader_core.Storage.{Storage, read}
use swh_loader_core.Core.Utils.Download.{Digest, Web}
use swh_loader_core.Core.Base.Init.{Config}
use swh_loader_core.Core.Base.Load.{Methods}
use swh_loader_core.Core.Node.Init.{NodeConfig}
use swh_loader_core.Core.Node.Fetch.{Workspace, fetch_data, offer_file, offer_directory}
use swh_loader_core.Core.Node.Store.{
  Node, FoundDirectory, on_log, prepare, load_status, process_file, process_data, store_content,
  content_visit_status, process_directory, store_directory, directory_visit_status,
}

module _ {W : Type 0} (storage : Storage W) where
  -- An operation of the storage, on the state of the loader.
  abbrev pub on_world : {A : Type 0} → Exec W A → Exec (Node W) A
  on_world m = on_log (read m)

  -- `self.storage`, as load uses it.
  unfoldable pub node_storage : Storage (Node W)
  node_storage = record {
    origin_add = λ o. on_world (storage.origin_add o);
    origin_visit_add = λ v. on_world (storage.origin_visit_add v);
    origin_visit_status_add = λ s. on_world (storage.origin_visit_status_add s);
    snapshot_add = λ s. on_world (storage.snapshot_add s);
    release_add = λ r. on_world (storage.release_add r);
    skipped_content_add = λ c. on_world (storage.skipped_content_add c);
    content_add = λ c. on_world (storage.content_add c);
    directory_add = λ d. on_world (storage.directory_add d);
    extid_add = λ e. on_world (storage.extid_add e);
    metadata_authority_add = λ a. on_world (storage.metadata_authority_add a);
    metadata_fetcher_add = λ f. on_world (storage.metadata_fetcher_add f);
    raw_extrinsic_metadata_add = λ m. on_world (storage.raw_extrinsic_metadata_add m);
    flush = on_world storage.flush;
    clear_buffers = on_world storage.clear_buffers;
    extid_get_from_extid = λ t e v. on_world (storage.extid_get_from_extid t e v);
    release_missing = λ r. on_world (storage.release_missing r);
    revision_get = λ r. on_world (storage.revision_get r);
    snapshot_get_latest = λ o t. on_world (storage.snapshot_get_latest o t);
    now = λ s.
        let (t, w) = storage.now s.log.world in (t, record s { log = record s.log { world = w } });
  }

module _ {W : Type 0} (storage : Storage W) (config : Config) (node : NodeConfig)
    (workspace : Workspace (Node W)) (web : Web (Node W)) (hash_to_bytes : Digest → String)
    (snapshot_id : Branches → Sha1Git) where
  -- ContentLoader
  unfoldable pub content_methods : (from_data : String → Exec (Node W) Sha1Git) → Methods (Node W)
  content_methods from_data = record {
    pre_cleanup = pure tt;
    prepare = prepare storage node config.origin_url config.visit_type hash_to_bytes snapshot_id;
    fetch_data =
        fetch_data workspace node config.visit_type
          (process_file storage node config.origin_url config.visit_type hash_to_bytes snapshot_id
            from_data)
          web [] offer_file config.origin_url;
    process_data =
        process_data storage node config.origin_url config.visit_type hash_to_bytes snapshot_id;
    store_data =
        store_content storage node config.origin_url config.visit_type hash_to_bytes snapshot_id;
    build_partial_snapshot = pure none;
    visit_status =
        content_visit_status storage node config.origin_url config.visit_type hash_to_bytes
          snapshot_id;
    post_load = λ success. pure tt;
    cleanup = pure tt;
    load_status =
        load_status storage node config.origin_url config.visit_type hash_to_bytes snapshot_id;
    loaded_snapshot_id = λ s. s.loaded_snapshot_id;
    exception_text = workspace.exception_text;
  }

  -- TarballDirectoryLoader
  unfoldable pub tarball_methods :
      (from_disk : String → Exec (Node W) FoundDirectory) → Methods (Node W)
  tarball_methods from_disk = record {
    pre_cleanup = pure tt;
    prepare = prepare storage node config.origin_url config.visit_type hash_to_bytes snapshot_id;
    fetch_data =
        fetch_data workspace node config.visit_type
          (process_directory storage node config.origin_url config.visit_type hash_to_bytes
            snapshot_id from_disk)
          web (("Accept-Encoding", "identity") ∷ []) (offer_directory workspace) config.origin_url;
    process_data = pure true;
    store_data =
        store_directory storage node config.origin_url config.visit_type hash_to_bytes snapshot_id;
    build_partial_snapshot = pure none;
    visit_status =
        directory_visit_status storage node config.origin_url config.visit_type hash_to_bytes
          snapshot_id;
    post_load = λ success. pure tt;
    cleanup = pure tt;
    load_status =
        load_status storage node config.origin_url config.visit_type hash_to_bytes snapshot_id;
    loaded_snapshot_id = λ s. s.loaded_snapshot_id;
    exception_text = workspace.exception_text;
  }
