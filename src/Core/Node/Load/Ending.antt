-- ===== src/Core/Node/Load/Ending.antt =====
-- core/loader.py: the methods that the node loaders hand to load end.
use swh_loader_core.Prelude.{String, true, false, none, List, [], ◌∷◌, string_eq}
use swh_loader_core.Effects.{Exec}
use swh_loader_core.Effects.Fuel.{
  Halts, Halts-pure, Halts-gets, Halts-modify, Halts-bind, Halts-try_except,
}
use swh_loader_core.Model.{Sha1Git, ExtId, Branches, Snapshot}
use swh_loader_core.Storage.{Storage, Call, call}
use swh_loader_core.Core.Utils.Download.{Digest, Web}
use swh_loader_core.Core.Base.Load.Termination.{MethodsHalt, Halts-call, Halts-read}
use swh_loader_core.Core.Base.Init.{Config}
use swh_loader_core.Core.Node.Init.{NodeConfig}
use swh_loader_core.Core.Node.Fetch.{Workspace, offer_file, offer_directory}
use swh_loader_core.Core.Node.Store.{
  Node, FoundDirectory, on_log, prepare, load_status, process_file, process_data, load_extids,
  send_snapshot, build_snapshot, store_content, content_visit_status, process_directory,
  store_directory, directory_visit_status,
}
use swh_loader_core.Core.Node.Load.{content_methods, tarball_methods}
use swh_loader_core.Core.Node.Load.Halting.{
  WorkspaceHalts, WebHalts, NodeStorageHalts, Halts-on_log, Halts-expect, Halts-offer_directory,
  Halts-fetch_data,
}

module _ {W : Type 0} (storage : Storage W) (sh : NodeStorageHalts storage) (node : NodeConfig)
    (origin_url visit_type : String) (hash_to_bytes : Digest → String)
    (snapshot_id : Branches → Sha1Git) where
  Halts-stored : (c : Call) {m : Exec W (Unit {0})} → Halts m → Halts (on_log (call c m))
  Halts-stored c h = Halts-on_log (Halts-call c h)

  Halts-prepare : Halts (prepare storage node origin_url visit_type hash_to_bytes snapshot_id)
  unfolding prepare
  Halts-prepare =
      Halts-bind (Halts-on_log (Halts-read (sh.snapshot_get_latest _ _))) λ last. Halts-modify _

  Halts-load_extids :
      (es : List ExtId)
      → Halts (load_extids storage node origin_url visit_type hash_to_bytes snapshot_id es)
  unfolding load_extids
  Halts-load_extids [] = Halts-pure tt
  Halts-load_extids (e ∷ es) = Halts-try_except (Halts-stored _ (sh.extid_add _)) λ x. Halts-pure tt

  Halts-send_snapshot :
      (s : Snapshot)
      → Halts (send_snapshot storage node origin_url visit_type hash_to_bytes snapshot_id s)
  Halts-send_snapshot s = Halts-bind (Halts-stored _ (sh.base.snapshot_add s)) λ _. Halts-modify _

  Halts-store_content :
      Halts (store_content storage node origin_url visit_type hash_to_bytes snapshot_id)
  unfolding store_content
  Halts-store_content = Halts-bind (Halts-gets _) λ found.
      Halts-bind (Halts-expect found) λ content. Halts-bind (Halts-stored _ (sh.content_add _)) λ _.
        Halts-bind (Halts-load_extids _) λ _.
          Halts-bind (Halts-gets _) λ built. Halts-bind (Halts-expect built) Halts-send_snapshot

  Halts-build_snapshot :
      Halts (build_snapshot storage node origin_url visit_type hash_to_bytes snapshot_id)
  unfolding build_snapshot
  Halts-build_snapshot =
      Halts-bind (Halts-gets _) λ found. Halts-bind (Halts-expect found) λ d. Halts-pure _

  Halts-store_directory :
      Halts (store_directory storage node origin_url visit_type hash_to_bytes snapshot_id)
  unfolding store_directory
  Halts-store_directory = Halts-bind (Halts-gets _) λ found. Halts-bind (Halts-expect found) λ d.
      Halts-bind (Halts-stored _ (sh.skipped_content_add _)) λ _.
        Halts-bind (Halts-stored _ (sh.content_add _)) λ _.
          Halts-bind (Halts-stored _ (sh.directory_add _)) λ _.
            Halts-bind (Halts-load_extids _) λ _.
              Halts-bind Halts-build_snapshot
                λ s. Halts-bind (Halts-modify _) λ _. Halts-send_snapshot s

module _ {W : Type 0} (storage : Storage W) (config : Config) (node : NodeConfig)
    (workspace : Workspace (Node W)) (web : Web (Node W)) (hash_to_bytes : Digest → String)
    (snapshot_id : Branches → Sha1Git) (sh : NodeStorageHalts storage)
    (wh : WorkspaceHalts workspace) (h : WebHalts web) where
  pub content_methods-MethodsHalt :
      (from_data : String → Exec (Node W) Sha1Git)
      → ((path : String) → Halts (from_data path))
      → MethodsHalt
          (content_methods storage config node workspace web hash_to_bytes snapshot_id from_data)
  unfolding content_methods process_file process_data content_visit_status load_status
  content_methods-MethodsHalt from_data fh = record {
    pre_cleanup = Halts-pure tt;
    prepare = Halts-prepare storage sh node _ _ hash_to_bytes snapshot_id;
    fetch_data =
        Halts-fetch_data workspace web wh h node _ config.visit_type _
          (λ path. Halts-bind (fh path) λ c. Halts-modify _) offer_file
          (λ tmpdir path body errors bh. bh path errors) _;
    process_data = Halts-bind (Halts-gets _) λ found.
        Halts-bind (Halts-expect found) λ c. Halts-bind (Halts-modify _) λ _. Halts-pure false;
    store_data = Halts-store_content storage sh node _ _ hash_to_bytes snapshot_id;
    build_partial_snapshot = Halts-pure none;
    visit_status = Halts-gets _;
    post_load = λ success. Halts-pure tt;
    cleanup = Halts-pure tt;
    load_status = Halts-gets _;
  }

  pub tarball_methods-MethodsHalt :
      (from_disk : String → Exec (Node W) FoundDirectory)
      → ((path : String) → Halts (from_disk path))
      → MethodsHalt
          (tarball_methods storage config node workspace web hash_to_bytes snapshot_id from_disk)
  unfolding tarball_methods process_directory directory_visit_status load_status
  tarball_methods-MethodsHalt from_disk fh = record {
    pre_cleanup = Halts-pure tt;
    prepare = Halts-prepare storage sh node _ _ hash_to_bytes snapshot_id;
    fetch_data =
        Halts-fetch_data workspace web wh h node _ config.visit_type _
          (λ path. Halts-bind (fh path) λ d. Halts-modify _) (offer_directory workspace)
          (Halts-offer_directory workspace web wh h node []) _;
    process_data = Halts-pure true;
    store_data = Halts-store_directory storage sh node _ _ hash_to_bytes snapshot_id;
    build_partial_snapshot = Halts-pure none;
    visit_status = Halts-gets _;
    post_load = λ success. Halts-pure tt;
    cleanup = Halts-pure tt;
    load_status = Halts-gets _;
  }
