-- ===== src/Core/Node/Load/Samples.antt =====
-- core/loader.py: a content and a tarball, loaded with a storage that accepts everything.
use swh_loader_core.Prelude.{ℕ, none, []}
use swh_loader_core.Core.Base.Load.Samples.{done_halts, give_halts, storage_halts, no_parents}
use swh_loader_core.Core.Node.Store.{Node}
use swh_loader_core.Core.Node.Load.{content_methods, tarball_methods}
use swh_loader_core.Core.Node.Load.Halting.{WorkspaceHalts, WebHalts, NodeStorageHalts}
use swh_loader_core.Core.Node.Load.Termination.{EndsInOneRound, node_load_terminates}
use swh_loader_core.Core.Node.Samples.{
  sample_node, sample_workspace, sample_web, to_bytes, snapshot_id, sample_directory,
}
use swh_loader_core.Samples.{give, quiet_storage, sample_config}

quiet_halts : NodeStorageHalts (quiet_storage {W = ℕ})
quiet_halts = record {
  base = storage_halts;
  snapshot_get_latest = λ o t. give_halts _;
  content_add = λ c. done_halts;
  skipped_content_add = λ c. done_halts;
  directory_add = λ d. done_halts;
  extid_add = λ e. done_halts;
}

disk_halts : WorkspaceHalts (sample_workspace {S = Node ℕ})
disk_halts = record {
  make_tmpdir = give_halts _;
  remove_tmpdir = λ d. done_halts;
  uncompress = λ t d. done_halts;
  mkdir = λ d. done_halts;
  iterdir = λ d. give_halts _;
  tree = λ p. give_halts _;
}

web_halts : WebHalts (sample_web {S = Node ℕ})
web_halts = record { get = λ u h. give_halts _; write = λ p b. done_halts }

abbrev fresh : Node ℕ
fresh = record {
  log = record { world = 0; calls = [] };
  last_snapshot = none;
  snapshot = none;
  loaded_snapshot_id = none;
  content = none;
  directory = none;
}

node_load_terminates_example :
    EndsInOneRound sample_config
      (content_methods quiet_storage sample_config sample_node sample_workspace sample_web to_bytes
        snapshot_id
        (λ p. give "cafe"))
      quiet_storage
      no_parents
      []
      fresh
    × EndsInOneRound sample_config
        (tarball_methods quiet_storage sample_config sample_node sample_workspace sample_web
          to_bytes snapshot_id
          (λ p. give sample_directory))
        quiet_storage
        no_parents
        []
        fresh
node_load_terminates_example =
    node_load_terminates quiet_storage sample_config sample_node sample_workspace sample_web
      to_bytes snapshot_id (λ p. give "cafe") (λ p. give sample_directory) no_parents [] quiet_halts
      disk_halts web_halts (λ p. give_halts _) (λ p. give_halts _) tt fresh
