-- ===== src/Core/Node/Samples.antt =====
-- core/loader.py: a node loader with one mirror. The state is what was processed, if anything was.
use swh_loader_core.Prelude.{
  ℕ, ◌≡◌, refl, true, false, ◌⊎◌, List, String, Option, none, some, [], ◌∷◌, ◌++◌,
}
use swh_loader_core.Effects.{Exec, ok, is_exception}
use swh_loader_core.Effects.Hoare.{Post, Any}
use swh_loader_core.Model.{Snapshot, Branches, target_of, ObjectType}
use swh_loader_core.Storage.{Call, snapshot_add, content_add, skipped_content_add, directory_add}
use swh_loader_core.Core.Nar.{regular}
use swh_loader_core.Core.Utils.Download.{Digest, hex, size, Web}
use swh_loader_core.Core.Node.Init.{
  NodeArgs, NodeConfig, Asks, InitPost, node_init, node_init-IsCoherent,
}
use swh_loader_core.Core.Node.Fetch.{Workspace, fetch_data, offer_file, offer_directory}
use swh_loader_core.Core.Node.Fetch.Once.{IsIngestion, Leaves, fetch_data_once}
use swh_loader_core.Core.Node.Store.{
  Node, FoundDirectory, extids, store_content, head_snapshot, store_directory,
}
use swh_loader_core.Core.Node.Store.Order.{
  IsStored, extid_calls, content_calls, store_content_order, store_directory_order,
}
use swh_loader_core.Samples.{done, give, quiet_storage}

abbrev sample_args : NodeArgs
sample_args = record {
  url = "https://example.org/f";
  checksums = ("sha256", hex "ab") ∷ [];
  checksums_computation = some "standard";
  checksum_layout = some "nar";
  fallback_urls = none;
}

node_init-IsCoherent_example :
    (layout : String) × (Asks sample_args layout
      × InitPost sample_args layout (node_init sample_args))
node_init-IsCoherent_example = node_init-IsCoherent sample_args

abbrev pub sample_node : NodeConfig
sample_node = record {
  checksums = ("sha256", hex "ab") ∷ [];
  checksum_layout = "nar";
  mirror_urls = "https://example.org/f" ∷ [];
  standard_hashes = [];
}

abbrev Processed : Type 0
Processed = Option String

abbrev pub sample_workspace : {S : Type 0} → Workspace S
sample_workspace = record {
  make_tmpdir = give "/tmp/x";
  remove_tmpdir = λ d. done;
  uncompress = λ t d. done;
  mkdir = λ d. done;
  iterdir = λ d. give ("top" ∷ []);
  tree = λ p. give (regular false (1 ∷ []));
  sha256 = λ fed. "ab";
  sha1 = λ fed. "cd";
  lower = λ s. s;
  exception_text = λ e. "error";
}

abbrev pub sample_web : {S : Type 0} → Web S
sample_web = record {
  get = λ u h. give (record { url = u; disposition = none; chunks = [] });
  write = λ p b. done;
  digest = λ algo b. size 0;
  url_basename = λ u. "f";
  join = λ a b. b;
}

abbrev process : String → Exec Processed (Unit {0})
process path s = (ok tt, some path)

Leaves-give : {P : Processed → Type 0} {A : Type 0} (a : A) → Leaves P (give a)
Leaves-give a = record { run = λ s p. p }

Leaves-done : {P : Processed → Type 0} → Leaves P (done {W = Processed})
Leaves-done = record { run = λ s p. p }

sample-IsIngestion :
    IsIngestion
      (λ s. s ≡ none)
      (λ s. (path : String) × (s ≡ some path))
      sample_workspace
      sample_web
      process
sample-IsIngestion = record {
  apart = record {
    make_tmpdir = Leaves-give _;
    remove_tmpdir = λ d. Leaves-done;
    uncompress = λ t d. Leaves-done;
    mkdir = λ d. Leaves-done;
    iterdir = λ d. Leaves-give _;
    tree = λ d. Leaves-give _;
    get = λ u h. Leaves-give _;
    write = λ p b. Leaves-done;
  };
  removal = λ d. Leaves-done;
  processes = λ path. record { run = λ s p. (path, refl) };
}

fetch_data_once_example :
    Post
      (λ more s'. (more ≡ false) × ((path : String) × (s' ≡ some path)))
      Any
      (fetch_data sample_workspace sample_node "content" process sample_web [] offer_file
        "https://example.org/f" none)
    × Post
        (λ more s'. (more ≡ false) × ((path : String) × (s' ≡ some path)))
        Any
        (fetch_data sample_workspace sample_node "content" process sample_web []
          (offer_directory sample_workspace)
          "https://example.org/f"
          none)
fetch_data_once_example =
    fetch_data_once (λ s. s ≡ none) (λ s. (path : String) × (s ≡ some path)) sample_workspace
      sample_web sample_node "content" process [] "https://example.org/f" none sample-IsIngestion
      refl

abbrev pub to_bytes : Digest → String
to_bytes (hex h) = h
to_bytes (size n) = ""

abbrev pub snapshot_id : Branches → String
snapshot_id branches = "snapshot"

abbrev sample_snapshot : Snapshot
sample_snapshot = record {
  id = "snapshot";
  branches = ("HEAD", some (target_of ObjectType.content "cafe")) ∷ [];
}

abbrev pub sample_directory : FoundDirectory
sample_directory = record { hash = "d1"; cnts = "c1" ∷ []; skipped_cnts = []; dirs = "d1" ∷ [] }

abbrev ready : Node ℕ
ready = record {
  log = record { world = 0; calls = [] };
  last_snapshot = none;
  snapshot = some sample_snapshot;
  loaded_snapshot_id = none;
  content = some "cafe";
  directory = some sample_directory;
}

abbrev sent : List Call
sent =
    content_calls (quiet_storage {W = ℕ}) sample_node "https://example.org/f" "content" to_bytes
      snapshot_id "cafe" []

store_content_order_example :
    Post
      (λ a. IsStored sample_snapshot sent)
      (λ e t.
        is_exception e ≡ true
        → (t.log.calls ≡ content_add ("cafe" ∷ []) ∷ [])
          ⊎ (t.log.calls ≡ snapshot_add sample_snapshot ∷ sent))
      (store_content quiet_storage sample_node "https://example.org/f" "content" to_bytes
        snapshot_id ready)
store_content_order_example =
    store_content_order quiet_storage sample_node "https://example.org/f" "content" to_bytes
      snapshot_id "cafe" sample_snapshot ready refl refl

store_directory_order_example :
    Post
      (λ a.
        IsStored
          (head_snapshot
            (quiet_storage {W = ℕ})
            sample_node
            "https://example.org/f"
            "directory"
            to_bytes
            snapshot_id
            ObjectType.directory
            "d1")
          (extid_calls (
              extids
                (quiet_storage {W = ℕ})
                sample_node
                "https://example.org/f"
                "directory"
                to_bytes
                snapshot_id
                (record { object_type = ObjectType.directory; object_id = "d1" }))
            ++ directory_add ("d1" ∷ []) ∷ content_add ("c1" ∷ []) ∷ skipped_content_add [] ∷ []))
      Any
      (store_directory quiet_storage sample_node "https://example.org/f" "directory" to_bytes
        snapshot_id ready)
store_directory_order_example =
    store_directory_order quiet_storage sample_node "https://example.org/f" "directory" to_bytes
      snapshot_id sample_directory ready refl
