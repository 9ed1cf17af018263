-- ===== src/Core/Node/Store.antt =====
-- core/loader.py: what NodeLoader and its subclasses keep, and the methods that BaseLoader.load calls.
pub mod Order
use Prim.Native.String
use swh_loader_core.Prelude.{
  ℕ, String, Bool, true, false, ◌&&◌, Option, none, some, List, [], ◌∷◌, map, is_some, string_eq,
  ◌==◌, Dict, nat_beq,
}
use swh_loader_core.Effects.{
  Exception, Result, ok, raise, no_fuel, Exec, pure, gets, modify, try_except, expect, ◌>>=◌, ◌>>◌,
}
use swh_loader_core.Model.{
  Sha1Git, ObjectType, Swhid, ExtId, Snapshot, SnapshotBranch, target_of, Branches, TaskResult,
}
use swh_loader_core.Storage.{
  Storage, Logged, call, read, content_add, skipped_content_add, directory_add, extid_add,
  snapshot_add,
}
use swh_loader_core.Core.Utils.Download.{Digest}
use swh_loader_core.Core.Node.Init.{NodeConfig}

-- What from_disk.iter_directory gives for the artifact.
pub record FoundDirectory : Type 0 where
  pub hash : Sha1Git
  pub cnts : List Sha1Git
  pub skipped_cnts : List Sha1Git
  pub dirs : List Sha1Git

-- The attributes, beside the storage's calls.
pub record Node (W : Type 0) : Type 0 where
  pub log : Logged W
  pub last_snapshot : Option Snapshot
  pub snapshot : Option Snapshot
  pub loaded_snapshot_id : Option Sha1Git
  pub content : Option Sha1Git
  pub directory : Option FoundDirectory

-- An action of the storage on the loader's state.
abbrev pub lift_result : {W A : Type 0} → Node W → Result A × Logged W → Result A × Node W
lift_result s (r, log) = (r, record s { log = log })

unfoldable pub on_log : {W A : Type 0} → Exec (Logged W) A → Exec (Node W) A
on_log m s = lift_result s (m s.log)

-- extid_type: "nar-%s" or "checksum-%s"
abbrev pub extid_type : (layout algo : String) → String
extid_type layout algo = elim (layout == "nar") [
  | true ↦ String.◌++◌ "nar-" algo
  | false ↦ String.◌++◌ "checksum-" algo
]

module _ {W : Type 0} (storage : Storage W) (config : NodeConfig) (origin_url visit_type : String)
    (hash_to_bytes : Digest → String) (snapshot_id : Branches → Sha1Git) where
  -- NodeLoader.prepare
  unfoldable pub prepare : Exec (Node W) (Unit {0})
  prepare = do
    last ← on_log (read (storage.snapshot_get_latest origin_url visit_type))
    modify (λ s. record s { last_snapshot = last })

  -- `self.last_snapshot == self.snapshot`; equal snapshots have the same identifier
  abbrev pub same_snapshot : Option Snapshot → Option Snapshot → Bool
  same_snapshot none none = true
  same_snapshot (some a) (some b) = a.id == b.id
  same_snapshot _ _ = false

  -- NodeLoader.load_status
  unfoldable pub load_status : Exec (Node W) TaskResult
  load_status = gets λ s. record {
    status = elim (same_snapshot s.last_snapshot s.snapshot) [
      | true ↦ "uneventful"
      | false ↦ "eventful"
    ];
    error = none;
    snapshot_id = none;
  }

  abbrev extid_of : Swhid → String × Digest → ExtId
  extid_of swhid (hash_algo, extid) = record {
    key = record {
      extid_type = extid_type config.checksum_layout hash_algo;
      extid_version = 1;
      extid = hash_to_bytes extid;
    };
    target = swhid;
  }

  -- _extids, in the order of the checksums
  abbrev pub extids : Swhid → List ExtId
  extids swhid = map (extid_of swhid) config.checksums

  -- _load_extids
  unfoldable pub load_extids : List ExtId → Exec (Node W) (Unit {0})
  load_extids [] = pure tt
  load_extids (e ∷ extids) =
      try_except (on_log (call (extid_add (e ∷ extids)) (storage.extid_add (e ∷ extids))))
        (λ x. pure tt)

  -- store_extids
  abbrev pub store_extids : Swhid → Exec (Node W) (Unit {0})
  store_extids swhid = load_extids (extids swhid)

  abbrev pub head_snapshot : ObjectType → Sha1Git → Snapshot
  head_snapshot type target =
      let branches : Branches = ("HEAD", some (target_of type target)) ∷ [] in
      record { id = snapshot_id branches; branches = branches }

  abbrev pub send_snapshot : Snapshot → Exec (Node W) (Unit {0})
  send_snapshot snapshot = do
    on_log (call (snapshot_add snapshot) (storage.snapshot_add snapshot))
    modify (λ s. record s { loaded_snapshot_id = some snapshot.id })

  -- ContentLoader.process_artifact; Content.from_data gives the identifier
  unfoldable pub process_file :
      (from_data : String → Exec (Node W) Sha1Git) → String → Exec (Node W) (Unit {0})
  process_file from_data artifact_path = do
    content ← from_data artifact_path
    modify (λ s. record s { content = some content })

  -- ContentLoader.process_data
  unfoldable pub process_data : Exec (Node W) Bool
  process_data = do
    found ← gets (λ s. s.content)
    content ← expect found
    modify (λ s. record s { snapshot = some (head_snapshot ObjectType.content content) })
    pure false

  -- ContentLoader.store_data
  unfoldable pub store_content : Exec (Node W) (Unit {0})
  store_content = do
    found ← gets (λ s. s.content)
    content ← expect found
    on_log (call (content_add (content ∷ [])) (storage.content_add (content ∷ [])))
    store_extids (record { object_type = ObjectType.content; object_id = content })
    built ← gets (λ s. s.snapshot)
    snapshot ← expect built
    send_snapshot snapshot

  -- ContentLoader.visit_status
  unfoldable pub content_visit_status : Exec (Node W) String
  content_visit_status =
      gets λ s. elim (is_some s.content && is_some s.snapshot) [ true ↦ "full" | false ↦ "partial" ]

  -- BaseDirectoryLoader.process_artifact; from_disk gives the directory
  unfoldable pub process_directory :
      (from_disk : String → Exec (Node W) FoundDirectory) → String → Exec (Node W) (Unit {0})
  process_directory from_disk artifact_path = do
    directory ← from_disk artifact_path
    modify (λ s. record s { directory = some directory })

  -- BaseDirectoryLoader.build_snapshot
  unfoldable pub build_snapshot : Exec (Node W) Snapshot
  build_snapshot = do
    found ← gets (λ s. s.directory)
    directory ← expect found
    pure (head_snapshot ObjectType.directory directory.hash)

  -- BaseDirectoryLoader.store_data
  unfoldable pub store_directory : Exec (Node W) (Unit {0})
  store_directory = do
    found ← gets (λ s. s.directory)
    directory ← expect found
    on_log (
        call (skipped_content_add directory.skipped_cnts)
          (storage.skipped_content_add directory.skipped_cnts))
    on_log (call (content_add directory.cnts) (storage.content_add directory.cnts))
    on_log (call (directory_add directory.dirs) (storage.directory_add directory.dirs))
    store_extids (record { object_type = ObjectType.directory; object_id = directory.hash })
    snapshot ← build_snapshot
    modify (λ s. record s { snapshot = some snapshot })
    send_snapshot snapshot

  -- BaseDirectoryLoader.visit_status
  unfoldable pub directory_visit_status : Exec (Node W) String
  directory_visit_status =
      gets
        λ s. elim (is_some s.directory && is_some s.snapshot) [ true ↦ "full" | false ↦ "partial" ]
