-- ===== src/Storage.antt =====
-- The storage behind the loaders (`self.storage`, an object of swh.storage) as an interface, and
-- the calls that a loader makes, in their order.
pub mod Machine
use swh_loader_core.Prelude.{ℕ, String, Option, List, ◌∷◌, Bool}
use swh_loader_core.Effects.{Result, Exec}
use swh_loader_core.Model.{
  Sha1Git, ExtId, OriginVisit, OriginVisitStatus, Snapshot, Revision, Release, MetadataAuthority,
  MetadataFetcher, RawExtrinsicMetadata,
}

-- Each operation may change the world outside the loader, and may raise.
pub record Storage (W : Type 0) : Type 0 where
  pub origin_add : List String → Exec W (Unit {0})
  pub origin_visit_add : OriginVisit → Exec W OriginVisit
  pub origin_visit_status_add : OriginVisitStatus → Exec W (Unit {0})
  pub snapshot_add : Snapshot → Exec W (Unit {0})
  pub release_add : Release → Exec W (Unit {0})
  pub skipped_content_add : List Sha1Git → Exec W (Unit {0})
  pub content_add : List Sha1Git → Exec W (Unit {0})
  pub directory_add : List Sha1Git → Exec W (Unit {0})
  pub extid_add : List ExtId → Exec W (Unit {0})
  pub metadata_authority_add : List MetadataAuthority → Exec W (Unit {0})
  pub metadata_fetcher_add : List MetadataFetcher → Exec W (Unit {0})
  pub raw_extrinsic_metadata_add : List RawExtrinsicMetadata → Exec W (Unit {0})
  pub flush : Exec W (Unit {0})
  pub clear_buffers : Exec W (Unit {0})
  pub extid_get_from_extid : String → List String → ℕ → Exec W (List (Option ExtId))
  pub release_missing : List Sha1Git → Exec W (List Sha1Git)
  pub revision_get : List Sha1Git → Exec W (List (Option Revision))
  -- snapshot_get_latest(storage, origin, visit_type)
  pub snapshot_get_latest : String → String → Exec W (Option Snapshot)
  -- the clock, which does not raise
  pub now : W → ℕ × W

-- The methods that a subclass of BaseLoader overrides.
pub data Method : Type 0 where
  pre_cleanup prepare fetch_data process_data store_data build_partial_snapshot : Method
  visit_status cleanup load_status : Method
  post_load : (success : Bool) → Method

-- What a loader does to the outside: a call of the storage that writes, or of a method.
pub data Call : Type 0 where
  method : Method → Call
  origin_add : List String → Call
  origin_visit_add : OriginVisit → Call
  origin_visit_status_add : OriginVisitStatus → Call
  snapshot_add : Snapshot → Call
  release_add : Release → Call
  skipped_content_add content_add directory_add : List Sha1Git → Call
  extid_add : List ExtId → Call
  metadata_authority_add : List MetadataAuthority → Call
  metadata_fetcher_add : List MetadataFetcher → Call
  raw_extrinsic_metadata_add : List RawExtrinsicMetadata → Call
  flush clear_buffers : Call

-- The world, and the calls made so far, the latest first.
pub record Logged (W : Type 0) : Type 0 where
  pub world : W
  pub calls : List Call

module _ {W A : Type 0} where
  abbrev pub rejoin : List Call → Result A × W → Result A × Logged W
  rejoin calls (r, w) = (r, record { world = w; calls = calls })

  -- A call that is made is in the log, whether it returns or raises.
  unfoldable pub call : Call → Exec W A → Exec (Logged W) A
  call c m s = rejoin (c ∷ s.calls) (m s.world)

  -- A call that only reads.
  unfoldable pub read : Exec W A → Exec (Logged W) A
  read m s = rejoin s.calls (m s.world)

unfoldable pub read_clock : {W : Type 0} → Storage W → Exec (Logged W) ℕ
read_clock storage s = let (t, w) = storage.now s.world in (Result.ok t, record s { world = w })
