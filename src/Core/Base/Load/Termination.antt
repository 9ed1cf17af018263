-- ===== src/Core/Base/Load/Termination.antt =====
-- core/loader.py: `while True` of BaseLoader.load ends if the rounds that ask for more make
-- progress.
use swh_loader_core.Prelude.{
  ℕ, zero, suc, ◌≤◌, ◌<◌, String, ◌≡◌, refl, Bool, true, false, ◌&&◌, Option, none, some, List, [],
  ◌∷◌, ◌++◌, All, All-keep, arith,
}
use swh_loader_core.Effects.{
  Exception, Result, ok, raise, no_fuel, Exec, pure, continue, is_exception, ◌>>=◌,
}
use swh_loader_core.Effects.Fuel.{
  Ends, Halts, Converges, Halts-pure, Halts-throw, Halts-gets, Halts-modify, Halts-assert, Halts-if,
  Halts-bind, Halts-try_except, Converges-bind_halts, Converges-bind, Converges-try_base,
  Converges-try_finally,
}
use swh_loader_core.Model.{
  Sha1Git, OriginVisit, OriginVisitStatus, Snapshot, MetadataAuthority, MetadataFetcher,
  RawExtrinsicMetadata, TaskResult,
}
use swh_loader_core.Storage.{Storage, Logged, Call, call, read, read_clock, rejoin}
use swh_loader_core.Core.Base.Init.{Config}
use swh_loader_core.Core.Base.Metadata.{
  ParentOrigins, Fetcher, load_metadata_objects, ask_parents, fetch_all, build_for,
  build_extrinsic_origin_metadata, get_fetchers_for_lister,
}
use swh_loader_core.Core.Base.Load.Order.{start}
use swh_loader_core.Core.Base.Load.{
  Methods, load, store_origin_visit, add_status, loaded_id, store_partial, round, ingest,
  ingest_visit, on_failure, wind_up, origin_metadata, attempt, or_load_status, visit_number,
}

-- What the loader calls comes to an end by itself.
pub record MethodsHalt {W : Type 0} (methods : Methods W) : Type 0 where
  pub pre_cleanup : Halts methods.pre_cleanup
  pub prepare : Halts methods.prepare
  pub fetch_data : Halts methods.fetch_data
  pub process_data : Halts methods.process_data
  pub store_data : Halts methods.store_data
  pub build_partial_snapshot : Halts methods.build_partial_snapshot
  pub visit_status : Halts methods.visit_status
  pub post_load : (success : Bool) → Halts (methods.post_load success)
  pub cleanup : Halts methods.cleanup
  pub load_status : Halts methods.load_status

pub record StorageHalts {W : Type 0} (storage : Storage W) : Type 0 where
  pub origin_add : (origins : List String) → Halts (storage.origin_add origins)
  pub origin_visit_add : (visit : OriginVisit) → Halts (storage.origin_visit_add visit)
  pub origin_visit_status_add : (s : OriginVisitStatus) → Halts (storage.origin_visit_status_add s)
  pub snapshot_add : (s : Snapshot) → Halts (storage.snapshot_add s)
  pub metadata_authority_add :
      (l : List MetadataAuthority) → Halts (storage.metadata_authority_add l)
  pub metadata_fetcher_add : (l : List MetadataFetcher) → Halts (storage.metadata_fetcher_add l)
  pub raw_extrinsic_metadata_add :
      (l : List RawExtrinsicMetadata) → Halts (storage.raw_extrinsic_metadata_add l)
  pub flush : Halts storage.flush

pub record FetcherHalts {W : Type 0} (cls : Fetcher W) : Type 0 where
  pub construct : Halts cls.construct
  pub get_origin_metadata : Halts cls.get_origin_metadata
  pub get_parent_origins : Halts cls.get_parent_origins

module _ {W A : Type 0} where
  rejoin-Ends : (calls : List Call) (r : Result A × W) → Ends r → Ends (rejoin calls r)
  rejoin-Ends calls (ok a, w) e = tt
  rejoin-Ends calls (raise x, w) e = tt
  rejoin-Ends calls (no_fuel, w) e = e

  pub Halts-call : (c : Call) {m : Exec W A} → Halts m → Halts (call c m)
  unfolding call
  Halts-call c {m} h = record { ends = λ s. rejoin-Ends _ (m s.world) (h.ends s.world) }

  pub Halts-read : {m : Exec W A} → Halts m → Halts (read m)
  unfolding read
  Halts-read {m} h = record { ends = λ s. rejoin-Ends _ (m s.world) (h.ends s.world) }

Halts-clock : {W : Type 0} (storage : Storage W) → Halts (read_clock storage)
unfolding read_clock
Halts-clock storage = record { ends = λ s. tt }

ruleset halting = (
  Halts-pure, Halts-throw, Halts-gets, Halts-if, Halts-bind, Halts-try_except, Halts-call,
  Halts-read, Halts-clock,
)

module _ {W : Type 0} (storage : Storage W) (sh : StorageHalts storage) where
  load_metadata_objects_halts :
      (objects : List RawExtrinsicMetadata) → Halts (load_metadata_objects storage objects)
  unfolding load_metadata_objects
  load_metadata_objects_halts [] = Halts-pure tt
  load_metadata_objects_halts (o ∷ objects) =
      Halts-bind (Halts-call _ (sh.metadata_authority_add _)) λ _.
        Halts-bind (Halts-call _ (sh.metadata_fetcher_add _))
          λ _. Halts-call _ (sh.raw_extrinsic_metadata_add _)

module _ {W : Type 0} (parent_origins : ParentOrigins W) where
  ask_parents_halts :
      (cls : Fetcher W)
      → FetcherHalts cls
      → (p : Option (List String)) → Halts (ask_parents parent_origins cls p)
  ask_parents_halts cls h none = Halts-bind h.get_parent_origins (λ parents. Halts-modify _)
  ask_parents_halts cls h (some p) = Halts-pure tt

  fetch_all_halts :
      (classes : List (Fetcher W)) (metadata : List RawExtrinsicMetadata)
      → All FetcherHalts classes
      → Halts (fetch_all parent_origins classes metadata)
  unfolding fetch_all
  fetch_all_halts [] metadata h = Halts-pure metadata
  fetch_all_halts (cls ∷ classes) metadata h = Halts-bind h.0.construct λ _.
      Halts-bind h.0.get_origin_metadata λ more. Halts-bind (Halts-gets _) λ p.
        Halts-bind (ask_parents_halts cls h.0 p) λ _. fetch_all_halts classes (metadata ++ more) h.1

  build_for_halts :
      (config : Config) (classes : List (Fetcher W)) (name : Option String)
      → All FetcherHalts classes
      → Halts (build_for parent_origins config classes name)
  build_for_halts config classes none h = Halts-pure []
  build_for_halts config classes (some name) h = Halts-bind (Halts-assert _) λ _.
      fetch_all_halts (get_fetchers_for_lister classes name) [] (All-keep FetcherHalts _ classes h)

  build_halts :
      (config : Config) (classes : List (Fetcher W))
      → All FetcherHalts classes
      → Halts (build_extrinsic_origin_metadata parent_origins config classes)
  unfolding build_extrinsic_origin_metadata
  build_halts config classes h = build_for_halts config classes config.lister_name h

visit_number_halts : {S : Type 0} (n : Option ℕ) → Halts {S = S} (visit_number n)
visit_number_halts none = Halts-throw _
visit_number_halts (some zero) = Halts-throw _
visit_number_halts (some (suc n)) = Halts-pure _

module _ {W : Type 0} (config : Config) (methods : Methods W) (storage : Storage W)
    (parent_origins : ParentOrigins W) (fetchers : List (Fetcher W)) (mh : MethodsHalt methods)
    (sh : StorageHalts storage) where
  add_status_halts :
      (visit : ℕ) (status : String) (id : Option Sha1Git)
      → Halts (add_status config methods storage parent_origins fetchers visit status id)
  unfolding add_status
  add_status_halts visit status id =
      Halts-bind (Halts-clock storage) λ date. Halts-call _ (sh.origin_visit_status_add _)

  store_partial_halts :
      (visit : ℕ) (s : Option Snapshot)
      → Halts (store_partial config methods storage parent_origins fetchers visit s)
  unfolding store_partial
  store_partial_halts visit none = Halts-pure tt
  store_partial_halts visit (some s) =
      Halts-bind (Halts-call _ (sh.snapshot_add s)) λ _. add_status_halts visit _ _

  round_halts : (visit : ℕ) → Halts (round config methods storage parent_origins fetchers visit)
  unfolding round
  round_halts visit = Halts-bind (Halts-call _ mh.fetch_data) λ fetch_more.
      Halts-bind (Halts-call _ mh.process_data) λ process_more.
        Halts-bind (Halts-call _ mh.store_data) λ _.
          Halts-if ((process_more && fetch_more) && config.create_partial_snapshot)
            (Halts-bind (Halts-call _ mh.build_partial_snapshot)
              λ s. Halts-bind (store_partial_halts visit s) λ _. Halts-pure _)
            (Halts-pure _)

  on_failure_halts :
      (visit : ℕ) (e : Exception)
      → Halts (on_failure config methods storage parent_origins fetchers visit e)
  unfolding on_failure loaded_id
  on_failure_halts visit e = Halts-bind (Halts-gets _) λ id.
      Halts-bind (add_status_halts visit _ id) λ _.
        Halts-bind (Halts-call _ (mh.post_load false))
          λ _. Halts-if (is_exception e) (Halts-pure _) (Halts-throw e)

  wind_up_halts : Halts (wind_up config methods storage parent_origins fetchers)
  unfolding wind_up
  wind_up_halts = Halts-bind (Halts-call _ sh.flush) λ _. Halts-call _ mh.cleanup

  or_load_status_halts :
      (r : Option TaskResult)
      → Halts (or_load_status config methods storage parent_origins fetchers r)
  unfolding or_load_status
  or_load_status_halts none = Halts-call _ mh.load_status
  or_load_status_halts (some r) = Halts-pure r

  -- A round that asks for another one brings the measure down.
  module _ (measure : W → ℕ)
      (progress : (visit : ℕ) (s s' : Logged W)
        → round config methods storage parent_origins fetchers visit s ≡ (ok true, s')
        → measure s'.world < measure s.world) where
    next_round : (visit n : ℕ) (more : Bool) → Exec (Logged W) (Unit {0})
    next_round visit n more = elim more [
      | true ↦ ingest config methods storage parent_origins fetchers n visit
      | false ↦ pure tt
    ]

    -- What follows a round converges if a further round does.
    next_round-Converges :
        (visit : ℕ) (r : Result Bool × Logged W)
        → Ends r
        → ((s : Logged W)
            → r ≡ (ok true, s)
            → Converges (λ n. ingest config methods storage parent_origins fetchers n visit) s)
        → (n : ℕ) × Ends (continue (next_round visit n) r)
          × ((k : ℕ) → n ≤ k → continue (next_round visit k) r ≡ continue (next_round visit n) r)
    unfolding next_round pure
    next_round-Converges visit (ok true, s) e h = let c = h s refl in (c.enough, c.ends, c.stable)
    next_round-Converges visit (ok false, s) e h = (0, tt, λ k _. refl)
    next_round-Converges visit (raise x, s) e h = (0, tt, λ k _. refl)
    next_round-Converges visit (no_fuel, s) e h = absurd e

    ingest-Converges :
        (bound visit : ℕ) (s : Logged W)
        → measure s.world < bound
        → Converges (λ n. ingest config methods storage parent_origins fetchers n visit) s
    unfolding ingest ◌>>=◌ next_round
    ingest-Converges zero visit s h = elim h [ ]
    ingest-Converges (suc bound) visit s h =
        let (n, ends, stable) =
          next_round-Converges visit (round config methods storage parent_origins fetchers visit s)
            ((round_halts visit).ends s)
            (λ s' e. ingest-Converges bound visit s' (omega (arith, progress visit s s' e))) in
        record { enough = suc n; ends = ends; stable = λ k le. one_more n stable k le }
      where
        one_more :
            (n : ℕ)
            → ((k : ℕ)
                → n ≤ k
                → continue
                    (next_round visit k)
                    (round config methods storage parent_origins fetchers visit s)
                  ≡ continue
                      (next_round visit n)
                      (round config methods storage parent_origins fetchers visit s))
            → (k : ℕ) → suc n ≤ k
            → ingest config methods storage parent_origins fetchers k visit s
              ≡ ingest config methods storage parent_origins fetchers (suc n) visit s
        one_more n stable zero le = elim le [ ]
        one_more n stable (suc k) le = stable k (omega arith)

    attempt-Converges :
        (visit : ℕ) (s : Logged W)
        → Converges (λ n. attempt config methods storage parent_origins fetchers n visit) s
    unfolding attempt ingest_visit loaded_id
    attempt-Converges visit s =
        Converges-try_base
          (Converges-bind_halts (Halts-call _ mh.prepare)
            (λ _ s1.
              Converges-bind (ingest-Converges (suc (measure s1.world)) visit s1 (omega arith)) λ _.
                Halts-bind (Halts-call _ mh.visit_status) λ status. Halts-bind (Halts-gets _) λ id.
                  Halts-bind (add_status_halts visit status id)
                    λ _. Halts-bind (Halts-call _ (mh.post_load true)) λ _. Halts-pure none)
            s)
          (on_failure_halts visit)

    load-Converges :
        All FetcherHalts fetchers
        → (s : Logged W) → Converges (load config methods storage parent_origins fetchers) s
    unfolding load store_origin_visit origin_metadata
    load-Converges fh =
        Converges-bind_halts (Halts-try_except (Halts-call _ mh.pre_cleanup) (λ e. Halts-pure tt))
          λ _.
            Converges-bind_halts
              (Halts-bind (Halts-call _ (sh.origin_add _))
                λ _. Halts-call _ (sh.origin_visit_add _))
              λ v. Converges-bind_halts (visit_number_halts v.visit) λ number.
                Converges-bind_halts
                  (Halts-try_except
                    (Halts-bind (Halts-read (build_halts parent_origins config fetchers fh))
                      (load_metadata_objects_halts storage sh))
                    (λ e. Halts-pure tt))
                  λ _ s.
                    Converges-bind
                      (Converges-try_finally (attempt-Converges number s) wind_up_halts)
                      or_load_status_halts

-- If the methods, the storage and the metadata fetchers halt, and a round of the loop that asks for
-- another one brings a measure of the world down, then `load` ends: there is an amount of fuel with
-- which it returns or raises, and more fuel gives the same result and the same calls.
pub load_terminates :
    {W : Type 0} (config : Config) (methods : Methods W) (storage : Storage W)
    (parent_origins : ParentOrigins W) (fetchers : List (Fetcher W))
    → MethodsHalt methods
    → StorageHalts storage
    → All FetcherHalts fetchers
    → (measure : W → ℕ)
    → ((visit : ℕ) (s s' : Logged W)
        → round config methods storage parent_origins fetchers visit s ≡ (ok true, s')
        → measure s'.world < measure s.world)
    → (w : W) → Converges (load config methods storage parent_origins fetchers) (start w)
load_terminates config methods storage parent_origins fetchers mh sh fh measure progress w =
    load-Converges config methods storage parent_origins fetchers mh sh measure progress fh
      (start w)
