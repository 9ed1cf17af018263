-- ===== src/Core/Base/Load/Order.antt =====
-- core/loader.py: BaseLoader.load makes its calls in the order of Protocol.
use swh_loader_core.Prelude.{
  ℕ, zero, suc, String, ◌≡◌, refl, Bool, true, false, ◌&&◌, Option, none, some, List, [], ◌∷◌,
  arith,
}
use swh_loader_core.Effects.{Exception, Result, ok, raise, no_fuel, Exec, pure, is_exception}
use swh_loader_core.Effects.Hoare.{Post}
use swh_loader_core.Effects.Reaches.{
  Phases, Part, Reaches, Reaches-pure, Reaches-throw, Reaches-gets, Reaches-bind, Reaches-if,
  Reaches-try_base, Reaches-try_except, Reaches-try_finally, Reaches-weaken,
}
use swh_loader_core.Model.{Sha1Git, OriginVisitStatus, Snapshot, RawExtrinsicMetadata, TaskResult}
use swh_loader_core.Storage.Machine
use swh_loader_core.Storage.{Storage, Logged, Call, origin_visit_status_add, call, read}
use swh_loader_core.Core.Base.Init.{Config}
use swh_loader_core.Core.Base.Metadata.{ParentOrigins, Fetcher, load_metadata_objects}
use swh_loader_core.Core.Base.Load.{
  Methods, load, store_origin_visit, add_status, loaded_id, store_partial, round, ingest,
  ingest_visit, on_failure, wind_up, origin_metadata, attempt, or_load_status, visit_number,
}
use swh_loader_core.Core.Base.Load.Protocol.{
  Phase, fresh, pre_cleaned, origin_known, visited, authorities_known, fetchers_known, described,
  prepared, fetched, processed, stored, partial_built, partial_stored, concluded, recorded, posted,
  flushed, cleaned_up, reported, protocol, is_running, is_over, before_prepare, is_round_start,
  step, phase,
}

-- The phase that the log has come to.
abbrev progress : {W : Type 0} → Logged W → Phase
progress = Machine.progress protocol

module _ {W A : Type 0} {K K' R : Phases Phase} where
  Reaches-call :
      (c : Call) (m : Exec W A)
      → ((p : Phase) → K p ≡ true → (K' (step p c) ≡ true) × (R (step p c) ≡ true))
      → Reaches progress K (call c m) (λ _. K') R
  unfolding protocol
  Reaches-call c m h = Machine.Reaches-call protocol c m (λ _ p k. (h p k).0) (λ p k. (h p k).1)

  Reaches-read : (m : Exec W A) → Part K K' → Part K R → Reaches progress K (read m) (λ _. K') R
  Reaches-read m h r = Machine.Reaches-read protocol m (λ _. h) r

abbrev is_prepared : Phase → Bool
is_prepared prepared = true
is_prepared _ = false

abbrev is_fetched : Phase → Bool
is_fetched fetched = true
is_fetched _ = false

abbrev is_processed : Phase → Bool
is_processed processed = true
is_processed _ = false

abbrev is_stored : Phase → Bool
is_stored stored = true
is_stored _ = false

abbrev is_partial_built : Phase → Bool
is_partial_built partial_built = true
is_partial_built _ = false

abbrev is_partial_stored : Phase → Bool
is_partial_stored partial_stored = true
is_partial_stored _ = false

abbrev is_concluded : Phase → Bool
is_concluded concluded = true
is_concluded _ = false

abbrev is_recorded : Phase → Bool
is_recorded recorded = true
is_recorded _ = false

-- After a round: a new one may begin, or the loop may end.
abbrev is_round_end : Bool → Phase → Bool
is_round_end true = is_round_start
is_round_end false = is_stored

abbrev is_fresh : Phases Phase
is_fresh fresh = true
is_fresh _ = false

abbrev is_pre_cleaned : Phases Phase
is_pre_cleaned pre_cleaned = true
is_pre_cleaned _ = false

abbrev is_origin_known : Phases Phase
is_origin_known origin_known = true
is_origin_known _ = false

abbrev is_visited : Phases Phase
is_visited visited = true
is_visited _ = false

abbrev is_authorities_known : Phases Phase
is_authorities_known authorities_known = true
is_authorities_known _ = false

abbrev is_fetchers_known : Phases Phase
is_fetchers_known fetchers_known = true
is_fetchers_known _ = false

abbrev is_posted : Phases Phase
is_posted posted = true
is_posted _ = false

abbrev is_flushed : Phases Phase
is_flushed flushed = true
is_flushed _ = false

abbrev is_cleaned_up : Phases Phase
is_cleaned_up cleaned_up = true
is_cleaned_up _ = false

-- `load` has returned: `finally` is done, and `load_status` is asked unless the load failed.
abbrev pub is_finished : Phases Phase
is_finished cleaned_up = true
is_finished reported = true
is_finished _ = false

-- An exception has left `load`: before `prepare`, or from the `finally` block on.
abbrev pub is_settled : Phases Phase
is_settled pre_cleaned = true
is_settled origin_known = true
is_settled visited = true
is_settled authorities_known = true
is_settled fetchers_known = true
is_settled described = true
is_settled flushed = true
is_settled cleaned_up = true
is_settled reported = true
is_settled _ = false

number-Reaches :
    {W : Type 0} (number : Option ℕ)
    → Reaches (progress {W = W}) is_visited (visit_number number) (λ _. is_visited) is_settled
number-Reaches none = Reaches-throw _ (λ p k. ground arith)
number-Reaches (some zero) = Reaches-throw _ (λ p k. ground arith)
number-Reaches (some (suc n)) = Reaches-pure _ (λ p k. k)

-- `if not more_data_to_fetch: break`
Reaches-more :
    {W : Type 0} {R : Phases Phase} (more : Bool) {m : Exec (Logged W) (Unit {0})}
    → Reaches (progress {W = W}) is_round_start m (λ _. is_stored) R
    → Reaches
        (progress {W = W})
        (is_round_end more)
        (elim more [ true ↦ m | false ↦ pure tt ])
        (λ _. is_stored)
        R
Reaches-more true h = h
Reaches-more false h = Reaches-pure tt (λ p k. k)

module _ {W : Type 0} (config : Config) (methods : Methods W) (storage : Storage W)
    (parent_origins : ParentOrigins W) (fetchers : List (Fetcher W)) where
  -- A status of the visit leads from `K` to `K'`.
  add_status-Reaches :
      {K K' R : Phases Phase} (visit : ℕ) (status : String) (id : Option Sha1Git)
      → ((p : Phase) (s : OriginVisitStatus)
          → K p ≡ true
          → (K' (step p (origin_visit_status_add s)) ≡ true)
            × (R (step p (origin_visit_status_add s)) ≡ true))
      → Reaches progress K
          (add_status config methods storage parent_origins fetchers visit status id)
          (λ _. K')
          R
  unfolding add_status
  add_status-Reaches {K} visit status id h =
      Reaches-bind (λ _. K) (Machine.Reaches-clock protocol storage)
        (λ date. Reaches-call _ _ (λ p k. h p _ k))

  store_partial-Reaches :
      (visit : ℕ) (snapshot : Option Snapshot)
      → Reaches progress is_partial_built
          (store_partial config methods storage parent_origins fetchers visit snapshot)
          (λ _. is_round_start)
          is_running
  unfolding store_partial step
  store_partial-Reaches visit none = Reaches-pure tt (λ s k. ground arith)
  store_partial-Reaches visit (some snapshot) =
      Reaches-bind (λ _. is_partial_stored) (Reaches-call _ _ (λ p k. ground arith))
        (λ _. add_status-Reaches visit "partial" (some snapshot.id) (λ p s k. ground arith))

  round-Reaches :
      (visit : ℕ)
      → Reaches progress is_round_start
          (round config methods storage parent_origins fetchers visit)
          is_round_end
          is_running
  unfolding round step
  round-Reaches visit =
      Reaches-bind (λ _. is_fetched) (Reaches-call _ _ (λ p k. ground arith))
        λ fetch_more.
          Reaches-bind (λ _. is_processed) (Reaches-call _ _ (λ p k. ground arith))
            λ process_more.
              Reaches-bind (λ _. is_stored) (Reaches-call _ _ (λ p k. ground arith))
                λ _.
                  Reaches-if ((process_more && fetch_more) && config.create_partial_snapshot)
                    (λ b.
                      Reaches-bind (λ _. is_partial_built) (Reaches-call _ _ (λ p k. ground arith))
                        λ snapshot.
                          Reaches-bind (λ _. is_round_start) (store_partial-Reaches visit snapshot)
                            λ _. Reaches-pure _ (λ p k. ground arith))
                    (λ b. Reaches-pure _ (λ p k. ground arith))

  ingest-Reaches :
      (fuel visit : ℕ)
      → Reaches progress is_round_start
          (ingest config methods storage parent_origins fetchers fuel visit)
          (λ _. is_stored)
          is_running
  unfolding ingest
  ingest-Reaches zero visit = record { triple = record { run = λ s k. tt } }
  ingest-Reaches (suc fuel) visit =
      Reaches-bind is_round_end (round-Reaches visit)
        λ more. Reaches-more more (ingest-Reaches fuel visit)

  ingest_visit-Reaches :
      (fuel visit : ℕ)
      → Reaches progress before_prepare
          (ingest_visit config methods storage parent_origins fetchers fuel visit)
          (λ _. is_posted)
          is_running
  unfolding ingest_visit loaded_id step
  ingest_visit-Reaches fuel visit =
      Reaches-bind (λ _. is_prepared) (Reaches-call _ _ (λ p k. ground arith))
        λ _.
          Reaches-bind (λ _. is_stored)
            (Reaches-weaken is_round_start (λ p k. ground arith) (ingest-Reaches fuel visit))
            λ _.
              Reaches-bind (λ _. is_concluded) (Reaches-call _ _ (λ p k. ground arith))
                λ status.
                  Reaches-bind (λ _. is_concluded) (Reaches-gets _ (λ a p k. k))
                    λ id.
                      Reaches-bind (λ _. is_recorded)
                        (add_status-Reaches visit status id (λ p s k. ground arith))
                        λ _.
                          Reaches-bind (λ _. is_posted) (Reaches-call _ _ (λ p k. ground arith))
                            λ _. Reaches-pure none (λ p k. k)

  on_failure-Reaches :
      (visit : ℕ) (e : Exception)
      → Reaches progress is_running
          (on_failure config methods storage parent_origins fetchers visit e)
          (λ _. is_over)
          is_over
  unfolding on_failure loaded_id step
  on_failure-Reaches visit e =
      Reaches-bind (λ _. is_running) (Reaches-gets _ (λ a p k. k))
        λ id.
          Reaches-bind (λ _. is_over) (add_status-Reaches visit _ id (λ p s k. ground arith))
            λ _.
              Reaches-bind (λ _. is_over) (Reaches-call _ _ (λ p k. ground arith))
                λ _.
                  Reaches-if (is_exception e) (λ b. Reaches-pure _ (λ p k. k))
                    (λ b. Reaches-throw e (λ p k. k))

  wind_up-Reaches :
      {K' : Phases Phase}
      → Part is_cleaned_up K'
      → Reaches progress is_over
          (wind_up config methods storage parent_origins fetchers)
          (λ _. K')
          is_settled
  unfolding wind_up step
  wind_up-Reaches w =
      Reaches-bind (λ _. is_flushed) (Reaches-call _ _ (λ p k. ground arith))
        λ _. Reaches-call _ _ (λ p k. (w _ (ground arith), ground arith))

  attempt-Reaches :
      (fuel visit : ℕ)
      → Reaches progress before_prepare
          (attempt config methods storage parent_origins fetchers fuel visit)
          (λ _. is_over)
          is_over
  unfolding attempt
  attempt-Reaches fuel visit =
      Reaches-try_base is_running
        (record {
          triple = record {
            run = λ s k. posted_is_over _ ((ingest_visit-Reaches fuel visit).triple.run s k);
          };
        })
        (on_failure-Reaches visit)
    where
      posted_is_over :
          (r : Result (Option TaskResult) × Logged W)
          → Post (λ _ s. is_posted (progress s) ≡ true) (λ _ s. is_running (progress s) ≡ true) r
          → Post (λ _ s. is_over (progress s) ≡ true) (λ _ s. is_running (progress s) ≡ true) r
      posted_is_over (ok a, s) k = ground arith
      posted_is_over (raise e, s) k = k
      posted_is_over (no_fuel, s) k = tt

  load_metadata_objects-Reaches :
      (objects : List RawExtrinsicMetadata)
      → Reaches progress is_visited
          (load_metadata_objects storage objects)
          (λ _. before_prepare)
          before_prepare
  unfolding load_metadata_objects step
  load_metadata_objects-Reaches [] = Reaches-pure tt (λ p k. ground arith)
  load_metadata_objects-Reaches (o ∷ objects) =
      Reaches-bind (λ _. is_authorities_known) (Reaches-call _ _ (λ p k. ground arith))
        λ _.
          Reaches-bind (λ _. is_fetchers_known) (Reaches-call _ _ (λ p k. ground arith))
            λ _. Reaches-call _ _ (λ p k. ground arith)

  origin_metadata-Reaches :
      Reaches progress is_visited
        (origin_metadata config methods storage parent_origins fetchers)
        (λ _. before_prepare)
        is_settled
  unfolding origin_metadata
  origin_metadata-Reaches =
      Reaches-try_except before_prepare
        (Reaches-bind (λ _. is_visited) (Reaches-read _ (λ p k. k) (λ p k. ground arith))
          load_metadata_objects-Reaches)
        (λ e b. Reaches-pure tt (λ p k. k)) (λ p k. ground arith)

  or_load_status-Reaches :
      (result : Option TaskResult)
      → Reaches progress is_cleaned_up
          (or_load_status config methods storage parent_origins fetchers result)
          (λ _. is_finished)
          is_settled
  unfolding or_load_status step
  or_load_status-Reaches none = Reaches-call _ _ (λ p k. ground arith)
  or_load_status-Reaches (some r) = Reaches-pure r (λ p k. ground arith)

  load-Reaches :
      (fuel : ℕ)
      → Reaches progress is_fresh
          (load config methods storage parent_origins fetchers fuel)
          (λ _. is_finished)
          is_settled
  unfolding load store_origin_visit step
  load-Reaches fuel =
      Reaches-bind (λ _. is_pre_cleaned)
        (Reaches-try_except is_pre_cleaned (Reaches-call _ _ (λ p k. ground arith))
          (λ e b. Reaches-pure tt (λ p k. k)) (λ p k. ground arith))
        λ _.
          Reaches-bind (λ _. is_visited)
            (Reaches-bind (λ _. is_origin_known) (Reaches-call _ _ (λ p k. ground arith))
              λ _. Reaches-call _ _ (λ p k. ground arith))
            λ visit.
              Reaches-bind (λ _. is_visited) (number-Reaches visit.visit)
                λ number.
                  Reaches-bind (λ _. before_prepare) origin_metadata-Reaches
                    λ _.
                      Reaches-bind (λ _. is_cleaned_up)
                        (Reaches-try_finally (λ _. is_over) is_over (attempt-Reaches fuel number)
                          (λ _. wind_up-Reaches (λ p k. k)) (wind_up-Reaches (λ p k. ground arith)))
                        or_load_status-Reaches

-- The state in which `load` is called: nothing has been called yet.
abbrev pub start : {W : Type 0} → W → Logged W
start w = record { world = w; calls = [] }

-- The calls of `load` follow the protocol, whatever the methods and the storage do. When it
-- returns, the `finally` block has flushed the storage and cleaned up; when an exception leaves
-- it, that was before `prepare`, or after the `finally` block had begun with its flush.
pub load_order :
    {W : Type 0} (config : Config) (methods : Methods W) (storage : Storage W)
    (parent_origins : ParentOrigins W) (fetchers : List (Fetcher W)) (fuel : ℕ) (w : W)
    → Post
        (λ _ s. is_finished (phase s.calls) ≡ true)
        (λ _ s. is_settled (phase s.calls) ≡ true)
        (load config methods storage parent_origins fetchers fuel (start w))
unfolding Machine.progress protocol phase
load_order config methods storage parent_origins fetchers fuel w =
    (load-Reaches config methods storage parent_origins fetchers fuel).triple.run (start w) refl
