-- ===== src/Package/Visit/Order.antt =====
-- package/loader.py: PackageLoader.load makes its calls in the order of Protocol.
use swh_loader_core.Prelude.{
  ℕ, zero, suc, String, ◌≡◌, refl, Bool, true, false, Option, none, some, List, [], ◌∷◌, arith,
  is_empty, ◌⊎◌, inl, inr, ◌==◌, string_eq,
}
use swh_loader_core.Effects.{Exception, Result, ok, raise, no_fuel, pure, continue, ◌>>=◌}
use swh_loader_core.Effects.Hoare.{Post, Any}
use swh_loader_core.Effects.Reaches.{
  Phases, Part, Reaches, Reaches-pure, Reaches-throw, Reaches-bind, Reaches-if, Reaches-try_except,
  Reaches-weaken, Reaches-loosen,
}
use swh_loader_core.Model.{Snapshot, ExtId, OriginVisit, TaskResult, Identifiers}
use swh_loader_core.Storage.{Storage, Logged}
use swh_loader_core.Storage.Machine
use swh_loader_core.Core.Base.Init.{Config}
use swh_loader_core.Core.Base.Load.{visit_number}
use swh_loader_core.Core.Base.Load.Order.{start}
use swh_loader_core.Package.Methods.{Methods, Disk}
use swh_loader_core.Package.Snapshot.{load_snapshot}
use swh_loader_core.Package.Progress.{Progress}
use swh_loader_core.Package.Load.{Outcome, finalize_visit}
use swh_loader_core.Package.Quiet.{is_metadata, IsClosed, load_metadata_objects-Keeps}
use swh_loader_core.Package.Visit.{
  stop, build_snapshot, flush_snapshot, record_snapshot, describe_snapshot, describe_origin,
  load_extids, conclude, after_loop, load_versions, list_versions, with_versions, find_last,
  with_last, start_visit, with_visit, load,
}
use swh_loader_core.Package.Visit.Refusal.{Refused, start_visit-Refused}
use swh_loader_core.Package.Visit.Loop.{progress, is_loading, load_packages-Keeps}
use swh_loader_core.Package.Visit.Protocol.{
  Phase, loading, flushed, snapshotted, stored, described, registered, registered_flushed,
  stored_flushed, closed, broken, step, protocol, phase,
}

-- Before the last flush.
abbrev is_open : Phases Phase
is_open loading = true
is_open flushed = true
is_open snapshotted = true
is_open stored = true
is_open described = true
is_open registered = true
is_open _ = false

-- No ExtIDs yet.
abbrev is_plain : Phases Phase
is_plain loading = true
is_plain flushed = true
is_plain snapshotted = true
is_plain stored = true
is_plain described = true
is_plain _ = false

-- The snapshot is sent and flushed.
abbrev is_stored : Phases Phase
is_stored stored = true
is_stored described = true
is_stored _ = false

-- Where the storage is flushed: the status may be sent.
abbrev is_flushed : Phases Phase
is_flushed flushed = true
is_flushed stored = true
is_flushed stored_flushed = true
is_flushed registered_flushed = true
is_flushed _ = false

abbrev is_first : Phases Phase
is_first loading = true
is_first _ = false

abbrev is_snapshotted : Phases Phase
is_snapshotted snapshotted = true
is_snapshotted _ = false

-- The status is sent.
abbrev pub is_closed : Phases Phase
is_closed closed = true
is_closed _ = false

-- Where an exception may leave `load`.
abbrev pub is_sound : Phases Phase
is_sound broken = false
is_sound _ = true

-- What a status of the load says: unless it is "failed", the snapshot is sent and flushed.
abbrev by_failure : Bool → Phases Phase
by_failure true = is_plain
by_failure false = is_stored

abbrev by_status : Outcome → Phases Phase
by_status outcome = by_failure (outcome.status_load == "failed")

stored_by_failure : (b : Bool) → Part is_stored (by_failure b)
stored_by_failure true p k = ground arith
stored_by_failure false p k = k

by_failure_plain : (b : Bool) → Part (by_failure b) is_plain
by_failure_plain true p k = k
by_failure_plain false p k = ground arith

by_failure_metadata : (b : Bool) → IsClosed protocol is_metadata (by_failure b)
unfolding protocol step
by_failure_metadata true c h p k = ground arith
by_failure_metadata false c h p k = ground arith

by_failure_sound : (b : Bool) → Part (by_failure b) is_sound
by_failure_sound true p k = ground arith
by_failure_sound false p k = ground arith

number-Reaches :
    {W : Type 0} (number : Option ℕ)
    → Reaches (progress {W = W}) is_flushed (visit_number number) (λ _. is_flushed) is_sound
number-Reaches none = Reaches-throw _ (λ p k. ground arith)
number-Reaches (some zero) = Reaches-throw _ (λ p k. ground arith)
number-Reaches (some (suc n)) = Reaches-pure _ (λ p k. k)

module _ {W : Type 0} (config : Config) (identifiers : Identifiers) (methods : Methods W)
    (disk : Disk W) (storage : Storage W) where
  finalize_visit-Reaches :
      (visit : Option ℕ) (outcome : Outcome)
      → Reaches progress is_open
          (finalize_visit config identifiers methods disk storage visit outcome)
          (λ _. is_closed)
          is_sound
  unfolding finalize_visit protocol step
  finalize_visit-Reaches visit outcome =
      Reaches-bind (λ _. is_flushed)
        (Machine.Reaches-call protocol _ _ (λ _ p k. ground arith) (λ p k. ground arith))
        λ _.
          Reaches-bind (λ _. is_flushed) (number-Reaches visit)
            λ number.
              Reaches-bind (λ _. is_flushed) (Machine.Reaches-clock protocol storage)
                λ date.
                  Reaches-bind (λ _. is_closed)
                    (Machine.Reaches-call protocol _ _ (λ _ p k. ground arith)
                      (λ p k. ground arith))
                    λ _. Reaches-pure _ (λ p k. ground arith)

  stop-Reaches :
      (visit : Option ℕ) (status : String)
      → Reaches progress is_loading
          (stop config identifiers methods disk storage visit status)
          (λ _. is_closed)
          is_sound
  unfolding stop
  stop-Reaches visit status =
      Reaches-weaken is_open (λ p k. ground arith) (finalize_visit-Reaches visit _)

  build_snapshot-Reaches :
      (st : Progress)
      → Reaches progress is_loading
          (build_snapshot config identifiers methods disk storage st)
          (λ _. is_snapshotted)
          is_plain
  unfolding build_snapshot load_snapshot protocol step
  build_snapshot-Reaches st =
      Reaches-bind (λ _. is_loading)
        (Machine.Reaches-read protocol _ (λ _ p k. k) (λ p k. ground arith))
        λ default_version.
          Reaches-bind (λ _. is_loading)
            (Machine.Reaches-read protocol _ (λ _ p k. k) (λ p k. ground arith))
            λ extra.
              Reaches-bind (λ _. is_snapshotted)
                (Machine.Reaches-call protocol _ _ (λ _ p k. ground arith) (λ p k. ground arith))
                λ _. Reaches-pure _ (λ p k. k)

  abbrev if_built : Option Snapshot → Phases Phase
  if_built none = is_plain
  if_built (some s) = is_snapshotted

  flush_snapshot-Reaches :
      (status : String) (st : Progress) (built : Option Snapshot)
      → Reaches progress
          (if_built built)
          (flush_snapshot config identifiers methods disk storage status st built)
          by_status
          is_sound
  unfolding flush_snapshot protocol step
  flush_snapshot-Reaches status st none = Reaches-pure _ (λ p k. k)
  flush_snapshot-Reaches status st (some snapshot) =
      Reaches-try_except is_stored
        (Reaches-bind (λ _. is_stored)
          (Machine.Reaches-call protocol _ _ (λ _ p k. ground arith) (λ p k. ground arith))
          λ _. Reaches-pure _ (stored_by_failure _))
        (λ e b. Reaches-pure _ (λ p k. ground arith)) (λ p k. ground arith)

  record_snapshot-Reaches :
      (status : String) (st : Progress)
      → Reaches progress is_loading
          (record_snapshot config identifiers methods disk storage status st)
          by_status
          is_sound
  unfolding record_snapshot
  record_snapshot-Reaches status st =
      Reaches-bind if_built
        (Reaches-try_except is_plain
          (Reaches-bind (λ _. is_snapshotted) (build_snapshot-Reaches st)
            λ s. Reaches-pure _ (λ p k. k))
          (λ e b. Reaches-pure _ (λ p k. k)) (λ p k. ground arith))
        (flush_snapshot-Reaches status st)

  describe_snapshot-Reaches :
      (outcome : Outcome) (snapshot : Option Snapshot)
      → Reaches progress
          (by_status outcome)
          (describe_snapshot config identifiers methods disk storage outcome snapshot)
          by_status
          is_sound
  unfolding describe_snapshot
  describe_snapshot-Reaches outcome none = Reaches-pure _ (λ p k. k)
  describe_snapshot-Reaches outcome (some snapshot) =
      Reaches-try_except (by_status outcome)
        (Reaches-bind (λ _. by_status outcome)
          (Machine.Reaches-read protocol _ (λ _ p k. k) (λ p k. k))
          λ objects.
            Reaches-bind (λ _. by_status outcome)
              (load_metadata_objects-Keeps protocol storage (by_failure_metadata _) objects).reaches
              λ _. Reaches-pure _ (λ p k. k))
        (λ e b. Reaches-pure _ (by_failure_plain _)) (by_failure_sound _)

  describe_origin-Reaches :
      (outcome : Outcome)
      → Reaches progress
          (by_status outcome)
          (describe_origin config identifiers methods disk storage outcome)
          by_status
          is_sound
  unfolding describe_origin
  describe_origin-Reaches outcome =
      Reaches-try_except (by_status outcome)
        (Reaches-bind (λ _. by_status outcome)
          (Machine.Reaches-read protocol _ (λ _ p k. k) (λ p k. k))
          λ objects.
            Reaches-bind (λ _. by_status outcome)
              (load_metadata_objects-Keeps protocol storage (by_failure_metadata _) objects).reaches
              λ _. Reaches-pure _ (λ p k. k))
        (λ e b. Reaches-pure _ (by_failure_plain _)) (by_failure_sound _)

  load_extids-Reaches :
      (extids : List ExtId)
      → Reaches progress is_stored
          (load_extids config identifiers methods disk storage extids)
          (λ _. is_open)
          is_sound
  unfolding load_extids protocol step
  load_extids-Reaches [] = Reaches-pure tt (λ p k. ground arith)
  load_extids-Reaches (e ∷ extids) =
      Reaches-try_except is_open
        (Machine.Reaches-call protocol _ _ (λ _ p k. ground arith) (λ p k. ground arith))
        (λ e b. Reaches-pure tt (λ p k. k)) (λ p k. ground arith)

  register-Reaches :
      (b : Bool) (st : Progress)
      → Reaches progress
          (by_failure b)
          (elim b [
            | true ↦ pure tt
            | false ↦ load_extids config identifiers methods disk storage st.new_extids
          ])
          (λ _. is_open)
          is_sound
  register-Reaches true st = Reaches-pure tt (λ p k. ground arith)
  register-Reaches false st = load_extids-Reaches st.new_extids

  conclude-Reaches :
      (visit : Option ℕ) (status : String) (st : Progress)
      → Reaches progress is_loading
          (conclude config identifiers methods disk storage visit status st)
          (λ _. is_closed)
          is_sound
  unfolding conclude
  conclude-Reaches visit status st =
      Reaches-bind by_status (record_snapshot-Reaches status st) λ recorded.
        Reaches-bind by_status (describe_snapshot-Reaches recorded _) λ described.
          Reaches-bind by_status (describe_origin-Reaches described) λ outcome.
            Reaches-bind (λ _. is_open) (register-Reaches _ st)
              λ _. finalize_visit-Reaches visit outcome

  after_loop-Reaches :
      (visit : Option ℕ) (st : Progress)
      → Reaches progress is_loading
          (after_loop config identifiers methods disk storage visit st)
          (λ _. is_closed)
          is_sound
  unfolding after_loop
  after_loop-Reaches visit st =
      Reaches-if (is_empty st.tmp_releases) (λ b. stop-Reaches visit "failed")
        λ b.
          conclude-Reaches visit
            (elim (is_empty st.load_exceptions) [ true ↦ "full" | false ↦ "partial" ]) st

  load_versions-Reaches :
      (visit : Option ℕ) (last_snapshot : Option Snapshot) (versions : List String)
      → Reaches progress is_loading
          (load_versions config identifiers methods disk storage visit last_snapshot versions)
          (λ _. is_closed)
          is_sound
  unfolding load_versions
  load_versions-Reaches visit last_snapshot versions =
      Reaches-bind (λ _. is_loading)
        (Machine.Reaches-read protocol _ (λ _ p k. k) (λ p k. ground arith))
        λ listed.
          Reaches-bind (λ _. is_loading)
            (Machine.Reaches-read protocol _ (λ _ p k. k) (λ p k. ground arith))
            λ known.
              Reaches-bind (λ _. is_loading)
                (Reaches-loosen (λ p k. ground arith)
                  (load_packages-Keeps config identifiers methods disk storage known _
                    listed.packages_info _).reaches)
                (after_loop-Reaches visit)

  with_versions-Reaches :
      (visit : Option ℕ) (last_snapshot : Option Snapshot) (versions : List String ⊎ String)
      → Reaches progress is_loading
          (with_versions config identifiers methods disk storage visit last_snapshot versions)
          (λ _. is_closed)
          is_sound
  unfolding with_versions
  with_versions-Reaches visit last_snapshot (inl versions) =
      load_versions-Reaches visit last_snapshot versions
  with_versions-Reaches visit last_snapshot (inr status) = stop-Reaches visit status

  with_last-Reaches :
      (visit : Option ℕ) (last : Option (Option Snapshot))
      → Reaches progress is_loading
          (with_last config identifiers methods disk storage visit last)
          (λ _. is_closed)
          is_sound
  unfolding with_last list_versions
  with_last-Reaches visit none = stop-Reaches visit "failed"
  with_last-Reaches visit (some last_snapshot) =
      Reaches-bind (λ _. is_loading)
        (Reaches-try_except is_loading
          (Reaches-bind (λ _. is_loading) (Machine.Reaches-read protocol _ (λ _ p k. k) (λ p k. k))
            λ v. Reaches-pure _ (λ p k. k))
          (λ e b. Reaches-pure _ (λ p k. k)) (λ p k. ground arith))
        (with_versions-Reaches visit last_snapshot)

  some_visit-Reaches :
      (visit : OriginVisit)
      → Reaches progress is_first
          (with_visit config identifiers methods disk storage (some visit))
          (λ _. is_closed)
          is_sound
  unfolding with_visit find_last
  some_visit-Reaches visit =
      Reaches-bind (λ _. is_loading)
        (Reaches-try_except is_loading
          (Reaches-bind (λ _. is_loading)
            (Machine.Reaches-read protocol _ (λ _ p k. ground arith) (λ p k. ground arith))
            λ v. Reaches-pure _ (λ p k. k))
          (λ e b. Reaches-pure _ (λ p k. k)) (λ p k. ground arith))
        (with_last-Reaches visit.visit)

  start_visit-Reaches :
      Reaches progress is_first
        (start_visit config identifiers methods disk storage)
        (λ _. is_first)
        is_sound
  unfolding start_visit protocol step
  start_visit-Reaches =
      Reaches-try_except is_first
        (Reaches-bind (λ _. is_first)
          (Machine.Reaches-call protocol _ _ (λ _ p k. ground arith) (λ p k. ground arith))
          λ _.
            Reaches-bind (λ _. is_first)
              (Machine.Reaches-call protocol _ _ (λ _ p k. ground arith) (λ p k. ground arith))
              λ v. Reaches-pure _ (λ p k. k))
        (λ e b. Reaches-pure _ (λ p k. k)) (λ p k. ground arith)

  -- `load` has returned: the status is sent; or the load failed, as the visit could not be created.
  abbrev pub IsFinished : W → TaskResult → Logged W → Type 0
  IsFinished w result s =
      (is_closed (phase s.calls) ≡ true) ⊎ ((result.status ≡ "failed") × Refused config storage w)

  abbrev IsSound : Exception → Logged W → Type 0
  IsSound e s = is_sound (phase s.calls) ≡ true

  some_visit-IsFinished :
      (w : W) (visit : OriginVisit) (s : Logged W)
      → is_first (phase s.calls) ≡ true
      → Post
          (IsFinished w)
          IsSound
          (with_visit config identifiers methods disk storage (some visit) s)
  unfolding Machine.progress protocol phase
  some_visit-IsFinished w visit s k =
      finished (with_visit config identifiers methods disk storage (some visit) s)
        ((some_visit-Reaches visit).triple.run s k)
    where
      finished :
          (r : Result TaskResult × Logged W)
          → Post (λ result s. is_closed (phase s.calls) ≡ true) IsSound r
          → Post (IsFinished w) IsSound r
      finished (ok result, s) h = inl h
      finished (raise e, s) h = h
      finished (no_fuel, s) h = tt

  after_start :
      (w : W) (r : Result (Option OriginVisit) × Logged W)
      → Post (λ _ s. is_first (phase s.calls) ≡ true) IsSound r
      → Post (λ v s. v ≡ none → Refused config storage w) Any r
      → Post
          (IsFinished w)
          IsSound
          (continue (with_visit config identifiers methods disk storage) r)
  unfolding with_visit pure
  after_start w (ok none, s) k h = inr (refl, h refl)
  after_start w (ok (some visit), s) k h = some_visit-IsFinished w visit s k
  after_start w (raise e, s) k h = k
  after_start w (no_fuel, s) k h = tt

  -- The calls of a package load follow the protocol, whatever the loader and the storage do: the
  -- status is sent once, as the last call, and right after a flush; the snapshot is sent at most once;
  -- ExtIDs are sent only after the snapshot was sent and flushed. When `load` returns, the status is
  -- sent, or the result is "failed" as the visit could not be created: the storage raised when it was
  -- given the origin or the visit.
  pub package_load_order :
      (w : W)
      → Post
          (λ result s.
            (is_closed (phase s.calls) ≡ true)
            ⊎ ((result.status ≡ "failed") × Refused config storage w))
          (λ _ s. is_sound (phase s.calls) ≡ true)
          (load config identifiers methods disk storage (start w))
  unfolding load Machine.progress protocol phase ◌>>=◌
  package_load_order w =
      after_start w (start_visit config identifiers methods disk storage (start w))
        (start_visit-Reaches.triple.run (start w) refl)
        ((start_visit-Refused config identifiers methods disk storage w).run (start w) refl)
