-- ===== src/Core/Base/Load/Verdict.antt =====
-- core/loader.py: what BaseLoader.load reports agrees with the status that it has recorded.
use text.Mathlib.Text.{◌==◌ as str_eq}
use swh_loader_core.Prelude.{
  ℕ, String, ◌≢◌, ◌∙◌, ◌⊎◌, inl, inr, string_eq, ◌≡◌, refl, Bool, true, false, Option, none, some,
  List, [], ◌∷◌, arith,
}
use swh_loader_core.Effects.{
  Exception, not_found, value_error, unsupported_checksum_layout, http_error,
  content_decoding_error, assertion_error, not_implemented, key_error, index_error, overflow_error,
  other, system_exit, keyboard_interrupt, Result, ok, raise, no_fuel, Exec, is_exception, message,
  handle, try_base, gets, ◌>>=◌,
}
use swh_loader_core.Effects.Hoare.{
  Post, Triple, Triple-pure, Triple-throw, Triple-elim, Triple-bind, Returned, Triple-try_finally,
}
use swh_loader_core.Model.{Sha1Git, OriginVisitStatus, TaskResult}
use swh_loader_core.Storage.{
  Storage, Logged, Method, Call, method, load_status, visit_status, post_load,
  origin_visit_status_add, flush, call, rejoin,
}
use swh_loader_core.Core.Base.Init.{Config}
use swh_loader_core.Core.Base.Metadata.{ParentOrigins, Fetcher}
use swh_loader_core.Core.Base.Load.{
  Methods, load, loaded_id, status_on_failure, add_status, ingest_visit, on_failure, wind_up,
  attempt, or_load_status, failure_status, failure_result,
}
use swh_loader_core.Core.Base.Load.Order.{start}

-- The status of the visit that was recorded last.
abbrev pub newest_status : List Call → Option OriginVisitStatus
newest_status [] = none
newest_status (origin_visit_status_add s ∷ calls) = some s
newest_status (c ∷ calls) = newest_status calls

-- The status of a visit that failed: partial if a snapshot was loaded before, else failed.
abbrev pub PartialOrFailed : Option Sha1Git → String → Type 0
PartialOrFailed none status = status ≡ "failed"
PartialOrFailed (some id) status = (id ≡ "" → status ≡ "failed") × (id ≢ "" → status ≡ "partial")

-- The task result and the status of the visit for an exception, with the snapshot loaded till then: NotFound is
-- uneventful and not_found, everything else fails with the text of the exception.
abbrev pub Reports :
    (text : Exception → String)
    → Exception
    → Option Sha1Git
    → TaskResult
    → OriginVisitStatus
    → Type 0
Reports text (not_found m) id result s =
    ((result.status ≡ "uneventful") × (result.error ≡ none))
    × ((s.status ≡ "not_found") × (s.snapshot ≡ id))
Reports text e id result s =
    ((result.status ≡ "failed") × (result.error ≡ some (message text e)))
    × (PartialOrFailed id s.status × (s.snapshot ≡ id))

-- The newest status is one with a property.
abbrev pub Newest : List Call → (OriginVisitStatus → Type 0) → Type 0
Newest calls P = (s : OriginVisitStatus) × ((newest_status calls ≡ some s) × P s)

-- status_on_failure, from the test whether the identifier is empty
abbrev told : Bool → String
told true = "failed"
told false = "partial"

partial_or_failed : (id : Option Sha1Git) → PartialOrFailed id (status_on_failure id)
partial_or_failed none = refl
partial_or_failed (some id) = by_text (str_eq id "") refl
  where
    by_test : (b : Bool) → str_eq id "" ≡ b → status_on_failure (some id) ≡ told b
    by_test true e = ground (arith, e)
    by_test false e = ground (arith, e)

    by_text :
        (b : Bool)
        → str_eq id "" ≡ b
        → (id ≡ "" → status_on_failure (some id) ≡ "failed")
          × (id ≢ "" → status_on_failure (some id) ≡ "partial")
    by_text true e = (λ h. by_test true e, λ h. absurd (h ((string_eq.beq_iff id "").0 e)))
    by_text false e = (λ h. absurd (cc ((string_eq.beq_iff id "").1 h, e)), λ h. by_test false e)

-- The handler's result and status are as described.
reports :
    (text : Exception → String) (e : Exception) (id : Option Sha1Git) (s : OriginVisitStatus)
    → s.status ≡ failure_status e id
    → s.snapshot ≡ id
    → Reports text e id (failure_result text e) s
reports text (not_found m) id s h k = ((refl, refl), (h, k))
reports text (value_error m) id s h k = ((refl, refl), (rw h (partial_or_failed id), k))
reports text (unsupported_checksum_layout m) id s h k =
    ((refl, refl), (rw h (partial_or_failed id), k))
reports text (http_error n) id s h k = ((refl, refl), (rw h (partial_or_failed id), k))
reports text content_decoding_error id s h k = ((refl, refl), (rw h (partial_or_failed id), k))
reports text assertion_error id s h k = ((refl, refl), (rw h (partial_or_failed id), k))
reports text not_implemented id s h k = ((refl, refl), (rw h (partial_or_failed id), k))
reports text key_error id s h k = ((refl, refl), (rw h (partial_or_failed id), k))
reports text index_error id s h k = ((refl, refl), (rw h (partial_or_failed id), k))
reports text overflow_error id s h k = ((refl, refl), (rw h (partial_or_failed id), k))
reports text (other m) id s h k = ((refl, refl), (rw h (partial_or_failed id), k))
reports text system_exit id s h k = ((refl, refl), (rw h (partial_or_failed id), k))
reports text keyboard_interrupt id s h k = ((refl, refl), (rw h (partial_or_failed id), k))

Any : {W : Type 0} → Logged W → Type 0
Any s = Unit

-- `c` records no status.
abbrev is_silent : Call → Bool
is_silent (origin_visit_status_add _) = false
is_silent _ = true

newest_status-silent :
    (c : Call) (calls : List Call)
    → is_silent c ≡ true
    → newest_status (c ∷ calls) ≡ newest_status calls
newest_status-silent (origin_visit_status_add s) calls h = ground arith
newest_status-silent _ calls h = refl

Any-Post : {W A : Type 0} (r : Result A × Logged W) → Post (λ _. Any) (λ _. Any) r
unfolding Any
Any-Post (ok a, s) = tt
Any-Post (raise e, s) = tt
Any-Post (no_fuel, s) = tt

-- What comes before the last step does not matter.
Triple-after :
    {W A B : Type 0} {Q : B → Logged W → Type 0} (m : Exec (Logged W) A) {f : A → Exec (Logged W) B}
    → ((a : A) → Triple Any (f a) Q (λ _. Any))
    → Triple Any (m >>= f) Q (λ _. Any)
Triple-after m h = Triple-bind {Q = λ _. Any} (record { run = λ s _. Any-Post (m s) }) h

module _ {W A : Type 0} (P Q : List Call → Type 0) (c : Call)
    (leads : (calls : List Call) → P calls → Q (c ∷ calls)) where
  rejoin-Post :
      (calls : List Call) (r : Result A × W)
      → P calls
      → Post (λ _ s. Q s.calls) (λ _. Any) (rejoin (c ∷ calls) r)
  unfolding Any
  rejoin-Post calls (ok a, w) p = leads calls p
  rejoin-Post calls (raise e, w) p = tt
  rejoin-Post calls (no_fuel, w) p = tt

  Triple-call : (m : Exec W A) → Triple (λ s. P s.calls) (call c m) (λ _ s. Q s.calls) (λ _. Any)
  unfolding call
  Triple-call m = record { run = λ s p. rejoin-Post s.calls (m s.world) p }

-- A fact about values, used as a hypothesis of what follows.
given :
    {W A F : Type 0} {m : Exec (Logged W) A} {Q : A → Logged W → Type 0}
    → (F → Triple Any m Q (λ _. Any))
    → Triple (λ s. F) m Q (λ _. Any)
unfolding Any
given h = record { run = λ s f. (h f).run s tt }

module _ {W : Type 0} (config : Config) (methods : Methods W) (storage : Storage W)
    (parent_origins : ParentOrigins W) (fetchers : List (Fetcher W)) (fuel : ℕ) where
  -- The body of the `try` statement for a visit: from a state to its outcome and the state it leaves.
  abbrev Body : ℕ → Exec (Logged W) (Option TaskResult)
  Body = ingest_visit config methods storage parent_origins fetchers fuel

  -- The body raised an exception, and this was the identifier of the snapshot loaded till then.
  pub record Raised (e : Exception) (id : Option Sha1Git) : Type 0 where
    pub visit : ℕ
    pub before : Logged W
    pub after : Logged W
    pub run : Body visit before ≡ (raise e, after)
    pub is_loaded : id ≡ methods.loaded_snapshot_id after.world

  -- The failure that `result` reports is that of the body, and the one that was recorded.
  abbrev pub Failure : TaskResult → List Call → Type 0
  Failure result calls =
      (e : Exception) × (id : Option Sha1Git) × Raised e id
      × (is_exception e ≡ true)
      × Newest calls (Reports methods.exception_text e id result)

  -- visit_status gave a status, and this was the identifier of the loaded snapshot right after.
  pub record Judged (status : String) (id : Option Sha1Git) : Type 0 where
    pub before : W
    pub after : W
    pub run : methods.visit_status before ≡ (ok status, after)
    pub is_loaded : id ≡ methods.loaded_snapshot_id after

  -- The status that was recorded last is what visit_status said, with the loaded snapshot.
  abbrev pub Announced : List Call → Type 0
  Announced calls =
      (status : String) × (id : Option Sha1Git) × Judged status id
      × Newest calls (λ s. (s.status ≡ status) × (s.snapshot ≡ id))

  -- What `load` returns: the answer of `load_status`, asked last, or a failure.
  abbrev pub Verdict : TaskResult → List Call → Type 0
  Verdict result calls =
      ((rest : List Call) × (calls ≡ method load_status ∷ rest)
        × Returned methods.load_status result
        × Announced rest)
      ⊎ Failure result calls

  Tried : Option TaskResult → Logged W → Type 0
  Tried none s = Announced s.calls
  Tried (some result) s = Failure result s.calls

  Newest-silent :
      (P : OriginVisitStatus → Type 0) (c : Call)
      → is_silent c ≡ true
      → (calls : List Call) → Newest calls P
      → Newest (c ∷ calls) P
  Newest-silent P c h calls (s, (e, p)) = (s, (newest_status-silent c calls h ∙ e, p))

  Announced-silent :
      (c : Call)
      → is_silent c ≡ true
      → (calls : List Call) → Announced calls
      → Announced (c ∷ calls)
  Announced-silent c h calls (status, id, j, n) = (status, id, j, Newest-silent _ c h calls n)

  Failure-silent :
      (result : TaskResult) (c : Call)
      → is_silent c ≡ true
      → (calls : List Call) → Failure result calls
      → Failure result (c ∷ calls)
  Failure-silent result c h calls (e, id, r, x, n) = (e, id, r, x, Newest-silent _ c h calls n)

  record_status :
      (visit : ℕ) (status : String) (id : Option Sha1Git)
      → Triple Any
          (add_status config methods storage parent_origins fetchers visit status id)
          (λ _ s. Newest s.calls (λ o. (o.status ≡ status) × (o.snapshot ≡ id)))
          (λ _. Any)
  unfolding add_status Any
  record_status visit status id = Triple-after _ λ date.
      Triple-call (λ _. Unit) (λ calls. Newest calls (λ o. (o.status ≡ status) × (o.snapshot ≡ id)))
        _ (λ calls p. (_, (refl, (refl, refl)))) _

  -- What was loaded when the body raised.
  read_loaded :
      (visit : ℕ) (e : Exception) (before : Logged W)
      → Triple
          (λ s. Body visit before ≡ (raise e, s))
          (loaded_id config methods storage parent_origins fetchers)
          (λ id s. Raised e id)
          (λ _. Any)
  unfolding loaded_id gets
  read_loaded visit e before = record {
    run = λ s h. record { visit = visit; before = before; after = s; run = h; is_loaded = refl };
  }

  on_failure-Tried :
      (visit : ℕ) (e : Exception) (before : Logged W)
      → Triple
          (λ s. Body visit before ≡ (raise e, s))
          (on_failure config methods storage parent_origins fetchers visit e)
          Tried
          (λ _. Any)
  unfolding on_failure
  on_failure-Tried visit e before = Triple-bind (read_loaded visit e before) λ id. given λ raised.
      Triple-bind (record_status visit (failure_status e id) id) λ _.
        Triple-bind
          (Triple-call
            (λ calls. Newest calls (λ o. (o.status ≡ failure_status e id) × (o.snapshot ≡ id)))
            (λ calls. Newest calls (λ o. (o.status ≡ failure_status e id) × (o.snapshot ≡ id))) _
            (λ calls n. Newest-silent _ (method (post_load false)) refl calls n) _)
          λ _.
            Triple-elim (is_exception e)
              (λ b. Triple-pure _ (
                unfold Tried in
                λ s n. (
                  e,
                  id,
                  raised,
                  b,
                  (n.0, (n.1.0, reports methods.exception_text e id n.0 n.1.1.0 n.1.1.1)),
                )))
              (λ b. Triple-throw e (unfold Any in λ s p. tt))

  judge :
      Triple Any
        (call (method visit_status) methods.visit_status)
        (λ status s. (before : W) × (methods.visit_status before ≡ (ok status, s.world)))
        (λ _. Any)
  unfolding call Any
  judge = record { run = λ s p. judged s (methods.visit_status s.world) refl }
    where
      judged :
          (s : Logged W) (r : Result String × W)
          → methods.visit_status s.world ≡ r
          → Post
              (λ status t. (before : W) × (methods.visit_status before ≡ (ok status, t.world)))
              (λ _. Any)
              (rejoin (method visit_status ∷ s.calls) r)
      judged s (ok status, w) e = (s.world, e)
      judged s (raise x, w) e = tt
      judged s (no_fuel, w) e = tt

  read-Judged :
      (status : String)
      → Triple
          (λ s. (before : W) × (methods.visit_status before ≡ (ok status, s.world)))
          (loaded_id config methods storage parent_origins fetchers)
          (λ id s. Judged status id)
          (λ _. Any)
  unfolding loaded_id gets
  read-Judged status = record {
    run = λ s h. record { before = h.0; after = s.world; run = h.1; is_loaded = refl };
  }

  ingest_visit-Tried : (visit : ℕ) → Triple Any (Body visit) Tried (λ _. Any)
  unfolding ingest_visit
  ingest_visit-Tried visit = Triple-after _ λ _. Triple-after _ λ _. Triple-bind judge λ status.
      Triple-bind (read-Judged status) λ id. given λ judged.
        Triple-bind (record_status visit status id) λ _.
          Triple-bind
            (Triple-call (λ calls. Newest calls (λ o. (o.status ≡ status) × (o.snapshot ≡ id)))
              (λ calls. Newest calls (λ o. (o.status ≡ status) × (o.snapshot ≡ id))) _
              (λ calls n. Newest-silent _ (method (post_load true)) refl calls n) _)
            λ _. Triple-pure none (unfold Tried in λ s n. (status, id, judged, n))

  attempt-Tried :
      (visit : ℕ)
      → Triple Any
          (attempt config methods storage parent_origins fetchers fuel visit)
          Tried
          (λ _. Any)
  unfolding attempt try_base
  attempt-Tried visit = record {
    run = λ s p. handled s (Body visit s) refl ((ingest_visit-Tried visit).run s p);
  }
    where
      handled :
          (s : Logged W) (r : Result (Option TaskResult) × Logged W)
          → Body visit s ≡ r
          → Post Tried (λ _. Any) r
          → Post Tried
              (λ _. Any)
              (handle (on_failure config methods storage parent_origins fetchers visit) r)
      handled s (ok a, t) e p = p
      handled s (raise x, t) e p = (on_failure-Tried visit x s).run t e
      handled s (no_fuel, t) e p = tt

  wind_up-Tried :
      (result : Option TaskResult)
      → Triple
          (Tried result)
          (wind_up config methods storage parent_origins fetchers)
          (λ _. Tried result)
          (λ _. Any)
  unfolding wind_up Tried
  wind_up-Tried none =
      Triple-bind (Triple-call Announced Announced _ (Announced-silent flush refl) _)
        λ _. Triple-call Announced Announced _ (Announced-silent (method Method.cleanup) refl) _
  wind_up-Tried (some result) =
      Triple-bind
        (Triple-call (Failure result) (Failure result) _ (Failure-silent result flush refl) _)
        λ _.
          Triple-call (Failure result) (Failure result) _
            (Failure-silent result (method Method.cleanup) refl) _

  or_load_status-Verdict :
      (result : Option TaskResult)
      → Triple
          (Tried result)
          (or_load_status config methods storage parent_origins fetchers result)
          (λ r s. Verdict r s.calls)
          (λ _. Any)
  unfolding or_load_status Tried Any call
  or_load_status-Verdict (some result) = Triple-pure result (λ s f. inr f)
  or_load_status-Verdict none = record {
    run = λ s p. reported s p (methods.load_status s.world) refl;
  }
    where
      reported :
          (s : Logged W)
          → Announced s.calls
          → (r : Result TaskResult × W) → methods.load_status s.world ≡ r
          → Post (λ r s. Verdict r s.calls) (λ _. Any) (rejoin (method load_status ∷ s.calls) r)
      reported s p (ok a, w) e =
          inl (s.calls, refl, record { before = s.world; after = w; run = e }, p)
      reported s p (raise x, w) e = tt
      reported s p (no_fuel, w) e = tt

  -- What `load` returns is one of two. Either it is the answer of `load_status`, asked last, and the newest
  -- status of the visit is what visit_status said, with the identifier of the snapshot loaded by then.
  -- Or the body of the `try` statement raised an exception: for NotFound the task is uneventful and the
  -- newest status of the visit is not_found; for any other exception the task failed with the exception's
  -- message and the newest status of the visit is partial if a snapshot was loaded when the body raised,
  -- and failed otherwise. That status has the identifier of the snapshot loaded when the body raised.
  pub load-Verdict :
      (w : W)
      → Post
          (λ r s. Verdict r s.calls)
          (λ _ _. Unit)
          (load config methods storage parent_origins fetchers fuel (start w))
  unfolding load Any
  load-Verdict w =
      (Triple-after _ λ _. Triple-after _ λ visit. Triple-after _ λ number. Triple-after _ λ _.
          Triple-bind
            (Triple-try_finally (attempt-Tried number) wind_up-Tried (λ e. record {
              run = λ s _. Any-Post (wind_up config methods storage parent_origins fetchers s);
            }))
            or_load_status-Verdict).run
        (start w) tt
