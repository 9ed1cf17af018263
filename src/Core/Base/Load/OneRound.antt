-- ===== src/Core/Base/Load/OneRound.antt =====
-- core/loader.py: a loader whose fetch_data has never more to fetch takes one round of the loop of
-- BaseLoader.load.
use mathlib.Core.Path.{subst}
use swh_loader_core.Prelude.{ℕ, suc, ◌≡◌, refl, ap, sym, ◌∙◌, Bool, true, false, ◌&&◌, List, arith}
use swh_loader_core.Effects.{Result, ok, raise, no_fuel, Exec, pure, continue, ◌>>=◌}
use swh_loader_core.Effects.Hoare.{
  Post, Triple, Any, Triple-pure, Triple-bind, Triple-skip, Triple-elim,
}
use swh_loader_core.Effects.Fuel.{Ends, Converges}
use swh_loader_core.Model.{TaskResult}
use swh_loader_core.Storage.{Storage, Logged, Call, call, rejoin}
use swh_loader_core.Core.Base.Init.{Config}
use swh_loader_core.Core.Base.Metadata.{ParentOrigins, Fetcher}
use swh_loader_core.Core.Base.Load.{Methods, load, round, ingest, ingest_visit, attempt}

-- An action that returns nothing but false.
abbrev pub Denies : {S : Type 0} → Exec S Bool → Type 0
Denies {S} m = Triple {S = S} (λ s. Unit {0}) m (λ more s. more ≡ false) Any

module _ {W : Type 0} where
  rejoin-Post :
      (calls : List Call) (r : Result Bool × W)
      → Post (λ more s. more ≡ false) Any r
      → Post (λ more s. more ≡ false) Any (rejoin calls r)
  rejoin-Post calls (ok more, w) h = h
  rejoin-Post calls (raise e, w) h = tt
  rejoin-Post calls (no_fuel, w) h = h

  call-Denies : (c : Call) {m : Exec W Bool} → Denies m → Denies (call c m)
  unfolding call
  call-Denies c {m} h = record { run = λ s p. rejoin-Post _ (m s.world) (h.run s.world tt) }

denied : (p f : Bool) → f ≡ false → (p && f) ≡ false
denied true f e = e
denied false f e = refl

given :
    {S A F : Type 0} {m : Exec S A} {Q : A → S → Type 0}
    → (F → Triple (λ s. Unit {0}) m Q Any)
    → Triple (λ s. F) m Q Any
given h = record { run = λ s f. (h f).run s tt }

skip_rest :
    {S : Type 0} (k : Bool → Exec S (Unit {0})) (j : Bool → Exec S (Unit {0})) (r : Result Bool × S)
    → k false ≡ j false
    → Post (λ more s. more ≡ false) Any r
    → continue k r ≡ continue j r
skip_rest k j (ok true, s) e h = absurd (cc)
skip_rest k j (ok false, s) e h = ap (λ (m : Exec _ (Unit {0})). m s) e
skip_rest k j (raise x, s) e h = refl
skip_rest k j (no_fuel, s) e h = refl

module _ {W : Type 0} (config : Config) (methods : Methods W) (storage : Storage W)
    (parent_origins : ParentOrigins W) (fetchers : List (Fetcher W))
    (no_more : Denies methods.fetch_data) where
  round-Denies : (visit : ℕ) → Denies (round config methods storage parent_origins fetchers visit)
  unfolding round
  round-Denies visit = Triple-bind (call-Denies _ no_more) λ fetch_more. given λ e.
      Triple-skip _ λ process_more. Triple-skip _ λ _.
        Triple-elim ((process_more && fetch_more) && config.create_partial_snapshot)
          (λ _.
            Triple-skip _
              λ s. Triple-skip _ λ _. Triple-pure _ (λ w p. denied process_more fetch_more e))
          (λ _. Triple-pure _ (λ w p. denied process_more fetch_more e))

  pub never_again :
      (visit : ℕ) (s s' : Logged W)
      → ¬ (round config methods storage parent_origins fetchers visit s ≡ (ok true, s'))
  never_again visit s s' e =
      absurd (cc (subst (Post (λ more s. more ≡ false) Any) e ((round-Denies visit).run s tt)))

  -- What follows a round, with fuel for some more.
  abbrev after_round : (fuel visit : ℕ) → Bool → Exec (Logged W) (Unit {0})
  after_round fuel visit more = elim more [
    | true ↦ ingest config methods storage parent_origins fetchers fuel visit
    | false ↦ pure tt
  ]

  ingest_once :
      (k visit : ℕ)
      → ingest config methods storage parent_origins fetchers (suc k) visit
        ≡ ingest config methods storage parent_origins fetchers 1 visit
  unfolding ingest ◌>>=◌
  ingest_once k visit i s =
      skip_rest (after_round k visit) (after_round 0 visit)
        (round config methods storage parent_origins fetchers visit s) refl
        ((round-Denies visit).run s tt) i

  attempt_once :
      (k : ℕ)
      → attempt config methods storage parent_origins fetchers (suc k)
        ≡ attempt config methods storage parent_origins fetchers 1
  unfolding attempt ingest_visit
  attempt_once k i visit = again visit i
    where
      again :
          (visit : ℕ)
          → attempt config methods storage parent_origins fetchers (suc k) visit
            ≡ attempt config methods storage parent_origins fetchers 1 visit
      again visit = rw (ingest_once k visit) refl

  load_once :
      (k : ℕ)
      → load config methods storage parent_origins fetchers (suc k)
        ≡ load config methods storage parent_origins fetchers 1
  unfolding load
  load_once k = rw (attempt_once k) refl

  -- One round is enough, and more change nothing.
  pub load-Converges_once :
      (s : Logged W)
      → Converges (load config methods storage parent_origins fetchers) s
      → Ends (load config methods storage parent_origins fetchers 1 s)
        × ((k : ℕ)
            → load config methods storage parent_origins fetchers (suc k) s
              ≡ load config methods storage parent_origins fetchers 1 s)
  load-Converges_once s c =
      let once = λ (k : ℕ). ap (λ (m : Exec (Logged W) TaskResult). m s) (load_once k) in
      (subst Ends (sym (c.stable (suc c.enough) (omega arith)) ∙ once c.enough) c.ends, once)
