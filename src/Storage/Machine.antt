-- ===== src/Storage/Machine.antt =====
-- State machines that read a log of calls, and the rules for the calls in terms of them.
use swh_loader_core.Prelude.{◌≡◌, true, List, [], ◌∷◌}
use swh_loader_core.Effects.{Exec, Result, ok, raise, no_fuel}
use swh_loader_core.Effects.Hoare.{Post}
use swh_loader_core.Effects.Reaches.{Phases, Part, Reaches, Keeps}
use swh_loader_core.Storage.{Storage, Logged, Call, call, read, read_clock, rejoin}

-- The state that a log, the latest call first, leads to.
unfoldable pub run_calls : {X : Type 0} → X → (X → Call → X) → List Call → X
run_calls x step [] = x
run_calls x step (c ∷ calls) = step (run_calls x step calls) c

pub record Machine (X : Type 0) : Type 0 where
  pub first : X
  pub step : X → Call → X

module _ {X : Type 0} (machine : Machine X) where
  unfoldable pub progress : {W : Type 0} → Logged W → X
  unfolding run_calls
  progress s = run_calls machine.first machine.step s.calls

  module _ {W A : Type 0} (K' : A → Phases X) (R : Phases X) (calls : List Call)
      (h : (a : A) → K' a (run_calls machine.first machine.step calls) ≡ true)
      (hr : R (run_calls machine.first machine.step calls) ≡ true) where
    rejoin-Post :
        (r : Result A × W)
        → Post
            (λ a s. K' a (run_calls machine.first machine.step s.calls) ≡ true)
            (λ _ s. R (run_calls machine.first machine.step s.calls) ≡ true)
            (rejoin calls r)
    rejoin-Post (ok a, w) = h a
    rejoin-Post (raise e, w) = hr
    rejoin-Post (no_fuel, w) = tt

module _ {X : Type 0} (machine : Machine X) where
  pub Reaches-call :
      {W A : Type 0} {K R : Phases X} {K' : A → Phases X} (c : Call) (m : Exec W A)
      → ((a : A) (x : X) → K x ≡ true → K' a (machine.step x c) ≡ true)
      → ((x : X) → K x ≡ true → R (machine.step x c) ≡ true)
      → Reaches (progress machine) K (call c m) K' R
  unfolding call progress
  Reaches-call {R} {K'} c m h hr = record {
    triple = record {
      run = λ s k.
          rejoin-Post machine K' R (c ∷ s.calls)
            (λ a. h a (run_calls machine.first machine.step s.calls) k)
            (hr (run_calls machine.first machine.step s.calls) k) (m s.world);
    };
  }

  pub Reaches-read :
      {W A : Type 0} {K R : Phases X} {K' : A → Phases X} (m : Exec W A)
      → ((a : A) → Part K (K' a))
      → Part K R
      → Reaches (progress machine) K (read m) K' R
  unfolding read progress
  Reaches-read {R} {K'} m h hr = record {
    triple = record {
      run = λ s k.
          rejoin-Post machine K' R s.calls
            (λ a. h a (run_calls machine.first machine.step s.calls) k)
            (hr (run_calls machine.first machine.step s.calls) k) (m s.world);
    };
  }

  pub Reaches-clock :
      {W : Type 0} (storage : Storage W) {K R : Phases X}
      → Reaches (progress machine) K (read_clock storage) (λ _. K) R
  unfolding read_clock progress
  Reaches-clock storage = record { triple = record { run = λ s k. k } }

  pub Keeps-call :
      {W A : Type 0} {K : Phases X} (c : Call) (m : Exec W A)
      → ((x : X) → K x ≡ true → K (machine.step x c) ≡ true)
      → Keeps (progress machine) K (call c m)
  Keeps-call c m h = record { reaches = Reaches-call c m (λ _. h) h }

  pub Keeps-read :
      {W A : Type 0} {K : Phases X} (m : Exec W A) → Keeps (progress machine) K (read m)
  Keeps-read m = record { reaches = Reaches-read m (λ _ x k. k) (λ x k. k) }

  pub Keeps-clock :
      {W : Type 0} (storage : Storage W) {K : Phases X}
      → Keeps (progress machine) K (read_clock storage)
  Keeps-clock storage = record { reaches = Reaches-clock storage }
