-- ===== src/Core/Utils/Cloning.antt =====
-- core/utils.py: clone_with_timeout leaves no process behind that is still running and was not killed.
use swh_loader_core.Prelude.{ℕ, zero, suc, String, ◌≡◌, refl, Bool, true, false, List, [], ◌∷◌}
use swh_loader_core.Effects.{Result, ok, raise, no_fuel, pure, continue, ◌>>=◌, ◌>>◌}
use swh_loader_core.Effects.Hoare.{
  Post, Post-map, continue-Post, Triple, Any, Returned, Triple-Returned, Triple-bind, Triple-pure,
  Triple-skip,
}
use swh_loader_core.Effects.Fuel.{Ends, Halts, Halts-pure, Halts-bind, Halts-if}
use swh_loader_core.Core.Utils.{
  Process, CloneOutcome, cloned, clone_timeout, clone_failure, wait_or_kill, failure_of,
  clone_with_timeout,
}

module _ {W : Type 0} (process : Process W) where
  -- Each operation on the process comes back.
  pub record Responds : Type 0 where
    pub start : Halts process.start
    pub join : (timeout : ℕ) → Halts (process.join timeout)
    pub is_alive : Halts process.is_alive
    pub terminate : Halts process.terminate
    pub kill : Halts process.kill
    pub sleep : Halts process.sleep
    pub errors : Halts process.errors

  -- The rounds after the child was told to terminate, from a state to the last one: it is asked for until it
  -- is seen dead, or the rounds are used up and it is killed.
  pub data Waits : ℕ → W → (killed : Bool) → W → Type 0 where
    dead :
        (n : ℕ) (w w1 w2 : W)
        → process.sleep w ≡ (ok tt, w1)
        → process.is_alive w1 ≡ (ok false, w2)
        → Waits (suc n) w false w2
    again :
        (n : ℕ) (w w1 w2 w3 : W) (killed : Bool)
        → process.sleep w ≡ (ok tt, w1)
        → process.is_alive w1 ≡ (ok true, w2)
        → Waits n w2 killed w3
        → Waits (suc n) w killed w3
    kill : (w w1 : W) → process.kill w ≡ (ok tt, w1) → Waits zero w true w1

  -- What has been seen of the process, up to the state in which clone_with_timeout returns.
  abbrev pub Seen : CloneOutcome → W → Type 0
  Seen cloned v = Returned process.is_alive false × Returned process.errors []
  Seen (clone_failure e) v =
      Returned process.is_alive false × ((rest : List String) × Returned process.errors (e ∷ rest))
  Seen (clone_timeout killed) v =
      (a : W) × (b : W) × ((process.terminate a ≡ (ok tt, b)) × Waits 10 b killed v)

  wait_or_kill-Waits : (n : ℕ) (w : W) → Post (λ k v. Waits n w k v) Any (wait_or_kill process n w)
  unfolding wait_or_kill ◌>>=◌ pure
  wait_or_kill-Waits zero w = killed (process.kill w) refl
    where
      killed :
          (r : Result (Unit {0}) × W)
          → process.kill w ≡ r
          → Post (λ k v. Waits zero w k v) Any (continue (λ u. pure true) r)
      killed (ok a, v) e = kill w v e
      killed (raise x, v) e = tt
      killed (no_fuel, v) e = tt
  wait_or_kill-Waits (suc n) w = slept (wait_or_kill-Waits n) (process.sleep w) refl
    where
      alive :
          ((v : W) → Post (λ k t. Waits n v k t) Any (wait_or_kill process n v))
          → (w1 : W) → process.sleep w ≡ (ok tt, w1)
          → (r : Result Bool × W) → process.is_alive w1 ≡ r
          → Post
              (λ k t. Waits (suc n) w k t)
              Any
              (continue (λ b. elim b [ true ↦ wait_or_kill process n | false ↦ pure false ]) r)
      alive rest w1 es (ok true, w2) e =
          Post-map (λ k t h. again n w w1 w2 t k es e h) (wait_or_kill process n w2) (rest w2)
      alive rest w1 es (ok false, w2) e = dead n w w1 w2 es e
      alive rest w1 es (raise x, w2) e = tt
      alive rest w1 es (no_fuel, w2) e = tt

      slept :
          ((v : W) → Post (λ k t. Waits n v k t) Any (wait_or_kill process n v))
          → (r : Result (Unit {0}) × W) → process.sleep w ≡ r
          → Post
              (λ k t. Waits (suc n) w k t)
              Any
              (continue
                (λ u. process.is_alive >>= λ b. elim b [
                  | true ↦ wait_or_kill process n
                  | false ↦ pure false
                ])
                r)
      slept rest (ok a, w1) e = alive rest w1 e (process.is_alive w1) refl
      slept rest (raise x, w1) e = tt
      slept rest (no_fuel, w1) e = tt

  wait_or_kill-Halts : Responds → (n : ℕ) → Halts (wait_or_kill process n)
  unfolding wait_or_kill
  wait_or_kill-Halts r zero = Halts-bind r.kill (λ u. Halts-pure true)
  wait_or_kill-Halts r (suc n) =
      Halts-bind r.sleep λ u.
        Halts-bind r.is_alive λ alive. Halts-if alive (wait_or_kill-Halts r n) (Halts-pure false)

  clone-Halts : Responds → (timeout : ℕ) → Halts (clone_with_timeout process timeout)
  unfolding clone_with_timeout
  clone-Halts r timeout = Halts-bind r.start λ u. Halts-bind (r.join timeout) λ u.
      Halts-bind r.is_alive λ alive.
        Halts-if alive
          (Halts-bind r.terminate
            λ u. Halts-bind (wait_or_kill-Halts r 10) (λ killed. Halts-pure (clone_timeout killed)))
          (Halts-bind r.errors (λ errors. Halts-pure (failure_of process errors)))

  after_errors :
      (errors : List String)
      → Returned process.is_alive false
      → Returned process.errors errors
      → (v : W) → Seen (failure_of process errors) v
  after_errors [] a e v = (a, e)
  after_errors (x ∷ errors) a e v = (a, (errors, e))

  terminated :
      (w : W) (r : Result (Unit {0}) × W)
      → process.terminate w ≡ r
      → Post Seen Any
          (continue (λ u. wait_or_kill process 10 >>= λ killed. pure (clone_timeout killed)) r)
  unfolding ◌>>=◌
  terminated w (ok a, b) e =
      continue-Post {R = Any} (λ killed. pure (clone_timeout killed)) (wait_or_kill process 10 b)
        (λ killed. Triple-pure (clone_timeout killed) (λ v h. (w, b, (e, h))))
        (wait_or_kill-Waits 10 b)
  terminated w (raise x, b) e = tt
  terminated w (no_fuel, b) e = tt

  terminate-Seen :
      Triple
        (λ w. Unit {0} × Returned process.is_alive true)
        (process.terminate >>= λ u.
          wait_or_kill process 10 >>= λ killed. pure (clone_timeout killed))
        Seen
        Any
  unfolding ◌>>=◌
  terminate-Seen = record { run = λ w p. terminated w (process.terminate w) refl }

  clone-Seen : (timeout : ℕ) → Triple (λ w. Unit {0}) (clone_with_timeout process timeout) Seen Any
  unfolding clone_with_timeout
  clone-Seen timeout =
      Triple-skip _ λ u. Triple-skip _ λ v. Triple-bind (Triple-Returned process.is_alive) by_alive
    where
      by_alive :
          (alive : Bool)
          → Triple {S = W}
              (λ w. Unit {0} × Returned process.is_alive alive)
              (elim alive [
                | true ↦ do
                  process.terminate
                  killed ← wait_or_kill process 10
                  pure (clone_timeout killed)
                | false ↦ do errors ← process.errors; pure (failure_of process errors)
              ])
              Seen
              Any
      by_alive true = terminate-Seen
      by_alive false = Triple-bind (Triple-Returned process.errors) (λ errors.
          Triple-pure (failure_of process errors) (λ w p. after_errors errors p.0.1 p.1 w))

  -- If each operation on the child process comes back, clone_with_timeout ends, whatever the child does; and if it
  -- returns, then the child was seen dead, and its first error is reported, or the child was told to
  -- terminate and after that, in at most ten rounds, either seen dead or, the rounds used up, killed,
  -- and nothing was done since.
  pub clone_with_timeout-Ends :
      Responds
      → (timeout : ℕ) (w : W)
      → Ends (clone_with_timeout process timeout w)
        × Post Seen Any (clone_with_timeout process timeout w)
  clone_with_timeout-Ends r timeout w =
      ((clone-Halts r timeout).ends w, (clone-Seen timeout).run w tt)
