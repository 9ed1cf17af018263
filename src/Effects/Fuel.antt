-- ===== src/Effects/Fuel.antt =====
-- Actions on fuel that end: from some amount on, more fuel changes nothing.
use swh_loader_core.Prelude.{ℕ, ◌≤◌, ◌≡◌, refl, ap, Bool, true, false}
use swh_loader_core.Effects.{
  Exception, Result, ok, raise, no_fuel, Exec, pure, throw, gets, modify, assert, handle, finish,
  restore, continue, try_base, try_except, try_finally, is_exception, ◌>>=◌,
}

abbrev pub Ends : {S A : Type 0} → Result A × S → Type 0
Ends (no_fuel, s) = ⊥
Ends (ok a, s) = Unit
Ends (raise e, s) = Unit

-- An action without fuel that ends from every state.
pub record Halts {S A : Type 0} (m : Exec S A) : Type 0 where
  pub ends : (s : S) → Ends (m s)

-- With `enough` fuel the action ends, and more fuel gives the same.
pub record Converges {S A : Type 0} (m : ℕ → Exec S A) (s : S) : Type 0 where
  pub enough : ℕ
  pub ends : Ends (m enough s)
  pub stable : (k : ℕ) → enough ≤ k → m k s ≡ m enough s

module _ {S : Type 0} where
  pub Halts-modify : (f : S → S) → Halts (modify f)
  unfolding modify
  Halts-modify f = record { ends = λ s. tt }

  pub Halts-assert : (b : Bool) → Halts {S = S} (assert b)
  unfolding assert
  Halts-assert true = record { ends = λ s. tt }
  Halts-assert false = record { ends = λ s. tt }

module _ {S A : Type 0} where
  pub Halts→Converges : {m : Exec S A} → Halts m → (s : S) → Converges (λ _. m) s
  Halts→Converges h s = record { enough = 0; ends = h.ends s; stable = λ k _. refl }

  pub Halts-pure : (a : A) → Halts {S = S} (pure a)
  unfolding pure
  Halts-pure a = record { ends = λ s. tt }

  pub Halts-throw : (e : Exception) → Halts {S = S} {A = A} (throw e)
  unfolding throw
  Halts-throw e = record { ends = λ s. tt }

  pub Halts-gets : (f : S → A) → Halts (gets f)
  unfolding gets
  Halts-gets f = record { ends = λ s. tt }

  pub Halts-if :
      (b : Bool) {m n : Exec S A} → Halts m → Halts n → Halts (elim b [ true ↦ m | false ↦ n ])
  Halts-if true hm hn = hm
  Halts-if false hm hn = hn

module _ {S A B : Type 0} where
  continue-Ends :
      (f : A → Exec S B) (r : Result A × S) → Ends r → ((a : A) → Halts (f a)) → Ends (continue f r)
  continue-Ends f (ok a, s) e h = (h a).ends s
  continue-Ends f (raise x, s) e h = tt
  continue-Ends f (no_fuel, s) e h = e

  pub Halts-bind :
      {m : Exec S A} {f : A → Exec S B} → Halts m → ((a : A) → Halts (f a)) → Halts (m >>= f)
  unfolding ◌>>=◌
  Halts-bind {m} {f} hm hf = record { ends = λ s. continue-Ends f (m s) (hm.ends s) hf }

module _ {S A : Type 0} where
  handle-Ends :
      (h : Exception → Exec S A) (r : Result A × S)
      → Ends r
      → ((e : Exception) → Halts (h e))
      → Ends (handle h r)
  handle-Ends h (ok a, s) e k = tt
  handle-Ends h (raise x, s) e k = (k x).ends s
  handle-Ends h (no_fuel, s) e k = e

  pub Halts-try_base :
      {m : Exec S A} {h : Exception → Exec S A}
      → Halts m
      → ((e : Exception) → Halts (h e))
      → Halts (try_base m h)
  unfolding try_base
  Halts-try_base {m} {h} hm k = record { ends = λ s. handle-Ends h (m s) (hm.ends s) k }

  pub Halts-try_except :
      {m : Exec S A} {h : Exception → Exec S A}
      → Halts m
      → ((e : Exception) → Halts (h e))
      → Halts (try_except m h)
  unfolding try_except
  Halts-try_except hm k = Halts-try_base hm λ e. Halts-if (is_exception e) (k e) (Halts-throw e)

module _ {S A B : Type 0} where
  -- The rest converges from each outcome that the first part can have.
  continue-Converges :
      (f : ℕ → A → Exec S B) (r : Result A × S)
      → Ends r
      → ((a : A) (s : S) → Converges (λ n. f n a) s)
      → (n : ℕ) × Ends (continue (f n) r) × ((k : ℕ) → n ≤ k → continue (f k) r ≡ continue (f n) r)
  continue-Converges f (ok a, s) e h = let c = h a s in (c.enough, c.ends, c.stable)
  continue-Converges f (raise x, s) e h = (0, tt, λ k _. refl)
  continue-Converges f (no_fuel, s) e h = absurd e

  pub Converges-bind_halts :
      {m : Exec S A} {f : ℕ → A → Exec S B}
      → Halts m
      → ((a : A) (s : S) → Converges (λ n. f n a) s)
      → (s : S) → Converges (λ n. m >>= f n) s
  unfolding ◌>>=◌
  Converges-bind_halts {m} {f} hm hf s =
      let (n, ends, stable) = continue-Converges f (m s) (hm.ends s) hf in
      record { enough = n; ends = ends; stable = stable }

  pub Converges-bind :
      {m : ℕ → Exec S A} {f : A → Exec S B} {s : S}
      → Converges m s
      → ((a : A) → Halts (f a))
      → Converges (λ n. m n >>= f) s
  unfolding ◌>>=◌
  Converges-bind {m} {f} {s} c h = record {
    enough = c.enough;
    ends = continue-Ends f (m c.enough s) c.ends h;
    stable = λ k le. ap (continue f) (c.stable k le);
  }

module _ {S A : Type 0} where
  pub Converges-try_base :
      {m : ℕ → Exec S A} {h : Exception → Exec S A} {s : S}
      → Converges m s
      → ((e : Exception) → Halts (h e))
      → Converges (λ n. try_base (m n) h) s
  unfolding try_base
  Converges-try_base {m} {h} {s} c k = record {
    enough = c.enough;
    ends = handle-Ends h (m c.enough s) c.ends k;
    stable = λ n le. ap (handle h) (c.stable n le);
  }

  restore-Ends :
      (a : Result A) (r : Result (Unit {0}) × S)
      → Ends {S = S} (a, r.1)
      → Ends r
      → Ends (restore a r)
  restore-Ends a (ok _, s) e x = e
  restore-Ends a (raise _, s) e x = tt
  restore-Ends a (no_fuel, s) e x = x

  finish-Ends :
      (cleanup : Exec S (Unit {0})) (r : Result A × S)
      → Ends r
      → Halts cleanup
      → Ends (finish cleanup r)
  finish-Ends cleanup (ok a, s) e h = restore-Ends (ok a) (cleanup s) tt (h.ends s)
  finish-Ends cleanup (raise x, s) e h = restore-Ends (raise x) (cleanup s) tt (h.ends s)
  finish-Ends cleanup (no_fuel, s) e h = e

  pub Halts-try_finally :
      {m : Exec S A} {cleanup : Exec S (Unit {0})}
      → Halts m
      → Halts cleanup
      → Halts (try_finally m cleanup)
  unfolding try_finally
  Halts-try_finally {m} {cleanup} hm h = record {
    ends = λ s. finish-Ends cleanup (m s) (hm.ends s) h;
  }

  pub Converges-try_finally :
      {m : ℕ → Exec S A} {cleanup : Exec S (Unit {0})} {s : S}
      → Converges m s
      → Halts cleanup
      → Converges (λ n. try_finally (m n) cleanup) s
  unfolding try_finally
  Converges-try_finally {m} {cleanup} {s} c h = record {
    enough = c.enough;
    ends = finish-Ends cleanup (m c.enough s) c.ends h;
    stable = λ n le. ap (finish cleanup) (c.stable n le);
  }
