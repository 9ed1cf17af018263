-- ===== src/Effects/Hoare.antt =====
-- Statements about what an action leaves behind, with one rule for each way to build an action.
use swh_loader_core.Prelude.{◌≡◌, Bool, true, false, refl}
use swh_loader_core.Effects.{
  Exception, Result, ok, raise, no_fuel, Exec, pure, throw, handle, finish, restore, try_base,
  try_except, try_finally, continue, is_exception, ◌>>=◌,
}

-- What holds behind a finished action: `Q` if it returned, `R` if it raised.
abbrev pub Post :
    {S A : Type 0} → (A → S → Type 0) → (Exception → S → Type 0) → Result A × S → Type 0
Post Q R (ok a, s) = Q a s
Post Q R (raise e, s) = R e s
Post Q R (no_fuel, s) = Unit

-- From a state in `P` the action ends in `Q` or raises in `R`.
pub record Triple {S A : Type 0} (P : S → Type 0) (m : Exec S A) (Q : A → S → Type 0)
    (R : Exception → S → Type 0) : Type 0 where
  pub run : (s : S) → P s → Post Q R (m s)

module _ {S A : Type 0} {P : S → Type 0} {Q : A → S → Type 0} {R : Exception → S → Type 0} where
  pub Triple-pure : (a : A) → ((s : S) → P s → Q a s) → Triple P (pure a) Q R
  unfolding pure
  Triple-pure a h = record { run = h }

  pub Triple-throw : (e : Exception) → ((s : S) → P s → R e s) → Triple P (throw e) Q R
  unfolding throw
  Triple-throw e h = record { run = h }

  pub Triple-weaken :
      {m : Exec S A} {P' : S → Type 0} → ((s : S) → P s → P' s) → Triple P' m Q R → Triple P m Q R
  Triple-weaken w t = record { run = λ s p. t.run s (w s p) }

  pub Triple-elim :
      (b : Bool) {m n : Exec S A}
      → (b ≡ true → Triple P m Q R)
      → (b ≡ false → Triple P n Q R)
      → Triple P (elim b [ true ↦ m | false ↦ n ]) Q R
  Triple-elim true hm hn = hm refl
  Triple-elim false hm hn = hn refl

module _ {S A B : Type 0} {Q : A → S → Type 0} {T : B → S → Type 0}
    {R : Exception → S → Type 0} where
  pub continue-Post :
      (f : A → Exec S B) (r : Result A × S)
      → ((a : A) → Triple (Q a) (f a) T R)
      → Post Q R r
      → Post T R (continue f r)
  continue-Post f (ok a, s) h p = (h a).run s p
  continue-Post f (raise e, s) h p = p
  continue-Post f (no_fuel, s) h p = tt

  pub Triple-bind :
      {P : S → Type 0} {m : Exec S A} {f : A → Exec S B}
      → Triple P m Q R
      → ((a : A) → Triple (Q a) (f a) T R)
      → Triple P (m >>= f) T R
  unfolding ◌>>=◌
  Triple-bind {m} {f} hm hf = record { run = λ s p. continue-Post f (m s) hf (hm.run s p) }

module _ {S A : Type 0} {Q : A → S → Type 0} {R T : Exception → S → Type 0} where
  handle-Post :
      (h : Exception → Exec S A) (r : Result A × S)
      → ((e : Exception) → Triple (T e) (h e) Q R)
      → Post Q T r
      → Post Q R (handle h r)
  handle-Post h (ok a, s) k p = p
  handle-Post h (raise e, s) k p = (k e).run s p
  handle-Post h (no_fuel, s) k p = tt

  pub Triple-try_base :
      {P : S → Type 0} {m : Exec S A} {h : Exception → Exec S A}
      → Triple P m Q T
      → ((e : Exception) → Triple (T e) (h e) Q R)
      → Triple P (try_base m h) Q R
  unfolding try_base
  Triple-try_base {m} {h} hm k = record { run = λ s p. handle-Post h (m s) k (hm.run s p) }

  pub Triple-try_except :
      {P : S → Type 0} {m : Exec S A} {h : Exception → Exec S A}
      → Triple P m Q T
      → ((e : Exception) → is_exception e ≡ true → Triple (T e) (h e) Q R)
      → ((e : Exception) (s : S) → is_exception e ≡ false → T e s → R e s)
      → Triple P (try_except m h) Q R
  unfolding try_except
  Triple-try_except {h} hm k other =
      Triple-try_base hm
        λ e. Triple-elim (is_exception e) (k e) (λ b. Triple-throw e (λ s. other e s b))

  pub Triple-try_finally :
      {P : S → Type 0} {Q' : A → S → Type 0} {m : Exec S A} {cleanup : Exec S (Unit {0})}
      → Triple P m Q' T
      → ((a : A) → Triple (Q' a) cleanup (λ _. Q a) R)
      → ((e : Exception) → Triple (T e) cleanup (λ _. R e) R)
      → Triple P (try_finally m cleanup) Q R
  unfolding try_finally
  Triple-try_finally {Q'} {m} {cleanup} hm ka ke = record { run = λ s p. go (m s) (hm.run s p) }
    where
      go_ok :
          (a : A) (r : Result (Unit {0}) × S) → Post (λ _. Q a) R r → Post Q R (restore (ok a) r)
      go_ok a (ok _, s) p = p
      go_ok a (raise e, s) p = p
      go_ok a (no_fuel, s) p = tt

      go_raise :
          (e : Exception) (r : Result (Unit {0}) × S)
          → Post (λ _. R e) R r
          → Post Q R (restore {A = A} (raise e) r)
      go_raise e (ok _, s) p = p
      go_raise e (raise e', s) p = p
      go_raise e (no_fuel, s) p = tt

      go : (r : Result A × S) → Post Q' T r → Post Q R (finish cleanup r)
      go (ok a, s) p = go_ok a (cleanup s) ((ka a).run s p)
      go (raise e, s) p = go_raise e (cleanup s) ((ke e).run s p)
      go (no_fuel, s) p = tt

-- Nothing is said of an exception.
abbrev pub Any : {S : Type 0} → Exception → S → Type 0
Any e s = Unit

-- A stronger statement on the result, where exceptions do not count.
pub Post-map :
    {S A : Type 0} {Q Q' : A → S → Type 0}
    → ((a : A) (s : S) → Q a s → Q' a s)
    → (r : Result A × S) → Post Q Any r
    → Post Q' Any r
Post-map f (ok a, s) h = f a s h
Post-map f (raise e, s) h = tt
Post-map f (no_fuel, s) h = tt

-- A weaker statement on exceptions.
pub Triple-raise :
    {S A : Type 0} {P : S → Type 0} {Q : A → S → Type 0} {R R' : Exception → S → Type 0}
    {m : Exec S A}
    → ((e : Exception) (s : S) → R e s → R' e s)
    → Triple P m Q R
    → Triple P m Q R'
Triple-raise {S} {A} {Q} {R} {R'} {m} f t = record { run = λ s p. weaker (m s) (t.run s p) }
  where
    weaker : (r : Result A × S) → Post Q R r → Post Q R' r
    weaker (ok a, s) h = h
    weaker (raise e, s) h = f e s h
    weaker (no_fuel, s) h = tt

Post-forget :
    {S A : Type 0} (Q : A → S → Type 0) (R : Exception → S → Type 0) (r : Result A × S)
    → Post Q R r
    → Post Q Any r
Post-forget Q R (ok a, s) h = h
Post-forget Q R (raise e, s) h = tt
Post-forget Q R (no_fuel, s) h = tt

pub Triple-forget :
    {S A : Type 0} {P : S → Type 0} {Q : A → S → Type 0} {R : Exception → S → Type 0} {m : Exec S A}
    → Triple P m Q R
    → Triple P m Q Any
Triple-forget {Q} {R} {m} h = record { run = λ s p. Post-forget Q R (m s) (h.run s p) }

-- Some run of the action returned the value.
pub record Returned {S A : Type 0} (m : Exec S A) (a : A) : Type 0 where
  pub before : S
  pub after : S
  pub run : m before ≡ (ok a, after)

Returned-Post :
    {S A : Type 0} (P : Type 0) (m : Exec S A) (s : S) (r : Result A × S)
    → P
    → m s ≡ r
    → Post (λ a t. P × Returned m a) Any r
Returned-Post P m s (ok a, t) p e = (p, record { before = s; after = t; run = e })
Returned-Post P m s (raise x, t) p e = tt
Returned-Post P m s (no_fuel, t) p e = tt

-- For statements on values: what is known before a step is known after it, with the value's origin.
pub Triple-Returned :
    {S A : Type 0} {P : Type 0} (m : Exec S A) → Triple (λ _. P) m (λ a _. P × Returned m a) Any
Triple-Returned {P} m = record { run = λ s p. Returned-Post P m s (m s) p refl }

Any-Post : {S A : Type 0} (r : Result A × S) → Post (λ a s. Unit {0}) Any r
Any-Post (ok a, s) = tt
Any-Post (raise e, s) = tt
Any-Post (no_fuel, s) = tt

-- A step of which nothing has to be known.
pub Triple-Any : {S A : Type 0} {P : S → Type 0} (m : Exec S A) → Triple P m (λ a s. Unit {0}) Any
Triple-Any m = record { run = λ s p. Any-Post (m s) }

pub Triple-skip :
    {S A B : Type 0} {P : S → Type 0} {T : B → S → Type 0} (m : Exec S A) {f : A → Exec S B}
    → ((a : A) → Triple (λ s. Unit {0}) (f a) T Any)
    → Triple P (m >>= f) T Any
Triple-skip m h = Triple-bind (Triple-Any m) h

frame_Post :
    {S A : Type 0} {F : Type 0} (Q : A → S → Type 0) (r : Result A × S)
    → F
    → Post Q Any r
    → Post (λ a s. F × Q a s) Any r
frame_Post Q (ok a, s) f h = (f, h)
frame_Post Q (raise e, s) f h = tt
frame_Post Q (no_fuel, s) f h = tt

-- A fact about values is kept beside what a step establishes.
pub Triple-frame :
    {S A : Type 0} {F : Type 0} {Q : A → S → Type 0} {m : Exec S A}
    → Triple (λ s. Unit {0}) m Q Any
    → Triple (λ s. F) m (λ a s. F × Q a s) Any
Triple-frame {Q} {m} h = record { run = λ s f. frame_Post Q (m s) f (h.run s tt) }
