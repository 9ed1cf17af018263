-- ===== src/Effects/Reaches.antt =====
-- Actions over a state machine: from a phase in `K` an action ends in a phase in `K'` if it
-- returns, and in `R` if it raises. `view` reads the phase off the state.
use swh_loader_core.Prelude.{◌≡◌, refl, Bool, true, false, Option, none, some}
use swh_loader_core.Effects.{
  Exception, Result, ok, raise, no_fuel, assertion_error, Exec, pure, throw, gets, assert, expect,
  try_base, try_except, try_finally, is_exception, ◌>>=◌,
}
use swh_loader_core.Effects.Hoare.{
  Post, Triple, Triple-pure, Triple-throw, Triple-bind, Triple-try_base, Triple-try_except,
  Triple-try_finally,
}

-- A set of phases.
abbrev pub Phases : Type 0 → Type 0
Phases X = X → Bool

pub record Reaches {S X A : Type 0} (view : S → X) (K : Phases X) (m : Exec S A) (K' : A → Phases X)
    (R : Phases X) : Type 0 where
  pub triple :
      Triple (λ s. K (view s) ≡ true) m (λ a s. K' a (view s) ≡ true) (λ e s. R (view s) ≡ true)

-- `K` is a part of `L`.
abbrev pub Part : {X : Type 0} → Phases X → Phases X → Type 0
Part {X} K L = (x : X) → K x ≡ true → L x ≡ true

loosen-Post :
    {S A : Type 0} (Q : A → S → Type 0) (R R' : Exception → S → Type 0)
    → ((e : Exception) (s : S) → R e s → R' e s)
    → (r : Result A × S) → Post Q R r
    → Post Q R' r
loosen-Post Q R R' w (ok a, s) h = h
loosen-Post Q R R' w (raise e, s) h = w e s h
loosen-Post Q R R' w (no_fuel, s) h = tt

module _ {S X : Type 0} {view : S → X} where
  pub Reaches-pure :
      {A : Type 0} {K R : Phases X} {K' : A → Phases X} (a : A)
      → Part K (K' a)
      → Reaches view K (pure a) K' R
  Reaches-pure a h = record { triple = Triple-pure a (λ s. h (view s)) }

  pub Reaches-throw :
      {A : Type 0} {K R : Phases X} {K' : A → Phases X} (e : Exception)
      → Part K R
      → Reaches view K (throw e) K' R
  Reaches-throw e h = record { triple = Triple-throw e (λ s. h (view s)) }

  pub Reaches-gets :
      {A : Type 0} {K R : Phases X} {K' : A → Phases X} (f : S → A)
      → ((a : A) → Part K (K' a))
      → Reaches view K (gets f) K' R
  unfolding gets
  Reaches-gets f h = record { triple = record { run = λ s. h (f s) (view s) } }

  pub Reaches-bind :
      {A B : Type 0} {K R : Phases X} {K'' : B → Phases X} {m : Exec S A} {f : A → Exec S B}
      (K' : A → Phases X)
      → Reaches view K m K' R
      → ((a : A) → Reaches view (K' a) (f a) K'' R)
      → Reaches view K (m >>= f) K'' R
  Reaches-bind K' hm hf = record { triple = Triple-bind hm.triple (λ a. (hf a).triple) }

  pub Reaches-if :
      {A : Type 0} {K R : Phases X} {K' : A → Phases X} (b : Bool) {m n : Exec S A}
      → (b ≡ true → Reaches view K m K' R)
      → (b ≡ false → Reaches view K n K' R)
      → Reaches view K (elim b [ true ↦ m | false ↦ n ]) K' R
  Reaches-if true hm hn = hm refl
  Reaches-if false hm hn = hn refl

  pub Reaches-try_base :
      {A : Type 0} {K R : Phases X} {K' : A → Phases X} {m : Exec S A} {h : Exception → Exec S A}
      (T : Phases X)
      → Reaches view K m K' T
      → ((e : Exception) → Reaches view T (h e) K' R)
      → Reaches view K (try_base m h) K' R
  Reaches-try_base T hm hh = record { triple = Triple-try_base hm.triple (λ e. (hh e).triple) }

  pub Reaches-try_except :
      {A : Type 0} {K R : Phases X} {K' : A → Phases X} {m : Exec S A} {h : Exception → Exec S A}
      (T : Phases X)
      → Reaches view K m K' T
      → ((e : Exception) → is_exception e ≡ true → Reaches view T (h e) K' R)
      → Part T R
      → Reaches view K (try_except m h) K' R
  Reaches-try_except T hm hh w = record {
    triple = Triple-try_except hm.triple (λ e b. (hh e b).triple) (λ e s b. w (view s));
  }

  pub Reaches-try_finally :
      {A : Type 0} {K R : Phases X} {K' : A → Phases X} {m : Exec S A} {cleanup : Exec S (Unit {0})}
      (Q : A → Phases X) (T : Phases X)
      → Reaches view K m Q T
      → ((a : A) → Reaches view (Q a) cleanup (λ _. K' a) R)
      → Reaches view T cleanup (λ _. R) R
      → Reaches view K (try_finally m cleanup) K' R
  Reaches-try_finally Q T hm ha he = record {
    triple = Triple-try_finally hm.triple (λ a. (ha a).triple) (λ e. he.triple);
  }

  pub Reaches-weaken :
      {A : Type 0} {K R : Phases X} {K' : A → Phases X} {m : Exec S A} (L : Phases X)
      → Part K L
      → Reaches view L m K' R
      → Reaches view K m K' R
  Reaches-weaken L w h = record { triple = record { run = λ s k. h.triple.run s (w (view s) k) } }

  pub Reaches-loosen :
      {A : Type 0} {K R R' : Phases X} {K' : A → Phases X} {m : Exec S A}
      → Part R R'
      → Reaches view K m K' R
      → Reaches view K m K' R'
  Reaches-loosen {m} w h = record {
    triple = record { run = λ s k. loosen-Post _ _ _ (λ e s. w (view s)) (m s) (h.triple.run s k) };
  }

-- An action that leaves a set of phases alone, whether it returns or raises.
pub record Keeps {S X A : Type 0} (view : S → X) (K : Phases X) (m : Exec S A) : Type 0 where
  pub reaches : Reaches view K m (λ _. K) K

module _ {S X : Type 0} {view : S → X} {K : Phases X} where
  pub Keeps-pure : {A : Type 0} (a : A) → Keeps view K (pure a)
  Keeps-pure a = record { reaches = Reaches-pure a (λ x k. k) }

  pub Keeps-throw : {A : Type 0} (e : Exception) → Keeps view K (throw {A = A} e)
  Keeps-throw e = record { reaches = Reaches-throw e (λ x k. k) }

  pub Keeps-gets : {A : Type 0} (f : S → A) → Keeps view K (gets f)
  Keeps-gets f = record { reaches = Reaches-gets f (λ a x k. k) }

  pub Keeps-assert : (b : Bool) → Keeps view K (assert b)
  unfolding assert
  Keeps-assert true = Keeps-pure tt
  Keeps-assert false = Keeps-throw assertion_error

  pub Keeps-expect : {A : Type 0} (o : Option A) → Keeps view K (expect o)
  unfolding expect
  Keeps-expect (some a) = Keeps-pure a
  Keeps-expect none = Keeps-throw assertion_error

  pub Keeps-bind :
      {A B : Type 0} {m : Exec S A} {f : A → Exec S B}
      → Keeps view K m
      → ((a : A) → Keeps view K (f a))
      → Keeps view K (m >>= f)
  Keeps-bind hm hf = record { reaches = Reaches-bind (λ _. K) hm.reaches (λ a. (hf a).reaches) }

  pub Keeps-if :
      {A : Type 0} (b : Bool) {m n : Exec S A}
      → Keeps view K m
      → Keeps view K n
      → Keeps view K (elim b [ true ↦ m | false ↦ n ])
  Keeps-if b hm hn = record { reaches = Reaches-if b (λ _. hm.reaches) (λ _. hn.reaches) }

  pub Keeps-try_except :
      {A : Type 0} {m : Exec S A} {h : Exception → Exec S A}
      → Keeps view K m
      → ((e : Exception) → Keeps view K (h e))
      → Keeps view K (try_except m h)
  Keeps-try_except hm hh = record {
    reaches = Reaches-try_except K hm.reaches (λ e b. (hh e).reaches) (λ x k. k);
  }

  pub Keeps-try_finally :
      {A : Type 0} {m : Exec S A} {cleanup : Exec S (Unit {0})}
      → Keeps view K m
      → Keeps view K cleanup
      → Keeps view K (try_finally m cleanup)
  Keeps-try_finally hm hc = record {
    reaches = Reaches-try_finally (λ _. K) K hm.reaches (λ a. hc.reaches) hc.reaches;
  }

pub ruleset keeps_rules = (
  Keeps-pure, Keeps-throw, Keeps-gets, Keeps-assert, Keeps-expect, Keeps-bind, Keeps-if,
  Keeps-try_except, Keeps-try_finally,
)
