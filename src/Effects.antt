-- ===== src/Effects.antt =====
-- Python statements that mutate state and may raise: exceptions as values, the state outlives them.
-- The exception classes are those of exception.py, of the standard library and of requests, as
-- far as a handler of the loaders tells them apart.
pub mod Hoare
pub mod Reaches
pub mod Fuel
use swh_loader_core.Prelude.{ℕ, String, ◌≡◌, Bool, true, false, Option, none, some, refl}

pub data Exception : Type 0 where
  not_found value_error unsupported_checksum_layout : String → Exception
  http_error : (status_code : ℕ) → Exception
  content_decoding_error assertion_error not_implemented : Exception
  key_error index_error overflow_error : Exception
  other : String → Exception
  -- BaseException, but not Exception
  system_exit keyboard_interrupt : Exception

-- isinstance(e, Exception)
abbrev pub is_exception : Exception → Bool
is_exception system_exit = false
is_exception keyboard_interrupt = false
is_exception _ = true

-- isinstance(e, ValueError)
abbrev pub is_value_error : Exception → Bool
is_value_error (not_found _) = true
is_value_error (value_error _) = true
is_value_error (unsupported_checksum_layout _) = true
is_value_error _ = false

-- isinstance(e, NotFound)
abbrev pub is_not_found : Exception → Bool
is_not_found (not_found _) = true
is_not_found _ = false

-- str(e), where `text` gives the text that other packages put into their exceptions
abbrev pub message : (text : Exception → String) → Exception → String
message text (not_found m) = m
message text (value_error m) = m
message text (unsupported_checksum_layout m) = m
message text (other m) = m
message text e = text e

-- `no_fuel` is the outcome of a loop that is still running.
pub data Result (A : Type 0) : Type 0 where
  ok : A → Result A
  raise : Exception → Result A
  no_fuel : Result A

abbrev pub Exec : Type 0 → Type 0 → Type 0
Exec S A = S → Result A × S

module _ {S A : Type 0} where
  unfoldable pub pure : A → Exec S A
  pure a s = (ok a, s)

  unfoldable pub throw : Exception → Exec S A
  throw e s = (raise e, s)

  abbrev pub handle : (Exception → Exec S A) → Result A × S → Result A × S
  handle h (ok a, s) = (ok a, s)
  handle h (raise e, s) = h e s
  handle h (no_fuel, s) = (no_fuel, s)

  -- `try: m` / `except BaseException as e: h e`
  unfoldable pub try_base : Exec S A → (Exception → Exec S A) → Exec S A
  try_base m h s = handle h (m s)

  unfoldable pub when_exception : (Exception → Exec S A) → Exception → Exec S A
  unfolding throw
  when_exception h e = elim (is_exception e) [ true ↦ h e | false ↦ throw e ]

  -- `try: m` / `except Exception as e: h e`
  unfoldable pub try_except : Exec S A → (Exception → Exec S A) → Exec S A
  unfolding try_base when_exception
  try_except m h = try_base m (when_exception h)

  abbrev pub restore : Result A → Result (Unit {0}) × S → Result A × S
  restore r (ok _, s) = (r, s)
  restore r (raise e, s) = (raise e, s)
  restore r (no_fuel, s) = (no_fuel, s)

  abbrev pub finish : Exec S (Unit {0}) → Result A × S → Result A × S
  finish cleanup (no_fuel, s) = (no_fuel, s)
  finish cleanup (ok a, s) = restore (ok a) (cleanup s)
  finish cleanup (raise e, s) = restore (raise e) (cleanup s)

  -- `try: m` / `finally: cleanup`. An exception of the cleanup replaces the outcome of `m`.
  unfoldable pub try_finally : Exec S A → Exec S (Unit {0}) → Exec S A
  try_finally m cleanup s = finish cleanup (m s)

unfoldable pub gets : {S A : Type 0} → (S → A) → Exec S A
gets f s = (ok (f s), s)

unfoldable pub modify : {S : Type 0} → (S → S) → Exec S (Unit {0})
modify f s = (ok tt, f s)

-- `assert b`
unfoldable pub assert : {S : Type 0} → Bool → Exec S (Unit {0})
unfolding pure throw
assert true = pure tt
assert false = throw assertion_error

module _ {S A B : Type 0} where
  abbrev pub continue : (A → Exec S B) → Result A × S → Result B × S
  continue f (ok a, s) = f a s
  continue f (raise e, s) = (raise e, s)
  continue f (no_fuel, s) = (no_fuel, s)

  infixl 5 ◌>>=◌ ◌>>◌
  unfoldable pub ◌>>=◌ : Exec S A → (A → Exec S B) → Exec S B
  ◌>>=◌ m f s = continue f (m s)

  abbrev pub ◌>>◌ : Exec S A → Exec S B → Exec S B
  m >> n = m >>= λ _. n

-- The value of an optional name: `assert x is not None`.
unfoldable pub expect : {S A : Type 0} → Option A → Exec S A
unfolding pure throw
expect (some a) = pure a
expect none = throw assertion_error

-- A proof that runs a program names this on its `unfolding` line.
unfoldable pub effects : Unit {0}
unfolding pure throw try_except try_finally gets modify assert expect ◌>>=◌
effects = tt
