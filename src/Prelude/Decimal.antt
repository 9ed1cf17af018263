-- ===== src/Prelude/Decimal.antt =====
-- `str(n)` and `int(s)` on natural numbers: decimal numerals, and that reading gives back what was printed.
use Prim.Native.Nat.{ℕ, zero, suc, ◌+◌, ◌-◌, ◌*◌, ◌/◌, ◌%◌, ◌<◌}
use Prim.Native.Char.{code}
use Prim.Native.String
use Prim.Native.String.{String}
use mathlib.Core.Path.{◌≡◌, refl, sym, ap, ◌∙◌}
use mathlib.Core.Logic.{inl, inr}
use text.Mathlib.TextLemmas.{nil-append, cons-append}
use native.Mathlib.Omega.{arith}
use swh_loader_core.Prelude.Tests.{ltb, if◌then◌else◌, Bool-cases}

abbrev pub digit : ℕ → String
digit zero = "0"
digit (suc zero) = "1"
digit (suc (suc zero)) = "2"
digit (suc (suc (suc zero))) = "3"
digit (suc (suc (suc (suc zero)))) = "4"
digit (suc (suc (suc (suc (suc zero))))) = "5"
digit (suc (suc (suc (suc (suc (suc zero)))))) = "6"
digit (suc (suc (suc (suc (suc (suc (suc zero))))))) = "7"
digit (suc (suc (suc (suc (suc (suc (suc (suc zero)))))))) = "8"
digit _ = "9"

-- The fuel is more than the number.
abbrev decimal_within : ℕ → ℕ → String
decimal_within zero n = ""
decimal_within (suc fuel) n =
    let front = decimal_within fuel (n / 10) in
    if ltb n 10 then digit n else String.◌++◌ front (digit (n % 10))

-- `str(n)`
unfoldable pub decimal : ℕ → String
decimal n = decimal_within (suc n) n

-- `int(s)` on a text of digits, from the digits read before.
abbrev read_from : ℕ → String → ℕ
read_from acc String.[] = acc
read_from acc (String.◌∷◌ c s) = read_from (10 * acc + (code c - 48)) s

unfoldable pub read_decimal : String → ℕ
read_decimal s = read_from 0 s

read_from-append :
    (acc : ℕ) (s t : String) → read_from acc (String.◌++◌ s t) ≡ read_from (read_from acc s) t
read_from-append acc String.[] t = rw (nil-append t) refl
read_from-append acc (String.◌∷◌ c s) t =
    rw (cons-append c s t) (read_from-append (10 * acc + (code c - 48)) s t)

read_from-digit : (acc d : ℕ) → d < 10 → read_from acc (digit d) ≡ 10 * acc + d
read_from-digit acc zero h = omega arith
read_from-digit acc (suc zero) h = omega arith
read_from-digit acc (suc (suc zero)) h = omega arith
read_from-digit acc (suc (suc (suc zero))) h = omega arith
read_from-digit acc (suc (suc (suc (suc zero)))) h = omega arith
read_from-digit acc (suc (suc (suc (suc (suc zero))))) h = omega arith
read_from-digit acc (suc (suc (suc (suc (suc (suc zero)))))) h = omega arith
read_from-digit acc (suc (suc (suc (suc (suc (suc (suc zero))))))) h = omega arith
read_from-digit acc (suc (suc (suc (suc (suc (suc (suc (suc zero)))))))) h = omega arith
read_from-digit acc (suc (suc (suc (suc (suc (suc (suc (suc (suc zero))))))))) h = omega arith
read_from-digit acc (suc (suc (suc (suc (suc (suc (suc (suc (suc (suc d)))))))))) h = omega arith

read_from-decimal_within : (fuel n : ℕ) → n < fuel → read_from 0 (decimal_within fuel n) ≡ n
read_from-decimal_within zero n h = omega arith
read_from-decimal_within (suc fuel) n h = elim (Bool-cases (ltb n 10)) [
  | inl e ↦ rw e (read_from-digit 0 n (ground arith) ∙ omega arith)
  | inr e ↦
      rw
        (
          e,
          read_from-append 0 (decimal_within fuel (n / 10)) (digit (n % 10)),
          read_from-decimal_within fuel (n / 10) (ground arith),
        )
        (read_from-digit (n / 10) (n % 10) (omega arith) ∙ omega arith)
]

pub read_decimal-decimal : (n : ℕ) → read_decimal (decimal n) ≡ n
unfolding decimal read_decimal
read_decimal-decimal n = read_from-decimal_within (suc n) n (omega arith)

pub decimal_inj : (m n : ℕ) → decimal m ≡ decimal n → m ≡ n
decimal_inj m n e = sym (read_decimal-decimal m) ∙ (ap read_decimal e ∙ read_decimal-decimal n)
