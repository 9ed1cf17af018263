-- ===== src/Forges/Lines.antt =====
-- Texts made of lines: where the lines have no newline, the text gives them back.
use Prim.Native.Char.{Char, code}
use Prim.Native.String
use text.Mathlib.TextLemmas.{
  nil-append, cons-append, append_cancel_left, head-eq_of_cons-eq, tail-eq_of_cons-eq,
}
use swh_loader_core.Prelude.{String, ◌≡◌, refl, sym, ap, ◌∙◌, Bool, true, false, arith, nat_beq}
use swh_loader_core.Forges.Text.{has_char}

abbrev pub is_newline : Char → Bool
is_newline c = nat_beq (code c) 10

-- A text without newlines.
abbrev pub IsLine : String → Type 0
IsLine s = has_char is_newline s ≡ false

IsLine-head : (c : Char) (s : String) → IsLine (String.◌∷◌ c s) → is_newline c ≡ false
unfolding has_char
IsLine-head c s h = ground arith

IsLine-tail : (c : Char) (s : String) → IsLine (String.◌∷◌ c s) → IsLine s
unfolding has_char
IsLine-tail c s h = ground arith

-- Two lines that are followed by a newline are equal if the texts are.
cut :
    (c : Char) (a b s t : String)
    → is_newline c ≡ true
    → IsLine a
    → IsLine b
    → String.◌++◌ a (String.◌∷◌ c s) ≡ String.◌++◌ b (String.◌∷◌ c t)
    → (a ≡ b) × (s ≡ t)
cut c String.[] String.[] s t n la lb e = (
  refl,
  tail-eq_of_cons-eq (sym (nil-append (String.◌∷◌ c s)) ∙ (e ∙ nil-append (String.◌∷◌ c t))),
)
cut c String.[] (String.◌∷◌ y b) s t n la lb e =
    let same = sym (nil-append (String.◌∷◌ c s)) ∙ (e ∙ cons-append y b (String.◌∷◌ c t)) in
    absurd (cc (ap is_newline (head-eq_of_cons-eq same), n, IsLine-head y b lb))
cut c (String.◌∷◌ x a) String.[] s t n la lb e =
    let same = sym (nil-append (String.◌∷◌ c t)) ∙ (sym e ∙ cons-append x a (String.◌∷◌ c s)) in
    absurd (cc (ap is_newline (head-eq_of_cons-eq same), n, IsLine-head x a la))
cut c (String.◌∷◌ x a) (String.◌∷◌ y b) s t n la lb e =
    let same = sym (cons-append x a (String.◌∷◌ c s)) ∙ (e ∙ cons-append y b (String.◌∷◌ c t)) in
    let rest =
      cut c a b s t n (IsLine-tail x a la) (IsLine-tail y b lb) (tail-eq_of_cons-eq same) in
    (cc (head-eq_of_cons-eq same, rest.0), rest.1)

-- The lines before the same separator, and what comes behind it.
pub cut_at :
    (c : Char) (label a b s t : String)
    → is_newline c ≡ true
    → IsLine a
    → IsLine b
    → String.◌++◌ a (String.◌++◌ (String.◌∷◌ c label) s)
      ≡ String.◌++◌ b (String.◌++◌ (String.◌∷◌ c label) t)
    → (a ≡ b) × (s ≡ t)
cut_at c label a b s t n la lb e =
    let same =
      sym (ap (λ (z : String). String.◌++◌ a z) (cons-append c label s))
      ∙ (e ∙ ap (λ (z : String). String.◌++◌ b z) (cons-append c label t)) in
    let r = cut c a b (String.◌++◌ label s) (String.◌++◌ label t) n la lb same in
    (r.0, append_cancel_left label s t r.1)
