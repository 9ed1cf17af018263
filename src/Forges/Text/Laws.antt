-- ===== src/Forges/Text/Laws.antt =====
-- How strip and split undo the enclosing and the joining of texts.
use Prim.Native.Char.{Char}
use Prim.Native.String
use text.Mathlib.TextLemmas.{nil-append, cons-append, append-eq-nil_iff, cons≢nil}
use swh_loader_core.Prelude.{
  String, ◌≡◌, refl, ap, ◌∙◌, Bool, true, false, ◌&&◌, [], ◌∷◌, arith, string_eq, ◌==◌,
  if◌then◌else◌, Bool-cases, inl, inr,
}
use swh_loader_core.Forges.Text.{has_char, lstrip, rstrip, strip, split}

module _ (p : Char → Bool) where
  -- No character of the text has the property.
  abbrev pub IsFree : String → Type 0
  IsFree s = has_char p s ≡ false

  pub IsFree-head : (c : Char) (s : String) → IsFree (String.◌∷◌ c s) → p c ≡ false
  unfolding has_char
  IsFree-head c s h = ground arith

  pub IsFree-tail : (c : Char) (s : String) → IsFree (String.◌∷◌ c s) → IsFree s
  unfolding has_char
  IsFree-tail c s h = ground arith

  pub IsFree-cons : (c : Char) (s : String) → p c ≡ false → IsFree s → IsFree (String.◌∷◌ c s)
  unfolding has_char
  IsFree-cons c s h k = ground arith

  pub IsFree-append : (s t : String) → IsFree s → IsFree t → IsFree (String.◌++◌ s t)
  IsFree-append String.[] t h k = rw (nil-append t) k
  IsFree-append (String.◌∷◌ c s) t h k = rw (cons-append c s t) (
      IsFree-cons c (String.◌++◌ s t) (IsFree-head c s h) (IsFree-append s t (IsFree-tail c s h) k))

  cons_not_empty : (c : Char) (s : String) → (String.◌∷◌ c s == "") ≡ false
  cons_not_empty c s = elim (Bool-cases (String.◌∷◌ c s == "")) [
    | inl f ↦ absurd (cons≢nil ((string_eq.beq_iff (String.◌∷◌ c s) "").0 f))
    | inr f ↦ f
  ]

  if_false : (b : Bool) (s : String) → (if b && false then "" else s) ≡ s
  if_false true s = refl
  if_false false s = refl

  rstrip-free : (s : String) → IsFree s → rstrip p s ≡ s
  unfolding rstrip
  rstrip-free String.[] h = refl
  rstrip-free (String.◌∷◌ c s) h =
      rw (rstrip-free s (IsFree-tail c s h), IsFree-head c s h)
        (if_false (s == "") (String.◌∷◌ c s))

  -- A character at the end that is stripped.
  rstrip-last :
      (s : String) (d : Char) → p d ≡ true → rstrip p (String.◌++◌ s (String.◌∷◌ d "")) ≡ rstrip p s
  unfolding rstrip
  rstrip-last String.[] d h = rw (nil-append (String.◌∷◌ d ""), h) refl
  rstrip-last (String.◌∷◌ c s) d h = rw (cons-append c s (String.◌∷◌ d ""), rstrip-last s d h) refl

  pub split-free : (s : String) → IsFree s → split p s ≡ s ∷ []
  unfolding split
  split-free String.[] h = refl
  split-free (String.◌∷◌ c s) h = rw (split-free s (IsFree-tail c s h), IsFree-head c s h) refl

  -- The first part, up to a separator.
  pub split-at :
      (s t : String) (d : Char)
      → IsFree s
      → p d ≡ true
      → split p (String.◌++◌ s (String.◌∷◌ d t)) ≡ s ∷ split p t
  unfolding split
  split-at String.[] t d h k = rw (nil-append (String.◌∷◌ d t), k) refl
  split-at (String.◌∷◌ c s) t d h k =
      rw (cons-append c s (String.◌∷◌ d t), split-at s t d (IsFree-tail c s h) k, IsFree-head c s h)
        refl

  lstrip-enclosed :
      (b c : Char) (s t : String)
      → p b ≡ true
      → p c ≡ false
      → lstrip p (String.◌∷◌ b (String.◌++◌ (String.◌∷◌ c s) t)) ≡ String.◌++◌ (String.◌∷◌ c s) t
  unfolding lstrip
  lstrip-enclosed b c s t hb hc = rw (cons-append c s t, hb, hc) refl

  -- A text in enclosing characters is what strip leaves of it.
  pub strip-enclosed :
      (b c d : Char) (s : String)
      → p b ≡ true
      → p d ≡ true
      → IsFree (String.◌∷◌ c s)
      → strip p (String.◌∷◌ b (String.◌++◌ (String.◌∷◌ c s) (String.◌∷◌ d ""))) ≡ String.◌∷◌ c s
  unfolding strip
  strip-enclosed b c d s hb hd free =
      ap (rstrip p) (lstrip-enclosed b c s (String.◌∷◌ d "") hb (IsFree-head c s free))
      ∙ (rstrip-last (String.◌∷◌ c s) d hd ∙ rstrip-free (String.◌∷◌ c s) free)

  -- The same with the enclosing characters appended.
  pub strip_text :
      (b d : Char) (s : String)
      → p b ≡ true
      → p d ≡ true
      → IsFree s
      → (s ≡ "" → ⊥)
      → strip p (String.◌++◌ (String.◌∷◌ b "") (String.◌++◌ s (String.◌∷◌ d ""))) ≡ s
  strip_text b d String.[] hb hd free full = absurd (full refl)
  strip_text b d (String.◌∷◌ c s) hb hd free full =
      ap (strip p) (cons-append b "" _ ∙ ap (λ (t : String). String.◌∷◌ b t) (nil-append _))
      ∙ strip-enclosed b c d s hb hd free

-- A part, a separator and the rest.
pub split_text :
    (p : Char → Bool) (s t : String) (d : Char)
    → IsFree p s
    → p d ≡ true
    → split p (String.◌++◌ s (String.◌++◌ (String.◌∷◌ d "") t)) ≡ s ∷ split p t
split_text p s t d free h =
    ap (split p)
      (ap (String.◌++◌ s) (cons-append d "" t ∙ ap (λ (u : String). String.◌∷◌ d u) (nil-append t)))
    ∙ split-at p s t d free h

pub not_empty_left : (s t : String) → (s ≡ "" → ⊥) → String.◌++◌ s t ≡ "" → ⊥
not_empty_left s t h e = h ((append-eq-nil_iff.0 e).0)

pub not_empty_right : (s t : String) → (t ≡ "" → ⊥) → String.◌++◌ s t ≡ "" → ⊥
not_empty_right s t h e = h ((append-eq-nil_iff.0 e).1)
