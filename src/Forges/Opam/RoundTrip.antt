-- ===== src/Forges/Opam/RoundTrip.antt =====
-- package/opam/loader.py: the checksums that opam prints are read back.
use Prim.Native.Char.{Char}
use Prim.Native.String
use text.Mathlib.TextLemmas.{cons≢nil}
use swh_loader_core.Prelude.{
  String, ◌≡◌, refl, ap, ◌∙◌, Bool, List, [], ◌∷◌, Dict, All, map, insert, string_eq,
}
use swh_loader_core.Effects.{ok, effects}
use swh_loader_core.Forges.Text.{strip, split, has_char}
use swh_loader_core.Forges.Text.Laws.{
  IsFree, IsFree-append, split_text, split-free, strip_text, not_empty_left, not_empty_right,
}
use swh_loader_core.Forges.Opam.Checksums.{
  is_quote, is_bracket, is_blank, is_equals, read_checksums, parse_checksums,
}

-- A text that holds none of the characters of the format.
pub record IsPlain (s : String) : Type 0 where
  pub no_quote : IsFree is_quote s
  pub no_bracket : IsFree is_bracket s
  pub no_blank : IsFree is_blank s
  pub no_equals : IsFree is_equals s

-- algo=hash
abbrev pub pair_text : String × String → String
pair_text c = String.◌++◌ c.0 (String.◌++◌ "=" c.1)

-- "algo=hash"
abbrev pub quoted : String × String → String
quoted c = String.◌++◌ "\"" (String.◌++◌ (pair_text c) "\"")

-- The quoted pairs, with a blank between two of them.
abbrev pub body_text : String × String → List (String × String) → String
body_text c [] = quoted c
body_text c (d ∷ cs) = String.◌++◌ (quoted c) (String.◌++◌ " " (body_text d cs))

-- The field as opam prints it.
abbrev pub print_checksums : String × String → List (String × String) → String
print_checksums c cs = String.◌++◌ "[" (String.◌++◌ (body_text c cs) "]")

-- A dict with the pairs put in, one after the other.
abbrev pub with_pairs : List (String × String) → Dict String String → Dict String String
with_pairs [] d = d
with_pairs (c ∷ cs) d = with_pairs cs (insert c.0 c.1 d)

module _ (p : Char → Bool) where
  IsFree-pair_text :
      (c : String × String) → IsFree p "=" → IsFree p c.0 → IsFree p c.1 → IsFree p (pair_text c)
  IsFree-pair_text c e h k = IsFree-append p c.0 _ h (IsFree-append p "=" c.1 e k)

  IsFree-quoted :
      (c : String × String) → IsFree p "\"" → IsFree p (pair_text c) → IsFree p (quoted c)
  IsFree-quoted c q h = IsFree-append p "\"" _ q (IsFree-append p (pair_text c) "\"" h q)

pair_text_full : (c : String × String) → pair_text c ≡ "" → ⊥
pair_text_full c = not_empty_right c.0 _ (not_empty_left "=" c.1 cons≢nil)

quoted_full : (c : String × String) → quoted c ≡ "" → ⊥
quoted_full c = not_empty_left "\"" _ cons≢nil

body_text_full : (c : String × String) (cs : List (String × String)) → body_text c cs ≡ "" → ⊥
body_text_full c [] = quoted_full c
body_text_full c (d ∷ cs) = not_empty_left (quoted c) _ (quoted_full c)

abbrev pub PlainPair : String × String → Type 0
PlainPair c = IsPlain c.0 × IsPlain c.1

strip-quoted : (c : String × String) → PlainPair c → strip is_quote (quoted c) ≡ pair_text c
unfolding has_char
strip-quoted c h =
    strip_text is_quote "\"" "\"" (pair_text c) refl refl
      (IsFree-pair_text is_quote c refl h.0.no_quote h.1.no_quote) (pair_text_full c)

split-pair_text :
    (c : String × String) → PlainPair c → split is_equals (pair_text c) ≡ c.0 ∷ c.1 ∷ []
split-pair_text c h =
    split_text is_equals c.0 c.1 "=" h.0.no_equals refl
    ∙ ap (λ (l : List String). c.0 ∷ l) (split-free is_equals c.1 h.1.no_equals)

split-body_text :
    (c : String × String) (cs : List (String × String))
    → PlainPair c
    → All PlainPair cs
    → split is_blank (body_text c cs) ≡ map quoted (c ∷ cs)
unfolding has_char
split-body_text c [] h hs =
    split-free is_blank (quoted c)
      (IsFree-quoted is_blank c refl (IsFree-pair_text is_blank c refl h.0.no_blank h.1.no_blank))
split-body_text c (d ∷ cs) h (k, hs) =
    split_text is_blank (quoted c) (body_text d cs) " "
      (IsFree-quoted is_blank c refl (IsFree-pair_text is_blank c refl h.0.no_blank h.1.no_blank))
      refl
    ∙ ap (λ (l : List String). quoted c ∷ l) (split-body_text d cs k hs)

no_bracket-body_text :
    (c : String × String) (cs : List (String × String))
    → PlainPair c
    → All PlainPair cs
    → IsFree is_bracket (body_text c cs)
unfolding has_char
no_bracket-body_text c [] h hs =
    IsFree-quoted is_bracket c refl
      (IsFree-pair_text is_bracket c refl h.0.no_bracket h.1.no_bracket)
no_bracket-body_text c (d ∷ cs) h (k, hs) =
    IsFree-append is_bracket (quoted c) _
      (IsFree-quoted is_bracket c refl
        (IsFree-pair_text is_bracket c refl h.0.no_bracket h.1.no_bracket))
      (IsFree-append is_bracket " " (body_text d cs) refl (no_bracket-body_text d cs k hs))

read_pairs :
    {W : Type 0} (cs : List (String × String)) (d : Dict String String) (w : W)
    → All PlainPair cs
    → read_checksums (map quoted cs) d w ≡ (ok (with_pairs cs d), w)
unfolding read_checksums effects
read_pairs [] d w h = refl
read_pairs (c ∷ cs) d w (h, hs) =
    rw (strip-quoted c h, split-pair_text c h) (read_pairs cs (insert c.0 c.1 d) w hs)

-- get_package_info reads back the checksums that opam prints as ["algo=hash" "algo=hash" ...]: the dictionary has
-- each pair put in, in order, and nothing raises. Assumed: there is a pair, and no algorithm and no
-- hash holds a quote, a bracket, a blank or an equals sign.
pub parse-print_checksums :
    {W : Type 0} (c : String × String) (cs : List (String × String)) (w : W)
    → PlainPair c
    → All PlainPair cs
    → parse_checksums (print_checksums c cs) w ≡ (ok (with_pairs (c ∷ cs) []), w)
unfolding parse_checksums
parse-print_checksums c cs w h hs =
    rw
      (
        strip_text is_bracket "[" "]" (body_text c cs) refl refl (no_bracket-body_text c cs h hs)
            (body_text_full c cs),
        split-body_text c cs h hs,
      )
      (read_pairs (c ∷ cs) [] w (h, hs))
