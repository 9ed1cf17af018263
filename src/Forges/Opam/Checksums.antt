-- ===== src/Forges/Opam/Checksums.antt =====
-- package/opam/loader.py: the field url.checksum, a list of texts "algo=hash" in brackets.
use Prim.Native.Char.{Char, code}
use swh_loader_core.Prelude.{String, Bool, ◌||◌, List, [], ◌∷◌, Dict, insert, string_eq, nat_beq}
use swh_loader_core.Effects.{Exec, pure, throw, value_error, ◌>>=◌}
use swh_loader_core.Forges.Text.{strip, split}

abbrev pub is_quote : Char → Bool
is_quote c = nat_beq (code c) b'"'

-- c in "[]"
abbrev pub is_bracket : Char → Bool
is_bracket c = nat_beq (code c) b'[' || nat_beq (code c) b']'

abbrev pub is_blank : Char → Bool
is_blank c = nat_beq (code c) b' '

abbrev pub is_equals : Char → Bool
is_equals c = nat_beq (code c) b'='

module _ {W : Type 0} where
  -- `algo, hash = ...`
  abbrev pub two_parts : List String → Exec W (String × String)
  two_parts (algo ∷ hash ∷ []) = pure (algo, hash)
  two_parts _ = throw (value_error "too many or not enough values to unpack")

  -- `for c in ...`
  unfoldable pub read_checksums : List String → Dict String String → Exec W (Dict String String)
  read_checksums [] checksums = pure checksums
  read_checksums (c ∷ rest) checksums = do
    parts ← two_parts (split is_equals (strip is_quote c))
    read_checksums rest (insert parts.0 parts.1 checksums)

  unfoldable pub parse_checksums : String → Exec W (Dict String String)
  unfolding read_checksums
  parse_checksums checksums_str =
      read_checksums (split is_blank (strip is_bracket checksums_str)) []
