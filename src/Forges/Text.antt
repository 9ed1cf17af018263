-- ===== src/Forges/Text.antt =====
-- The operations of Python's str and os.path that the loaders of the forges use.
pub mod Laws
use Prim.Native.Char.{Char, code}
use Prim.Native.String
use swh_loader_core.Prelude.{
  ℕ, String, Bool, false, ◌&&◌, ◌||◌, List, [], ◌∷◌, string_eq, nat_beq, if◌then◌else◌, ◌==◌,
}

-- f"{a}{b}..."
abbrev pub join_texts : List String → String
join_texts [] = ""
join_texts (s ∷ rest) = String.◌++◌ s (join_texts rest)

-- s.endswith(suffix)
unfoldable pub ends_with : String → String → Bool
ends_with String.[] suffix = suffix == ""
ends_with (String.◌∷◌ c s) suffix = String.◌∷◌ c s == suffix || ends_with s suffix

-- s.endswith((suffix, ...))
unfoldable pub ends_with_any : String → List String → Bool
unfolding ends_with
ends_with_any s [] = false
ends_with_any s (suffix ∷ suffixes) = ends_with s suffix || ends_with_any s suffixes

-- s.lstrip(chars)
unfoldable pub lstrip : (Char → Bool) → String → String
lstrip in_chars String.[] = ""
lstrip in_chars (String.◌∷◌ c s) =
    let rest = lstrip in_chars s in if in_chars c then rest else String.◌∷◌ c s

-- s.rstrip(chars)
unfoldable pub rstrip : (Char → Bool) → String → String
rstrip in_chars String.[] = ""
rstrip in_chars (String.◌∷◌ c s) =
    let rest = rstrip in_chars s in if rest == "" && in_chars c then "" else String.◌∷◌ c rest

abbrev pub is_slash : Char → Bool
is_slash c = nat_beq (code c) b'/'

-- c in s
unfoldable pub has_char : (Char → Bool) → String → Bool
has_char is_char String.[] = false
has_char is_char (String.◌∷◌ c s) = is_char c || has_char is_char s

abbrev put_char : Char → List String → List String
put_char c [] = String.◌∷◌ c "" ∷ []
put_char c (word ∷ words) = String.◌∷◌ c word ∷ words

-- s.split(c)
unfoldable pub split : (Char → Bool) → String → List String
split is_separator String.[] = "" ∷ []
split is_separator (String.◌∷◌ c s) =
    let words = split is_separator s in if is_separator c then "" ∷ words else put_char c words

-- s.split(c)[-1], and os.path.basename for the slash
unfoldable pub last_part : (Char → Bool) → String → String
last_part is_separator String.[] = ""
last_part is_separator (String.◌∷◌ c s) =
    let part = last_part is_separator s in
    if has_char is_separator s then part else if is_separator c then s else String.◌∷◌ c s

-- The characters up to the first that has the property, and those from it on.
unfoldable pub before : (Char → Bool) → String → String
before stops String.[] = ""
before stops (String.◌∷◌ c s) =
    let rest = before stops s in if stops c then "" else String.◌∷◌ c rest

unfoldable pub from_first : (Char → Bool) → String → String
from_first stops String.[] = ""
from_first stops (String.◌∷◌ c s) =
    let rest = from_first stops s in if stops c then String.◌∷◌ c s else rest

-- s.strip(chars)
unfoldable pub strip : (Char → Bool) → String → String
unfolding lstrip rstrip
strip in_chars s = rstrip in_chars (lstrip in_chars s)

abbrev drop_empty : List String → List String
drop_empty [] = []
drop_empty (word ∷ words) = let rest = drop_empty words in if word == "" then rest else word ∷ rest

-- s.split()
unfoldable pub split_words : (is_space : Char → Bool) → String → List String
unfolding split
split_words is_space s = drop_empty (split is_space s)

-- s.split(maxsplit=1): the first word, and the rest if there is one.
unfoldable pub split_once : (is_space : Char → Bool) → String → List String
unfolding lstrip before from_first
split_once is_space s =
    let stripped = lstrip is_space s in
    let rest = lstrip is_space (from_first is_space stripped) in
    if stripped == ""
    then []
    else if rest == ""
    then before is_space stripped ∷ []
    else before is_space stripped ∷ rest ∷ []

-- The characters at which splitlines breaks.
abbrev is_break : Char → Bool
is_break c = is_one (code c) (10 ∷ 11 ∷ 12 ∷ 13 ∷ 28 ∷ 29 ∷ 30 ∷ 133 ∷ 8232 ∷ 8233 ∷ [])
  where
    is_one : ℕ → List ℕ → Bool
    is_one n [] = false
    is_one n (m ∷ ms) = nat_beq n m || is_one n ms

-- "\r\n" is one break: the newline behind a carriage return is left out.
abbrev join_breaks : (after_return : Bool) → String → String
join_breaks after_return String.[] = ""
join_breaks after_return (String.◌∷◌ c s) =
    let rest = join_breaks (nat_beq (code c) 13) s in
    if after_return && nat_beq (code c) 10 then rest else String.◌∷◌ c rest

-- There is no line behind the last break.
abbrev drop_last_empty : List String → List String
drop_last_empty [] = []
drop_last_empty (line ∷ []) = if line == "" then [] else line ∷ []
drop_last_empty (line ∷ next ∷ lines) = line ∷ drop_last_empty (next ∷ lines)

-- s.splitlines()
unfoldable pub splitlines : String → List String
unfolding split
splitlines s = drop_last_empty (split is_break (join_breaks false s))
