-- ===== src/Core/Nar/Readable.antt =====
-- core/nar.py: what str_ feeds can be read back, and is made of whole words of eight bytes.
use swh_loader_core.Prelude.{
  ℕ, zero, suc, ◌+◌, ◌*◌, ◌/◌, ◌^◌, ◌<◌, ◌≡◌, refl, ap, sym, ◌∙◌, true, [], ◌∷◌, ◌++◌, length, take,
  drop, replicate, length-append, length-replicate, take-length-append, drop-length-append, arith,
  ltb,
}
use mathlib.Core.Path.{subst}
use swh_loader_core.Effects.{ok, effects}
use swh_loader_core.Core.Nar.{Bytes, little_endian, to_bytes, offset, update, str_bytes}
use swh_loader_core.Core.Nar.Archive.{IsShort}

-- int.from_bytes(b, byteorder="little")
abbrev value : Bytes → ℕ
value [] = 0
value (b ∷ bs) = b + 256 * value bs

-- The bytes of the least number of words of eight bytes that hold n bytes.
abbrev pub words : ℕ → ℕ
words n = 8 * ((n + 7) / 8)

-- A reader of the format: a length, that many bytes, and the rest of the words that hold them.
pub read_str : Bytes → Bytes × Bytes
read_str b = let n = value (take 8 b) in let rest = drop 8 b in (take n rest, drop (words n) rest)

value-little_endian : (width n : ℕ) → n < 256 ^ width → value (little_endian width n) ≡ n
unfolding little_endian
value-little_endian zero n h = omega arith
value-little_endian (suc width) n h =
    omega (arith, value-little_endian width (n / 256) (omega arith))

length-little_endian : (width n : ℕ) → length (little_endian width n) ≡ width
unfolding little_endian
length-little_endian zero n = refl
length-little_endian (suc width) n = ap suc (length-little_endian width (n / 256))

append_assoc : (a b c : Bytes) → (a ++ b) ++ c ≡ a ++ (b ++ c)
append_assoc [] b c = refl
append_assoc (x ∷ a) b c = ap (λ (l : Bytes). x ∷ l) (append_assoc a b c)

-- The bytes that str_ feeds.
abbrev fed_bytes : Bytes → Bytes
fed_bytes b = little_endian 8 (length b) ++ (b ++ replicate (offset (length b)) 0)

offset-words : (n : ℕ) → n + offset n ≡ words n
offset-words n = ground arith

length-fed_bytes : (b : Bytes) → length (fed_bytes b) ≡ 8 + words (length b)
length-fed_bytes b = omega (
  arith,
  offset-words (length b),
  length-append (little_endian 8 (length b)) (b ++ replicate (offset (length b)) 0),
  length-append b (replicate (offset (length b)) 0),
  length-replicate {A = ℕ} (offset (length b)) 0,
  length-little_endian 8 (length b),
)

to_bytes_short : (n : ℕ) (fed : Bytes) → n < 2 ^ 64 → to_bytes n fed ≡ (ok (little_endian 8 n), fed)
unfolding to_bytes effects
to_bytes_short n fed h = rw (short n h, to_bytes) refl
  where
    short : (n : ℕ) → n < 2 ^ 64 → ltb n (2 ^ 64) ≡ true
    short n h = ground arith

runs :
    (b fed : Bytes)
    → IsShort b
    → str_bytes b fed
      ≡ (ok tt, ((fed ++ little_endian 8 (length b)) ++ b) ++ replicate (offset (length b)) 0)
unfolding str_bytes update effects
runs b fed h = rw (to_bytes_short (length b) fed h) refl

reads : (b more : Bytes) → IsShort b → read_str (fed_bytes b ++ more) ≡ (b, more)
unfolding read_str
reads b more h =
    let head = little_endian 8 (length b) in
    let zeros : Bytes = replicate (offset (length b)) 0 in
    let whole : fed_bytes b ++ more ≡ head ++ (b ++ (zeros ++ more)) =
      append_assoc head (b ++ zeros) more
      ∙ ap (λ (l : Bytes). head ++ l) (append_assoc b zeros more) in
    let first : take 8 (head ++ (b ++ (zeros ++ more))) ≡ head =
      subst (λ k. take k (head ++ (b ++ (zeros ++ more))) ≡ head)
        (length-little_endian 8 (length b)) (take-length-append head (b ++ (zeros ++ more))) in
    let behind : drop 8 (head ++ (b ++ (zeros ++ more))) ≡ b ++ (zeros ++ more) =
      subst (λ k. drop k (head ++ (b ++ (zeros ++ more))) ≡ b ++ (zeros ++ more))
        (length-little_endian 8 (length b)) (drop-length-append head (b ++ (zeros ++ more))) in
    let padded : length (b ++ zeros) ≡ length b + offset (length b) =
      length-append b zeros
      ∙ ap (λ k. length b + k) (length-replicate {A = ℕ} (offset (length b)) 0) in
    let last : drop (words (length b)) (b ++ (zeros ++ more)) ≡ more =
      subst (λ k. drop k (b ++ (zeros ++ more)) ≡ more) (padded ∙ offset-words (length b))
        (ap (λ (l : Bytes). drop (length (b ++ zeros)) l) (sym (append_assoc b zeros more))
          ∙ drop-length-append (b ++ zeros) more) in
    rw
      (
        whole,
        first,
        behind,
        value-little_endian 8 (length b) h,
        take-length-append b (zeros ++ more),
      )
      (ap (λ (l : Bytes). (b, l)) last)

-- str_ returns for a string of less than 2^64 bytes, and what it feeds, in front of whatever comes next, is
-- read back as that string and the rest by a reader that takes the length from the first eight bytes and
-- skips to the end of the last word of eight bytes that holds the string; it is a length word and the
-- least number of words that hold the string.
pub str_bytes_read :
    (b fed more : Bytes)
    → IsShort b
    → (out : Bytes) × ((str_bytes b fed ≡ (ok tt, fed ++ out))
        × ((read_str (out ++ more) ≡ (b, more)) × (length out ≡ 8 + words (length b))))
str_bytes_read b fed more h = (
  fed_bytes b,
  (
    runs b fed h
        ∙ ap (λ (l : Bytes). (ok tt, l))
            (append_assoc (fed ++ little_endian 8 (length b)) b _
              ∙ append_assoc fed (little_endian 8 (length b)) _),
    (reads b more h, length-fed_bytes b),
  ),
)
