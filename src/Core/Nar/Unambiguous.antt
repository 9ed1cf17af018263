-- ===== src/Core/Nar/Unambiguous.antt =====
-- core/nar.py: the format of Nar is unambiguous: it can be read back in one way only.
use swh_loader_core.Prelude.{
  ℕ, zero, suc, ◌/◌, ◌%◌, ◌^◌, ◌<◌, String, ◌≡◌, refl, ap, Bool, true, false, List, [], ◌∷◌, ◌++◌,
  length, replicate, arith, ltb, nat_beq, nat_beq_iff,
}
use swh_loader_core.Core.Nar.{Bytes, encode, little_endian, offset}
use swh_loader_core.Core.Nar.Archive.{
  Tree, regular, symlink, directory, Branches, no_branches, branch, packed, word, mark, body,
  bodies, archive, IsShort, IsValid, AllValid,
}

-- Two texts of the same length in front of others.
append-injective :
    {A : Type 0} {r s : List A} (a b : List A)
    → length a ≡ length b
    → (a ++ r) ≡ (b ++ s)
    → (a ≡ b) × (r ≡ s)
append-injective [] [] l e = (refl, e)
append-injective [] (y ∷ b) l e = absurd (omega arith)
append-injective (x ∷ a) [] l e = absurd (omega arith)
append-injective {A} {r} {s} (x ∷ a) (y ∷ b) l e =
    let head : x ≡ y = cc in
    let rest : (a ++ r) ≡ (b ++ s) = cc in
    let ih = append-injective a b (omega arith) rest in let eq : a ≡ b = ih.0 in (cc, ih.1)

length-little_endian : (width n : ℕ) → length (little_endian width n) ≡ width
unfolding little_endian
length-little_endian zero n = refl
length-little_endian (suc width) n = ap suc (length-little_endian width (n / 256))

little_endian-injective :
    (width n m : ℕ)
    → n < 256 ^ width
    → m < 256 ^ width
    → little_endian width n ≡ little_endian width m
    → n ≡ m
unfolding little_endian
little_endian-injective zero n m hn hm e = omega arith
little_endian-injective (suc width) n m hn hm e =
    let low : (n % 256) ≡ (m % 256) = cc in
    let rest : little_endian width (n / 256) ≡ little_endian width (m / 256) = cc in
    let high : (n / 256) ≡ (m / 256) =
      little_endian-injective width (n / 256) (m / 256) (omega arith) (omega arith) rest in
    omega arith

packed-injective :
    (b c : Bytes) {r s : Bytes}
    → IsShort b
    → IsShort c
    → packed b r ≡ packed c s
    → (b ≡ c) × (r ≡ s)
unfolding packed
packed-injective b c {r} {s} hb hc e =
    let first =
      append-injective (little_endian 8 (length b)) (little_endian 8 (length c))
        (omega (arith, length-little_endian 8 (length b), length-little_endian 8 (length c))) e in
    let same : length b ≡ length c =
      little_endian-injective 8 (length b) (length c) hb hc first.0 in
    let second = append-injective b c same first.1 in
    let third =
      append-injective (replicate (offset (length b)) 0) (replicate (offset (length c)) 0)
        (ap (λ (n : ℕ). length {A = ℕ} (replicate (offset n) 0)) same) second.1 in
    (second.0, third.1)

-- A word of the format is short.
abbrev is_word : String → Bool
is_word s = ltb (length (encode s)) (2 ^ 64)

abbrev initial : Bytes → ℕ
initial [] = 0
initial (x ∷ b) = x

module _ {r s : Bytes} where
  -- The same word in front of two texts.
  unpack : (w : String) → is_word w ≡ true → word w r ≡ word w s → r ≡ s
  unpack w h e = (packed-injective (encode w) (encode w) (ground arith) (ground arith) e).1

-- Two words with different initials are not in front of the same text.
clash :
    {A : Type 0} (v w : String) (r s : Bytes)
    → is_word v ≡ true
    → is_word w ≡ true
    → nat_beq (initial (encode v)) (initial (encode w)) ≡ false
    → word v r ≡ word w s
    → A
clash v w r s hv hw ne e =
    let same : encode v ≡ encode w =
      (packed-injective (encode v) (encode w) (ground arith) (ground arith) e).0 in
    let first : initial (encode v) ≡ initial (encode w) = ap initial same in
    absurd (ground (arith, nat_beq_iff (initial (encode v)) (initial (encode w))))

mark-injective :
    (x y : Bool) (r s : Bytes)
    → mark x (word "contents" r) ≡ mark y (word "contents" s)
    → (x ≡ y) × (r ≡ s)
unfolding mark encode
mark-injective true true r s e =
    (refl, unpack "contents" refl (unpack "" refl (unpack "executable" refl e)))
mark-injective true false r s e = clash "executable" "contents" _ _ refl refl refl e
mark-injective false true r s e = clash "contents" "executable" _ _ refl refl refl e
mark-injective false false r s e = (refl, unpack "contents" refl e)

regular-injective :
    (x y : Bool) (b c r s : Bytes)
    → IsShort b
    → IsShort c
    → word "regular" (mark x (word "contents" (packed b r)))
      ≡ word "regular" (mark y (word "contents" (packed c s)))
    → (regular x b ≡ regular y c) × (r ≡ s)
unfolding encode
regular-injective x y b c r s hb hc e =
    let marks = mark-injective x y (packed b r) (packed c s) (unpack "regular" refl e) in
    let texts = packed-injective b c hb hc marks.1 in
    let same_mark : x ≡ y = marks.0 in let same_text : b ≡ c = texts.0 in (cc, texts.1)

mutual
  unfolding body encode

  body-injective :
      (t u : Tree) {r s : Bytes}
      → IsValid t
      → IsValid u
      → body t (word ")" r) ≡ body u (word ")" s)
      → (t ≡ u) × (r ≡ s)
  body-injective (regular x b) (regular y c) vt vu e =
      let inner = regular-injective x y b c _ _ vt vu (unpack "type" refl e) in
      (inner.0, unpack ")" refl inner.1)
  body-injective (regular x b) (symlink c) vt vu e =
      clash "regular" "symlink" _ _ refl refl refl (unpack "type" refl e)
  body-injective (regular x b) (directory c) vt vu e =
      clash "regular" "directory" _ _ refl refl refl (unpack "type" refl e)
  body-injective (symlink b) (regular x c) vt vu e =
      clash "symlink" "regular" _ _ refl refl refl (unpack "type" refl e)
  body-injective (symlink b) (symlink c) vt vu e =
      let inner =
        packed-injective b c vt vu
          (unpack "target" refl (unpack "symlink" refl (unpack "type" refl e))) in
      (ap symlink inner.0, unpack ")" refl inner.1)
  body-injective (symlink b) (directory c) vt vu e =
      clash "symlink" "directory" _ _ refl refl refl (unpack "type" refl e)
  body-injective (directory b) (regular x c) vt vu e =
      clash "directory" "regular" _ _ refl refl refl (unpack "type" refl e)
  body-injective (directory b) (symlink c) vt vu e =
      clash "directory" "symlink" _ _ refl refl refl (unpack "type" refl e)
  body-injective (directory b) (directory c) vt vu e =
      let inner = bodies-injective b c vt vu (unpack "directory" refl (unpack "type" refl e)) in
      (ap directory inner.0, inner.1)

  bodies-injective :
      (t u : Branches) {r s : Bytes}
      → AllValid t
      → AllValid u
      → bodies t (word ")" r) ≡ bodies u (word ")" s)
      → (t ≡ u) × (r ≡ s)
  bodies-injective no_branches no_branches vt vu e = (refl, unpack ")" refl e)
  bodies-injective no_branches (branch n t more) vt vu e = clash ")" "entry" _ _ refl refl refl e
  bodies-injective (branch n t more) no_branches vt vu e = clash "entry" ")" _ _ refl refl refl e
  bodies-injective (branch n t more) (branch m u rest) (hn, (ht, hmore)) (hm, (hu, hrest)) e =
      let named =
        packed-injective n m hn hm (unpack "name" refl (unpack "(" refl (unpack "entry" refl e))) in
      let inner = body-injective t u ht hu (unpack "(" refl (unpack "node" refl named.1)) in
      let outer = bodies-injective more rest hmore hrest (unpack ")" refl inner.1) in
      let names : n ≡ m = named.0 in
      let trees : t ≡ u = inner.0 in let mores : more ≡ rest = outer.0 in (cc, outer.1)

-- Two archives that begin the same text are archives of the same tree, and the texts go on the same
-- way, where no string in the trees is longer than its length field can say.
pub archive-injective :
    (t u : Tree) (r s : Bytes)
    → IsValid t
    → IsValid u
    → archive t r ≡ archive u s
    → (t ≡ u) × (r ≡ s)
unfolding encode
archive-injective t u r s ht hu e =
    body-injective t u ht hu (unpack "(" refl (unpack "nix-archive-1" refl e))
