-- ===== src/Core/Nar/Feeding.antt =====
-- core/nar.py: what Nar feeds to the hash functions is the archive of the ordered, filtered tree.
use Prim.Native.String
use text.Mathlib.Text.{is_lt}
use mathlib.Core.List.{◌++◌, append_assoc, append-nil}
use swh_loader_core.Prelude.{
  ℕ, ◌^◌, ◌<◌, String, ◌≡◌, refl, ap, sym, ◌∙◌, Bool, true, false, Option, none, some, List, [],
  ◌∷◌, length, keep, arith, ltb, if◌then◌else◌,
}
use swh_loader_core.Effects.{Exec, Result, ok, pure, modify, ◌>>=◌, ◌>>◌}
use swh_loader_core.Core.Nar.{
  Bytes, Fso, regular, symlink, directory, special, Entries, no_entries, entry, encode,
  little_endian, to_bytes, update, str_bytes, str, str_list, Named, insert_sorted, sorted, is_kept,
  run_all, serialize_entry, filter_and_serialize, serialize_body, children, serialize,
}
use swh_loader_core.Core.Nar.Unambiguous.{archive-injective}
use swh_loader_core.Core.Nar.Ordered.{
  to_branches, ordered, ordered_entries, IsSupported, AllSupported, ordered-IsValid,
}
use swh_loader_core.Core.Nar.Archive.{
  Tree, packed, word, mark, body, bodies, node, archive, IsShort,
}

-- `m` returns, and what it feeds is `d` in front of whatever comes.
record Feeds (m : Exec Bytes (Unit {0})) (d : Bytes → Bytes) : Type 0 where
  pub feed :
      (fed : Bytes)
      → (after : Bytes) × ((m fed ≡ (ok tt, after))
          × ((rest : Bytes) → (after ++ rest) ≡ (fed ++ d rest)))

Feeds-pure : Feeds (pure tt) (λ rest. rest)
unfolding pure
Feeds-pure = record { feed = λ fed. (fed, (refl, λ rest. refl)) }

Feeds-then :
    {m n : Exec Bytes (Unit {0})} {d e : Bytes → Bytes}
    → Feeds m d
    → Feeds n e
    → Feeds (m >> n) (λ rest. d (e rest))
unfolding ◌>>=◌
Feeds-then {m} {n} {d} {e} hm hn = record {
  feed = λ fed.
      let first = hm.feed fed in
      let second = hn.feed first.0 in
      let run : m fed ≡ (ok tt, first.0) = first.1.0 in
      (second.0, (rw run second.1.0, λ rest. second.1.1 rest ∙ first.1.1 (e rest)));
}

Feeds-update : (chunk : Bytes) → Feeds (update chunk) (λ rest. chunk ++ rest)
unfolding update modify
Feeds-update chunk = record {
  feed = λ fed. (fed ++ chunk, (refl, λ rest. append_assoc fed chunk rest));
}

to_bytes_short : (n : ℕ) (fed : Bytes) → n < 2 ^ 64 → to_bytes n fed ≡ (ok (little_endian 8 n), fed)
unfolding to_bytes pure
to_bytes_short n fed h = ground arith

Feeds-to_bytes :
    (m : Bytes → Exec Bytes (Unit {0})) {d : Bytes → Bytes} (n : ℕ)
    → n < 2 ^ 64
    → Feeds (m (little_endian 8 n)) d
    → Feeds (to_bytes n >>= m) d
unfolding ◌>>=◌
Feeds-to_bytes m n h hm = record {
  feed =
      λ fed. let rest = hm.feed fed in (rest.0, (rw (to_bytes_short n fed h) rest.1.0, rest.1.1));
}

Feeds-str_bytes : (b : Bytes) → IsShort b → Feeds (str_bytes b) (packed b)
unfolding str_bytes packed
Feeds-str_bytes b h =
    Feeds-to_bytes _ (length b) h
      (Feeds-then (Feeds-update _) (Feeds-then (Feeds-update _) (Feeds-update _)))

-- The words of a list, in front of the rest.
abbrev words : List String → Bytes → Bytes
words [] rest = rest
words (w ∷ ws) rest = word w (words ws rest)

abbrev AllShort : List String → Type 0
AllShort [] = Unit
AllShort (w ∷ ws) = IsShort (encode w) × AllShort ws

Feeds-str_list : (ws : List String) → AllShort ws → Feeds (str_list ws) (words ws)
unfolding str_list
Feeds-str_list [] h = Feeds-pure
Feeds-str_list (w ∷ ws) (h, hs) = Feeds-then (Feeds-str_bytes (encode w) h) (Feeds-str_list ws hs)

-- A word of the format, whose length is computed.
Feeds-word : (w : String) → ltb (length (encode w)) (2 ^ 64) ≡ true → Feeds (str w) (word w)
Feeds-word w h = Feeds-str_bytes (encode w) (ground arith)

all_short : List String → Bool
all_short [] = true
all_short (w ∷ ws) = elim (ltb (length (encode w)) (2 ^ 64)) [ true ↦ all_short ws | false ↦ false ]

Feeds-words : (ws : List String) → all_short ws ≡ true → Feeds (str_list ws) (words ws)
unfolding all_short str_list
Feeds-words [] h = Feeds-pure
Feeds-words (w ∷ ws) h = Feeds-then (Feeds-word w (ground arith)) (Feeds-words ws (ground arith))

-- One entry of a directory in front of the rest.
one : String × Tree → Bytes → Bytes
one (name, tree) rest = word "entry" (
    word "("
      (word "name" (word name (word "node" (word "(" (body tree (word ")" (word ")" rest))))))))

-- The actions feed the entries one by one.
abbrev AllFeed : List Named → List (String × Tree) → Type 0
AllFeed [] [] = Unit
AllFeed [] (y ∷ ys) = ⊥
AllFeed (x ∷ xs) [] = ⊥
AllFeed (x ∷ xs) (y ∷ ys) = (x.0 ≡ y.0) × (Feeds x.1 (one y) × AllFeed xs ys)

AllFeed-choose :
    (b c : Bool) (xs us : List Named) (ys vs : List (String × Tree))
    → b ≡ c
    → AllFeed xs ys
    → AllFeed us vs
    → AllFeed (if b then xs else us) (if c then ys else vs)
AllFeed-choose true true xs us ys vs e h k = h
AllFeed-choose true false xs us ys vs e h k = absurd (cc)
AllFeed-choose false true xs us ys vs e h k = absurd (cc)
AllFeed-choose false false xs us ys vs e h k = k

AllFeed-insert_sorted :
    (x : Named) (y : String × Tree) (xs : List Named) (ys : List (String × Tree))
    → x.0 ≡ y.0
    → Feeds x.1 (one y)
    → AllFeed xs ys
    → AllFeed (insert_sorted x xs) (insert_sorted y ys)
AllFeed-insert_sorted x y [] [] e f h = (e, (f, tt))
AllFeed-insert_sorted x y [] (v ∷ ys) e f h = absurd h
AllFeed-insert_sorted x y (u ∷ xs) [] e f h = absurd h
AllFeed-insert_sorted x y (u ∷ xs) (v ∷ ys) e f (eu, (fu, h)) =
    let test : is_lt (String.compare u.0 x.0) ≡ is_lt (String.compare v.0 y.0) =
      ap (λ (n : String). is_lt (String.compare n x.0)) eu
      ∙ ap (λ (n : String). is_lt (String.compare v.0 n)) e in
    AllFeed-choose _ _ (u ∷ insert_sorted x xs) (x ∷ u ∷ xs) (v ∷ insert_sorted y ys) (y ∷ v ∷ ys)
      test (eu, (fu, AllFeed-insert_sorted x y xs ys e f h)) (e, (f, (eu, (fu, h))))

AllFeed-sorted :
    (xs : List Named) (ys : List (String × Tree)) → AllFeed xs ys → AllFeed (sorted xs) (sorted ys)
AllFeed-sorted [] [] h = tt
AllFeed-sorted [] (v ∷ ys) h = absurd h
AllFeed-sorted (u ∷ xs) [] h = absurd h
AllFeed-sorted (u ∷ xs) (v ∷ ys) (e, (f, h)) =
    AllFeed-insert_sorted u v _ _ e f (AllFeed-sorted xs ys h)

is_kept-name :
    (ignored : Option String) (x : Named) (y : String × Tree)
    → x.0 ≡ y.0
    → is_kept ignored x ≡ is_kept ignored y
is_kept-name none x y e = refl
is_kept-name (some i) x y e = rw e refl

keep_cons :
    {A : Type 0} (p : A → Bool) (x : A) (xs : List A)
    → keep p (x ∷ xs) ≡ (if p x then x ∷ keep p xs else keep p xs)
keep_cons p x xs = ground arith

AllFeed-keep :
    (ignored : Option String) (xs : List Named) (ys : List (String × Tree))
    → AllFeed xs ys
    → AllFeed (keep (is_kept ignored) xs) (keep (is_kept ignored) ys)
AllFeed-keep ignored [] [] h = tt
AllFeed-keep ignored [] (v ∷ ys) h = absurd h
AllFeed-keep ignored (u ∷ xs) [] h = absurd h
AllFeed-keep ignored (u ∷ xs) (v ∷ ys) (e, (f, h)) =
    let rest = AllFeed-keep ignored xs ys h in
    rw (keep_cons (is_kept ignored) u xs, keep_cons (is_kept ignored) v ys)
      (AllFeed-choose _ _ (u ∷ keep (is_kept ignored) xs) (keep (is_kept ignored) xs)
        (v ∷ keep (is_kept ignored) ys) (keep (is_kept ignored) ys) (is_kept-name ignored u v e)
        (e, (f, rest)) rest)

Feeds-run_all :
    (xs : List Named) (ys : List (String × Tree))
    → AllFeed xs ys
    → Feeds (run_all xs) (bodies (to_branches ys))
unfolding run_all to_branches body one
Feeds-run_all [] [] h = Feeds-pure
Feeds-run_all [] (v ∷ ys) h = absurd h
Feeds-run_all (u ∷ xs) [] h = absurd h
Feeds-run_all (u ∷ xs) (v ∷ ys) (e, (f, h)) = Feeds-then f (Feeds-run_all xs ys h)

Feeds-filter :
    (ignored : Option String) (xs : List Named) (ys : List (String × Tree))
    → AllFeed xs ys
    → Feeds
        (filter_and_serialize ignored xs)
        (bodies (to_branches (keep (is_kept ignored) (sorted ys))))
unfolding filter_and_serialize
Feeds-filter ignored xs ys h = Feeds-run_all _ _ (AllFeed-keep ignored _ _ (AllFeed-sorted xs ys h))

Feeds-mark :
    (executable : Bool)
    → Feeds
        (elim executable [ true ↦ str_list ("executable" ∷ "" ∷ []) | false ↦ pure tt ])
        (mark executable)
unfolding mark encode all_short
Feeds-mark true = Feeds-words ("executable" ∷ "" ∷ []) refl
Feeds-mark false = Feeds-pure

Feeds-entry :
    (name : String) (tree : Tree) {m : Exec Bytes (Unit {0})}
    → IsShort (encode name)
    → Feeds m (node tree)
    → Feeds (serialize_entry name m) (one (name, tree))
unfolding serialize_entry encode one str_list
Feeds-entry name tree h hm =
    Feeds-then
      (Feeds-str_list ("entry" ∷ "(" ∷ "name" ∷ name ∷ "node" ∷ [])
        (omega arith, (omega arith, (omega arith, (h, (omega arith, tt))))))
      (Feeds-then hm (Feeds-word ")" refl))

module _ (ignored : Option String) where
  mutual
    unfolding serialize_body ordered body encode all_short

    Feeds-body :
        (fso : Fso)
        → IsSupported fso
        → Feeds (serialize_body ignored fso) (body (ordered ignored fso))
    Feeds-body (regular executable contents) h =
        Feeds-then (Feeds-words ("type" ∷ "regular" ∷ []) refl) (
          Feeds-then (Feeds-mark executable)
            (Feeds-then (Feeds-word "contents" refl) (Feeds-str_bytes contents h)))
    Feeds-body (symlink target) h =
        Feeds-then (Feeds-words ("type" ∷ "symlink" ∷ "target" ∷ []) refl)
          (Feeds-str_bytes (encode target) h)
    Feeds-body (directory entries) h =
        Feeds-then (Feeds-words ("type" ∷ "directory" ∷ []) refl)
          (Feeds-filter ignored _ _ (AllFeed-children entries h))
    Feeds-body special h = absurd h

    AllFeed-children :
        (entries : Entries)
        → AllSupported entries
        → AllFeed (children ignored entries) (ordered_entries ignored entries)
    AllFeed-children no_entries h = tt
    AllFeed-children (entry name fso rest) (hn, (hf, hs)) = (
      refl,
      (
        Feeds-entry name (ordered ignored fso) hn (
            Feeds-then (Feeds-word "(" refl)
              (Feeds-then (Feeds-body fso hf) (Feeds-word ")" refl))),
        AllFeed-children rest hs,
      ),
    )

pub serialize-archive :
    (ignored : Option String) (fso : Fso)
    → IsSupported fso
    → (fed : Bytes) × ((serialize ignored fso [] ≡ (ok tt, fed))
        × (fed ≡ archive (ordered ignored fso) []))
unfolding serialize encode
serialize-archive ignored fso h =
    let all =
      (Feeds-then (Feeds-word "nix-archive-1" refl) (
          Feeds-then (Feeds-word "(" refl)
            (Feeds-then (Feeds-body ignored fso h) (Feeds-word ")" refl)))).feed
        [] in
    (all.0, (all.1.0, sym (append-nil all.0) ∙ all.1.1 []))

-- Two paths for which `serialize` feeds the same bytes stand for the same tree: they differ at most
-- in the ignored entries and in the order in which iterdir() lists a directory. The paths have no
-- special files, and no text longer than its length field can say.
pub serialize-injective :
    (ignored : Option String) (a b : Fso)
    → IsSupported a
    → IsSupported b
    → serialize ignored a [] ≡ serialize ignored b []
    → ordered ignored a ≡ ordered ignored b
serialize-injective ignored a b ha hb e =
    let one_run = serialize-archive ignored a ha in
    let other_run = serialize-archive ignored b hb in
    let run : serialize ignored a [] ≡ (ok tt, one_run.0) = one_run.1.0 in
    let other : serialize ignored b [] ≡ (ok tt, other_run.0) = other_run.1.0 in
    let fed : one_run.0 ≡ other_run.0 =
      ap (λ (r : Result (Unit {0}) × Bytes). r.1) (sym run ∙ (e ∙ other)) in
    (archive-injective _ _ [] [] (ordered-IsValid ignored a ha) (ordered-IsValid ignored b hb)
      (sym one_run.1.1 ∙ (fed ∙ other_run.1.1))).0
