-- ===== src/Core/Nar/Halting.antt =====
-- core/nar.py: the serialization of a tree ends, whatever the tree.
use text.Mathlib.Text.{is_lt}
use Prim.Native.String
use swh_loader_core.Prelude.{
  ℕ, String, Bool, true, false, Option, List, [], ◌∷◌, length, All, All-keep, if◌then◌else◌,
}
use swh_loader_core.Effects.{Exec, ◌>>◌}
use swh_loader_core.Effects.Fuel.{
  Halts, Halts-pure, Halts-throw, Halts-modify, Halts-if, Halts-bind,
}
use swh_loader_core.Core.Nar.{
  Bytes, Fso, regular, symlink, directory, special, Entries, no_entries, entry, to_bytes, update,
  str_bytes, str, str_list, Named, insert_sorted, sorted, is_kept, run_all, serialize_entry,
  filter_and_serialize, serialize_body, children, serialize,
}

abbrev IsHalting : Named → Type 0
IsHalting x = Halts x.1

Halts-to_bytes : (n : ℕ) → Halts {S = Bytes} (to_bytes n)
unfolding to_bytes
Halts-to_bytes n = Halts-if _ (Halts-pure _) (Halts-throw _)

Halts-update : (chunk : Bytes) → Halts (update chunk)
unfolding update
Halts-update chunk = Halts-modify _

Halts-str_bytes : (b : Bytes) → Halts (str_bytes b)
unfolding str_bytes
Halts-str_bytes b =
    Halts-bind (Halts-to_bytes (length b))
      λ blen. Halts-bind (Halts-update blen) λ _. Halts-bind (Halts-update b) λ _. Halts-update _

Halts-str_list : (things : List String) → Halts (str_list things)
unfolding str_list
Halts-str_list [] = Halts-pure tt
Halts-str_list (stuff ∷ things) = Halts-bind (Halts-str_bytes _) λ _. Halts-str_list things

Halts-run_all : (xs : List Named) → All IsHalting xs → Halts (run_all xs)
unfolding run_all
Halts-run_all [] h = Halts-pure tt
Halts-run_all (x ∷ xs) (h, hs) = Halts-bind h λ _. Halts-run_all xs hs

All-choose :
    (b : Bool) (xs ys : List Named)
    → All IsHalting xs
    → All IsHalting ys
    → All IsHalting (if b then xs else ys)
All-choose true xs ys h k = h
All-choose false xs ys h k = k

All-insert_sorted :
    (x : Named) (xs : List Named)
    → IsHalting x
    → All IsHalting xs
    → All IsHalting (insert_sorted x xs)
All-insert_sorted x [] h hs = (h, tt)
All-insert_sorted x (y ∷ xs) h (hy, hs) =
    All-choose (is_lt (String.compare y.0 x.0)) (y ∷ insert_sorted x xs) (x ∷ y ∷ xs)
      (hy, All-insert_sorted x xs h hs) (h, (hy, hs))

All-sorted : (xs : List Named) → All IsHalting xs → All IsHalting (sorted xs)
All-sorted [] h = tt
All-sorted (x ∷ xs) (h, hs) = All-insert_sorted x (sorted xs) h (All-sorted xs hs)

Halts-parens : {m : Exec Bytes (Unit {0})} → Halts m → Halts (str "(" >> (m >> str ")"))
Halts-parens h = Halts-bind (Halts-str_bytes _) λ _. Halts-bind h λ _. Halts-str_bytes _

module _ (ignored : Option String) where
  mutual
    unfolding serialize_body serialize_entry filter_and_serialize

    Halts-serialize_body : (fso : Fso) → Halts (serialize_body ignored fso)
    Halts-serialize_body (regular executable contents) = Halts-bind (Halts-str_list _) λ _.
        Halts-bind (Halts-if executable (Halts-str_list _) (Halts-pure tt))
          λ _. Halts-bind (Halts-str_bytes _) λ _. Halts-str_bytes contents
    Halts-serialize_body (symlink target) = Halts-bind (Halts-str_list _) λ _. Halts-str_bytes _
    Halts-serialize_body (directory entries) = Halts-bind (Halts-str_list _) λ _.
        Halts-run_all _
          (All-keep IsHalting (is_kept ignored) _ (All-sorted _ (All-children entries)))
    Halts-serialize_body special = Halts-throw _

    All-children : (entries : Entries) → All IsHalting (children ignored entries)
    All-children no_entries = tt
    All-children (entry name fso rest) = (
      Halts-bind (Halts-str_list _)
          λ _. Halts-bind (Halts-parens (Halts-serialize_body fso)) λ _. Halts-str_bytes _,
      All-children rest,
    )

  pub Halts-serialize : (fso : Fso) → Halts (serialize ignored fso)
  unfolding serialize
  Halts-serialize fso = Halts-bind (Halts-str_bytes _) λ _. Halts-parens (Halts-serialize_body fso)
