-- ===== src/Prelude/Dicts.antt =====
-- Python's dict: an association list in insertion order. Writing to a key that is there changes
-- its value in place.
use mathlib.Core.Path.{◌≡◌, refl}
use mathlib.Core.Bool.{Bool}
use mathlib.Core.Option.{Option, none, some}
use mathlib.Core.List.{List, [], ◌∷◌, ◌++◌}
use native.Mathlib.Omega.{arith}
use swh_loader_core.Prelude.Tests.{if◌then◌else◌, is_some}
use swh_loader_core.Prelude.Lists.{Within}
use swh_loader_core.Prelude.Equality.{Eq, ◌==◌}

abbrev pub Dict : Type 0 → Type 0 → Type 0
Dict K V = List (K × V)

module _ {K V : Type 0} ⦃e : Eq K⦄ where
  -- d.get(k)
  abbrev pub lookup : K → Dict K V → Option V
  lookup k [] = none
  lookup k ((j, v) ∷ d) = if j == k then some v else lookup k d

  -- d[k] = v
  abbrev pub insert : K → V → Dict K V → Dict K V
  insert k v [] = (k, v) ∷ []
  insert k v ((j, w) ∷ d) = if j == k then (j, v) ∷ d else (j, w) ∷ insert k v d

  pub lookup-insert :
      (k j : K) (v : V) (d : Dict K V)
      → lookup j (insert k v d) ≡ (if k == j then some v else lookup j d)
  lookup-insert k j v [] = refl
  lookup-insert k j v ((i, w) ∷ d) =
      ground (arith, e.beq_iff k j, e.beq_iff i k, e.beq_iff i j, lookup-insert k j v d)

  pub lookup-insert_self : (k : K) (v : V) (d : Dict K V) → lookup k (insert k v d) ≡ some v
  lookup-insert_self k v d = ground (arith, lookup-insert k k v d, e.beq_iff k k)

  -- k in d
  abbrev pub has_key : K → Dict K V → Bool
  has_key k d = is_some (lookup k d)

  pub lookup→Within : (k : K) (v : V) (d : Dict K V) → lookup k d ≡ some v → Within (k, v) d
  lookup→Within k v [] h = ground arith
  lookup→Within k v ((j, w) ∷ d) h = ground (arith, e.beq_iff j k, lookup→Within k v d)

module _ {K V : Type 0} ⦃e : Eq K⦄ where
  -- d.get(k, [])
  abbrev pub entries : K → Dict K (List V) → List V
  entries k d = elim (lookup k d) [ none ↦ [] | some vs ↦ vs ]

  -- d.setdefault(k, []).append(v)
  abbrev pub append_to : K → V → Dict K (List V) → Dict K (List V)
  append_to k v d = insert k (entries k d ++ v ∷ []) d

  pub entries-append_to :
      (k j : K) (v : V) (d : Dict K (List V))
      → entries j (append_to k v d) ≡ (if k == j then entries k d ++ v ∷ [] else entries j d)
  entries-append_to k j v d = ground (arith, lookup-insert k j (entries k d ++ v ∷ []) d)
