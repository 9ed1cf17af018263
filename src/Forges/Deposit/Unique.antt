-- ===== src/Forges/Deposit/Unique.antt =====
-- package/deposit/loader.py: the loop of generate_branch_name ends, with a name that is new.
use Prim.Native.String
use text.Mathlib.TextLemmas.{append_cancel_left, append-nil, append-eq-nil_iff, cons≢nil}
use swh_loader_core.Prelude.{
  ℕ, zero, suc, ◌+◌, ◌≤◌, ◌<◌, String, ◌≡◌, ◌≢◌, refl, sym, ap, ◌∙◌, true, false, List, [], ◌∷◌,
  insert, contains, Different, inl, inr, arith, lookup, lookup-insert, lookup-insert_self, some,
  length, string_eq, ◌==◌, decimal_inj, Bool-cases,
}
use swh_loader_core.Effects.{ok, effects}
use swh_loader_core.Forges.Deposit.Branches.{
  Unicode, Names, values, candidate, find_unique, build_branch_name, generate_branch_name,
  generate_all,
}

-- The list without an element.
remove : String → List String → List String
remove x [] = []
remove x (y ∷ ys) = let rest = remove x ys in elim (y == x) [ true ↦ rest | false ↦ y ∷ rest ]

length-remove_le : (x : String) (ys : List String) → length (remove x ys) ≤ length ys
unfolding remove
length-remove_le x [] = omega arith
length-remove_le x (y ∷ ys) = ground (arith, length-remove_le x ys)

length-remove :
    (x : String) (ys : List String) → contains ys x ≡ true → suc (length (remove x ys)) ≤ length ys
unfolding remove
length-remove x [] h = ground arith
length-remove x (y ∷ ys) h =
    ground (
      arith,
      length-remove x ys,
      length-remove_le x ys,
      string_eq.beq_iff x y,
      string_eq.beq_iff y x,
    )

contains-remove :
    (x z : String) (ys : List String) → z ≢ x → contains (remove x ys) z ≡ contains ys z
unfolding remove
contains-remove x z [] h = refl
contains-remove x z (y ∷ ys) h =
    ground (arith, contains-remove x z ys h, string_eq.beq_iff z y, string_eq.beq_iff y x)

-- Among one more different texts than a list has, one is not in the list.
fresh :
    (n : ℕ) (f : ℕ → String) (used : List String)
    → ((i j : ℕ) → f i ≡ f j → i ≡ j)
    → length used ≤ n
    → (k : ℕ) × ((k ≤ n) × (contains used (f k) ≡ false))
fresh zero f [] inj h = (0, (omega arith, refl))
fresh zero f (x ∷ used) inj h = ground arith
fresh (suc n) f used inj h = elim (Bool-cases (contains used (f 0))) [
  | inr e ↦ (0, (omega arith, e))
  | inl e ↦
      let r =
        fresh n (λ i. f (suc i)) (remove (f 0) used) (λ i j p. omega (arith, inj (suc i) (suc j) p))
          (omega (arith, h, length-remove (f 0) used e)) in
      (
        suc r.0,
        (
          omega (arith, r.1.0),
          sym (contains-remove (f 0) (f (suc r.0)) used (λ p. ground (arith, inj (suc r.0) 0 p)))
              ∙ r.1.1,
        ),
      )
]

slash≢nil : (initial s : String) → initial ≡ String.◌++◌ initial (String.◌++◌ "/" s) → ⊥
slash≢nil initial s e =
    cons≢nil
      (append-eq-nil_iff.0
        (sym (append_cancel_left initial "" (String.◌++◌ "/" s) (append-nil initial ∙ e)))).0

candidate_inj : (initial : String) (i j : ℕ) → candidate initial i ≡ candidate initial j → i ≡ j
candidate_inj initial zero zero e = refl
candidate_inj initial zero (suc j) e = absurd (slash≢nil initial _ e)
candidate_inj initial (suc i) zero e = absurd (slash≢nil initial _ (sym e))
candidate_inj initial (suc i) (suc j) e =
    decimal_inj (suc i) (suc j) (append_cancel_left "/" _ _ (append_cancel_left initial _ _ e))

-- The loop finds a name that is not used, if one of the next names is not.
find_unique_new :
    (fuel : ℕ) (initial : String) (used : List String) (c k : ℕ)
    → k < fuel
    → contains used (candidate initial (c + k)) ≡ false
    → (i : ℕ) × ((find_unique fuel initial used c ≡ ok (candidate initial i))
        × (contains used (candidate initial i) ≡ false))
find_unique_new zero initial used c k h e = ground arith
find_unique_new (suc fuel) initial used c zero h e =
    let free : contains used (candidate initial c) ≡ false =
      ap (λ n. contains used (candidate initial n)) (omega arith) ∙ e in
    (c, (rw free refl, free))
find_unique_new (suc fuel) initial used c (suc k) h e =
    elim (Bool-cases (contains used (candidate initial c))) [
      | inr free ↦ (c, (rw free refl, free))
      | inl taken ↦ rw taken (
          find_unique_new fuel initial used (suc c) k (omega (arith, h))
            (ap (λ n. contains used (candidate initial n)) (omega arith) ∙ e))
    ]

length-values : (names : Names) → length (values names) ≡ length names
length-values [] = refl
length-values (n ∷ names) = ap suc (length-values names)

-- generate_branch_name always returns, and the name that it returns and keeps under the version is
-- one of no version before.
pub generate_branch_name_new :
    (unicode : Unicode) (version : String) (names : Names)
    → (name : String) × ((generate_branch_name unicode version names
          ≡ (ok name, insert version name names))
        × (contains (values names) name ≡ false))
unfolding generate_branch_name effects
generate_branch_name_new unicode version names =
    let initial = build_branch_name unicode version in
    let free =
      fresh (length names) (candidate initial) (values names) (candidate_inj initial)
        (omega (arith, length-values names)) in
    let found =
      find_unique_new (suc (length names)) initial (values names) 0 free.0 (omega (arith, free.1.0))
        (ap (λ n. contains (values names) (candidate initial n)) (omega arith) ∙ free.1.1) in
    (candidate initial found.0, (rw found.1.0 refl, found.1.1))

taken_by_value :
    (v x : String) (names : Names) → lookup v names ≡ some x → contains (values names) x ≡ true
taken_by_value v x [] h = ground arith
taken_by_value v x ((w, y) ∷ names) h =
    ground (arith, string_eq.beq_iff w v, string_eq.beq_iff x y, taken_by_value v x names)

-- What the names issued for a list of versions have: there is one for each version, they are
-- pairwise different, and none is the name that another version has already.
record Issued (versions : List String) (names : Names) (issued : List String) : Type 0 where
  pub each : length issued ≡ length versions
  pub different : Different issued
  pub avoids :
      (v x : String)
      → lookup v names ≡ some x
      → contains versions v ≡ false
      → contains issued x ≡ false

issue :
    (unicode : Unicode) (versions : List String) (names : Names)
    → Different versions
    → (issued : List String) × ((final : Names) × ((generate_all unicode versions names
            ≡ (ok issued, final))
          × Issued versions names issued))
unfolding generate_all effects
issue unicode [] names d =
    ([], (names, (refl, record { each = refl; different = tt; avoids = λ v x l c. refl })))
issue unicode (version ∷ versions) names (d, ds) =
    let new = generate_branch_name_new unicode version names in
    let name = new.0 in
    let rest = issue unicode versions (insert version name names) ds in
    let i : Issued versions (insert version name names) rest.0 = rest.1.1.1 in
    (
      name ∷ rest.0,
      (
        rest.1.0,
        (
          rw (new.1.0, rest.1.1.0) refl,
          record {
            each = ap suc i.each;
            different =
                (i.avoids version name (lookup-insert_self version name names) d, i.different);
            avoids = λ v x l c. ground (
              arith,
              taken_by_value v x names l,
              new.1.1,
              string_eq.beq_iff x name,
              string_eq.beq_iff version v,
              string_eq.beq_iff v version,
              lookup-insert version v name names,
              i.avoids v x,
            );
          },
        ),
      ),
    )

-- For different versions the deposit loader issues as many branch names, pairwise different, whatever
-- names it has issued before.
pub generate_all-Different :
    (unicode : Unicode) (versions : List String) (names : Names)
    → Different versions
    → (issued : List String) × ((final : Names) × ((generate_all unicode versions names
            ≡ (ok issued, final))
          × ((length issued ≡ length versions) × Different issued)))
generate_all-Different unicode versions names d =
    let r = issue unicode versions names d in
    (r.0, (r.1.0, (r.1.1.0, (r.1.1.1.each, r.1.1.1.different))))
