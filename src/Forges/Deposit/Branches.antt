-- ===== src/Forges/Deposit/Branches.antt =====
-- package/deposit/loader.py: the names of the branches of a deposit. What Python's re and str say of a
-- character (`\w`, `\s`, lower) stands on the tables of Unicode, which are a parameter.
use Prim.Native.Char.{Char, code}
use Prim.Native.String
use swh_loader_core.Prelude.{
  ℕ, zero, suc, String, Bool, true, false, ◌||◌, Option, List, [], ◌∷◌, map, Dict, insert, lookup,
  contains, string_eq, nat_beq, decimal, length, if◌then◌else◌,
}
use swh_loader_core.Effects.{Exec, Result, ok, no_fuel, pure, gets, modify, ◌>>=◌, ◌>>◌}
use swh_loader_core.Forges.Text.{lstrip, rstrip}

pub record Unicode : Type 0 where
  pub lower : String → String
  pub is_word : Char → Bool
  pub is_space : Char → Bool

abbrev is_dash : Char → Bool
is_dash c = nat_beq (code c) b'-'

abbrev is_dot : Char → Bool
is_dot c = nat_beq (code c) b'.'

-- `c in "-_."`
abbrev is_stripped : Char → Bool
is_stripped c = is_dash c || (nat_beq (code c) b'_' || is_dot c)

module _ (unicode : Unicode) where
  -- re.sub(r"[^\w\s\.-]", "", s)
  unfoldable pub drop_special : String → String
  drop_special String.[] = ""
  drop_special (String.◌∷◌ c s) =
      let rest = drop_special s in
      if unicode.is_word c || (unicode.is_space c || (is_dot c || is_dash c))
      then String.◌∷◌ c rest
      else rest

  -- re.sub(r"[-\s]+", "-", s): `in_run` tells that the character before was in such a run.
  unfoldable pub join_runs : (in_run : Bool) → String → String
  join_runs in_run String.[] = ""
  join_runs in_run (String.◌∷◌ c s) =
      let after_run = join_runs true s in
      let after_other = join_runs false s in
      if is_dash c || unicode.is_space c
      then (if in_run then after_run else String.◌++◌ "-" after_run)
      else String.◌∷◌ c after_other

-- build_branch_name
unfoldable pub build_branch_name : Unicode → String → String
unfolding drop_special join_runs
build_branch_name unicode version = String.◌++◌ "deposit/" (
    rstrip is_stripped
      (lstrip is_stripped (join_runs unicode false (drop_special unicode (unicode.lower version)))))

-- `self._branches_names`: the names issued so far, by version.
abbrev pub Names : Type 0
Names = Dict String String

-- `self._branches_names.values()`
abbrev pub values : Names → List String
values names = map (λ (n : String × String). n.1) names

-- The n-th name that is tried.
abbrev pub candidate : String → ℕ → String
candidate initial zero = initial
candidate initial (suc n) = String.◌++◌ initial (String.◌++◌ "/" (decimal (suc n)))

-- `while unique_branch_name in self._branches_names.values()`
abbrev pub find_unique : (fuel : ℕ) → String → List String → (counter : ℕ) → Result String
find_unique zero initial used counter = no_fuel
find_unique (suc fuel) initial used counter =
    let next = find_unique fuel initial used (suc counter) in
    if contains used (candidate initial counter) then next else ok (candidate initial counter)

-- generate_branch_name; one round more than there are names is enough for the loop.
unfoldable pub generate_branch_name : Unicode → String → Exec Names String
unfolding build_branch_name
generate_branch_name unicode version = do
  names ← gets λ names. names
  unique_branch_name ← (λ s.
      (find_unique (suc (length names)) (build_branch_name unicode version) (values names) 0, s))
  modify (insert version unique_branch_name)
  pure unique_branch_name

-- The names for a list of versions, in the order in which get_package_info asks for them.
unfoldable pub generate_all : Unicode → List String → Exec Names (List String)
unfolding generate_branch_name
generate_all unicode [] = pure []
generate_all unicode (version ∷ versions) = do
  name ← generate_branch_name unicode version
  rest ← generate_all unicode versions
  pure (name ∷ rest)

-- get_default_branch_name
unfoldable pub get_default_branch_name : (default_version : String) → Names → Option String
get_default_branch_name default_version names = lookup default_version names
