-- ===== src/Forges/Json.antt =====
-- What json.loads gives, and how the loaders read it: a key that is missing is a KeyError. A value
-- whose type is not the one that the annotation of its attribute states is a TypeError.
use swh_loader_core.Prelude.{
  ℕ, String, Bool, Option, none, some, List, [], ◌∷◌, lookup, string_eq, Dict,
}
use swh_loader_core.Effects.{Exec, pure, throw, other, key_error, Exception, ◌>>=◌}

mutual
  pub data Json : Type 0 where
    dict : Entries → Json
    list : Items → Json
    str : String → Json
    int : ℕ → Json
    bool : Bool → Json
    null : Json

  pub data Entries : Type 0 where
    entry_and : (key : String) (value : Json) (rest : Entries) → Entries
    no_entries : Entries

  pub data Items : Type 0 where
    item_and : (first : Json) (rest : Items) → Items
    no_items : Items

abbrev pub pairs : Entries → Dict String Json
pairs (entry_and key value rest) = (key, value) ∷ pairs rest
pairs no_entries = []

abbrev pub items : Items → List Json
items (item_and first rest) = first ∷ items rest
items no_items = []

abbrev pub dict_of : Dict String Json → Entries
dict_of ((key, value) ∷ d) = entry_and key value (dict_of d)
dict_of [] = no_entries

abbrev pub list_of : List Json → Items
list_of (first ∷ rest) = item_and first (list_of rest)
list_of [] = no_items

abbrev pub type_error : Exception
type_error = other "TypeError"

module _ {W : Type 0} where
  -- The value of a key that has to be there.
  unfoldable pub present : {A : Type 0} → Option A → Exec W A
  present none = throw key_error
  present (some v) = pure v

  unfoldable pub as_dict : Json → Exec W (Dict String Json)
  as_dict (dict ps) = pure (pairs ps)
  as_dict _ = throw type_error

  unfoldable pub as_list : Json → Exec W (List Json)
  as_list (list vs) = pure (items vs)
  as_list _ = throw type_error

  unfoldable pub as_str : Json → Exec W String
  as_str (str s) = pure s
  as_str _ = throw type_error

  unfoldable pub as_int : Json → Exec W ℕ
  as_int (int n) = pure n
  as_int _ = throw type_error

  -- `Optional[str]`
  unfoldable pub as_optional : Json → Exec W (Option String)
  as_optional null = pure none
  as_optional (str s) = pure (some s)
  as_optional _ = throw type_error

  -- `data[key]`
  unfoldable pub item : String → Json → Exec W Json
  unfolding as_dict present
  item key data_ = do d ← as_dict data_; present (lookup key d)

  unfoldable pub str_item : String → Json → Exec W String
  unfolding item as_str
  str_item key data_ = do v ← item key data_; as_str v

  -- `data.get(key)`
  unfoldable pub get : String → Json → Exec W (Option Json)
  unfolding as_dict
  get key data_ = do d ← as_dict data_; pure (lookup key d)

  -- `data.get(key)`, where None and an absent key are the same
  unfoldable pub get_str : String → Json → Exec W (Option String)
  unfolding get as_optional
  get_str key data_ = do
    v ← get key data_
    elim v [ none ↦ pure none | some found ↦ as_optional found ]

-- A dictionary that a loader keeps from one call of a cached method to the next.
pub record Cache (W K V : Type 0) : Type 0 where
  pub look : K → W → Option V
  pub keep : K → V → W → W

-- `[f(x) for x in xs]`, where f may raise
unfoldable pub each : {W A B : Type 0} → (A → Exec W B) → List A → Exec W (List B)
each f [] = pure []
each f (x ∷ xs) = do y ← f x; ys ← each f xs; pure (y ∷ ys)
