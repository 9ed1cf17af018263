-- ===== src/Core/Base/Init.antt =====
-- core/loader.py: BaseLoader.__init__
pub mod Samples
use text.Mathlib.Text.{◌==◌ as str_eq}
use swh_loader_core.Prelude.{
  ℕ, zero, suc, String, ◌≡◌, ◌≢◌, Bool, true, false, not, ◌&&◌, Option, none, some, arith, is_some,
}
use swh_loader_core.Effects.{value_error, other, Result, ok, raise}
use swh_loader_core.Model.{truthy}

-- The arguments of the constructor that it looks at.
pub record InitArgs : Type 0 where
  pub origin_url : String
  pub save_data_path : Option String
  pub max_content_size : Option ℕ
  pub lister_name : Option String
  pub lister_instance_name : Option String
  pub create_partial_snapshot : Bool

-- The attributes that the constructor sets and that do not change before `load`.
pub record Config : Type 0 where
  pub origin_url : String
  pub visit_type : String
  pub visit_date : ℕ
  pub max_content_size : Option ℕ
  pub lister_name : Option String
  pub lister_instance_name : Option String
  pub create_partial_snapshot : Bool
  pub save_data_path : Option String

-- The file system, as far as `__init__` asks it: os.stat succeeds, os.access(path, R_OK | W_OK).
pub record Access : Type 0 where
  pub exists : String → Bool
  pub read_write : String → Bool

-- `lister_name == ""`
abbrev is_empty_name : Option String → Bool
is_empty_name none = false
is_empty_name (some name) = str_eq name ""

-- `int(max_content_size) if max_content_size else None`
abbrev pub size_limit : Option ℕ → Option ℕ
size_limit (some (suc n)) = some (suc n)
size_limit _ = none

-- `if save_data_path:` and the two checks of it
check_save_data_path : Access → Option String → Result (Unit {0})
check_save_data_path access none = ok tt
check_save_data_path access (some path) = elim (truthy (some path)) [
  | false ↦ ok tt
  | true ↦ elim (access.exists path) [
    | false ↦ raise (other "FileNotFoundError")
    | true ↦ elim (access.read_write path) [
      | false ↦ raise (other "PermissionError")
      | true ↦ ok tt
    ]
  ]
]

check_lister : Option String → Option String → Result (Unit {0})
check_lister name instance_name = elim (is_empty_name name) [
  | true ↦ raise (value_error "lister_name must not be the empty string")
  | false ↦ elim (not (is_some name) && is_some instance_name) [
    | true ↦ raise (value_error "lister_name is None but lister_instance_name is not")
    | false ↦ elim (is_some name && not (is_some instance_name)) [
      | true ↦ raise (value_error "lister_instance_name is None but lister_name is not")
      | false ↦ ok tt
    ]
  ]
]

abbrev then_ok : {A B : Type 0} → Result A → Result B → Result B
then_ok (ok _) r = r
then_ok (raise e) r = raise e
then_ok Result.no_fuel r = Result.no_fuel

pub init : Access → (visit_type : String) → (now : ℕ) → InitArgs → Result Config
unfolding check_save_data_path check_lister
init access visit_type now args =
    then_ok (check_lister args.lister_name args.lister_instance_name) (
      then_ok (check_save_data_path access args.save_data_path) (
        ok (record {
          origin_url = args.origin_url;
          visit_type = visit_type;
          visit_date = now;
          max_content_size = size_limit args.max_content_size;
          lister_name = args.lister_name;
          lister_instance_name = args.lister_instance_name;
          create_partial_snapshot = args.create_partial_snapshot;
          save_data_path = args.save_data_path;
        })))

-- The two lister names of an initialised loader are given together or not at all.
pub record IsValid (c : Config) : Type 0 where
  pub together : is_some c.lister_name ≡ is_some c.lister_instance_name
  pub named : c.lister_name ≢ some ""
  pub limited : c.max_content_size ≢ some zero

named_lem : (name : Option String) → is_empty_name name ≡ false → name ≢ some ""
named_lem name h e = ground arith

-- A loader that `__init__` accepts has both lister names or none, no empty lister name, and no
-- size limit of zero.
pub init-IsValid :
    (access : Access) (visit_type : String) (now : ℕ) (args : InitArgs) (c : Config)
    → init access visit_type now args ≡ ok c
    → IsValid c
unfolding init
init-IsValid access visit_type now args c h = ground (arith, named_lem args.lister_name)
