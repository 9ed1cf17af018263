-- ===== src/Forges/Person.antt =====
-- Persons of swh.model, as the loaders of the forges build them.
use swh_loader_core.Prelude.{String, Option}

pub record Person : Type 0 where
  pub fullname : String
  pub name : Option String
  pub email : Option String

-- EMPTY_AUTHOR of core/utils.py; `from_fullname` is the class method of swh.model.
abbrev pub empty_author : (from_fullname : String → Person) → Person
empty_author from_fullname = from_fullname ""
