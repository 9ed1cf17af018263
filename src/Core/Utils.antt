-- ===== src/Core/Utils.antt =====
-- core/utils.py and core/converters.py: small helpers of the loaders.
pub mod Download
pub mod Contents
pub mod Cloning
pub mod Samples
use swh_loader_core.Prelude.{
  ℕ, zero, suc, String, Bool, true, false, ◌&&◌, Option, none, some, List, [], ◌∷◌, ◌++◌, ltb,
  string_eq, ◌==◌,
}
use swh_loader_core.Effects.{Exception, Exec, pure, throw, gets, modify, other, ◌>>=◌, ◌>>◌}
use swh_loader_core.Model.{truthy, Sha1Git}
use Prim.Native.String

-- A child process as billiard gives it: `join` waits at most the timeout.
pub record Process (W : Type 0) : Type 0 where
  pub start : Exec W (Unit {0})
  pub join : (timeout : ℕ) → Exec W (Unit {0})
  pub is_alive : Exec W Bool
  pub terminate : Exec W (Unit {0})
  pub kill : Exec W (Unit {0})
  pub sleep : Exec W (Unit {0})
  -- what the child has put into the queue of errors
  pub errors : Exec W (List String)

pub data CloneOutcome : Type 0 where
  cloned : CloneOutcome
  clone_timeout : (killed : Bool) → CloneOutcome
  clone_failure : (error : String) → CloneOutcome

module _ {W : Type 0} (process : Process W) where
  -- `for _ in range(n): ... else: ...`: true if the process was killed.
  unfoldable pub wait_or_kill : ℕ → Exec W Bool
  wait_or_kill zero = do process.kill; pure true
  wait_or_kill (suc n) = do
    process.sleep
    alive ← process.is_alive
    let again = wait_or_kill n
    elim alive [ true ↦ again | false ↦ pure false ]

  abbrev failure_of : List String → CloneOutcome
  failure_of [] = cloned
  failure_of (e ∷ rest) = clone_failure e

  -- clone_with_timeout: CloneTimeout and CloneFailure are outcomes.
  unfoldable pub clone_with_timeout : (timeout : ℕ) → Exec W CloneOutcome
  clone_with_timeout timeout = do
    process.start
    process.join timeout
    alive ← process.is_alive
    elim alive [
      | true ↦ do process.terminate; killed ← wait_or_kill 10; pure (clone_timeout killed)
      | false ↦ do errors ← process.errors; pure (failure_of errors)
    ]

-- The argument of parse_visit_date: None, a datetime, or a text.
pub data VisitDate : Type 0 where
  no_date : VisitDate
  datetime : ℕ → VisitDate
  text : String → VisitDate

-- parse_visit_date; `parse` is dateutil's.
unfoldable pub parse_visit_date :
    {W : Type 0} → Exec W ℕ → (String → Exec W ℕ) → VisitDate → Exec W (Option ℕ)
parse_visit_date now parse no_date = pure none
parse_visit_date now parse (datetime d) = pure (some d)
parse_visit_date now parse (text s) = do
  d ← elim (s == "now") [ true ↦ now | false ↦ parse s ]
  pure (some d)

-- release_name
abbrev pub release_name : String → Option String → String
release_name version filename = elim filename [
  | none ↦ String.◌++◌ "releases/" version
  | some f ↦ elim (truthy (some f)) [
    | true ↦ String.◌++◌ "releases/" (String.◌++◌ version (String.◌++◌ "/" f))
    | false ↦ String.◌++◌ "releases/" version
  ]
]

-- cached_method: `get` reads the attribute, `set` writes it.
unfoldable pub cached_method : {S A : Type 0} → (S → Option A) → (A → S → S) → Exec S A → Exec S A
cached_method get set f = do
  cached ← gets get
  elim cached [ some value ↦ pure value | none ↦ do value ← f; modify (set value); pure value ]

-- A content as swh.model.from_disk gives it.
pub record DiskContent : Type 0 where
  pub sha1_git : Sha1Git
  pub content_length : ℕ
  pub data_ : Option String
  pub path : String

-- SkippedContent and Content
pub data StoredContent : Type 0 where
  skipped : (sha1_git : Sha1Git) → (reason : String) → (origin : Option String) → StoredContent
  visible : (sha1_git : Sha1Git) → (content : String) → StoredContent

-- `max_content_size and ret["length"] > max_content_size`
abbrev pub is_too_large : Option ℕ → ℕ → Bool
is_too_large none length = false
is_too_large (some max_content_size) length = ltb 0 max_content_size && ltb max_content_size length

module _ {W : Type 0} (read_file : String → Exec W String) (max_content_size : Option ℕ)
    (origin_url : Option String) where
  unfoldable pub content_for_storage : DiskContent → Exec W StoredContent
  content_for_storage content = elim (is_too_large max_content_size content.content_length) [
    | true ↦ pure (skipped content.sha1_git "Content too large" origin_url)
    | false ↦ elim content.data_ [
      | some found ↦ pure (visible content.sha1_git found)
      | none ↦ do found ← read_file content.path; pure (visible content.sha1_git found)
    ]
  ]

  abbrev add_content :
      StoredContent
      → List StoredContent × List StoredContent
      → List StoredContent × List StoredContent
  add_content (skipped i r o) (present_contents, skipped_contents) =
      (present_contents, skipped i r o ∷ skipped_contents)
  add_content (visible i c) (present_contents, skipped_contents) =
      (visible i c ∷ present_contents, skipped_contents)

  -- prepare_contents
  unfoldable pub prepare_contents :
      List DiskContent → Exec W (List StoredContent × List StoredContent)
  prepare_contents [] = pure ([], [])
  prepare_contents (c ∷ contents) = do
    content ← content_for_storage c
    rest ← prepare_contents contents
    pure (add_content content rest)
