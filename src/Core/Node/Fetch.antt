-- ===== src/Core/Node/Fetch.antt =====
-- core/loader.py: fetch_artifact of ContentLoader and of TarballDirectoryLoader, and
-- NodeLoader.fetch_data, which consumes it.
pub mod Once
use Prim.Native.Char.{code}
use Prim.Native.String
use swh_loader_core.Prelude.{
  ℕ, zero, suc, String, ◌≡◌, refl, Bool, true, false, ◌&&◌, Option, none, some, List, [], ◌∷◌, ◌++◌,
  map, is_empty, nat_beq, keep, contains, string_eq, ◌==◌, Dict, length, lookup, ◌⊎◌, inl, inr,
  if◌then◌else◌,
}
use swh_loader_core.Effects.{
  Exception, Result, ok, raise, no_fuel, value_error, not_found, is_value_error, http_error, Exec,
  pure, throw, try_except, try_finally, ◌>>=◌, ◌>>◌,
}
use swh_loader_core.Core.Nar.{Bytes, Fso, serialize, path_to_ignore}
use swh_loader_core.Core.Utils.Download.{Digest, digest_beq, hex, Web, Extrinsic, download}
use swh_loader_core.Core.Node.Init.{NodeConfig}

-- The disk, and hashlib.
pub record Workspace (W : Type 0) : Type 0 where
  -- tempfile.TemporaryDirectory: entering and leaving it
  pub make_tmpdir : Exec W String
  pub remove_tmpdir : String → Exec W (Unit {0})
  pub uncompress : (tarball_path dest : String) → Exec W (Unit {0})
  pub mkdir : String → Exec W (Unit {0})
  pub iterdir : String → Exec W (List String)
  -- what is at a path
  pub tree : String → Exec W Fso
  -- the hexadecimal digests of hashlib
  pub sha256 : Bytes → String
  pub sha1 : Bytes → String
  -- str.lower
  pub lower : String → String
  -- str of an exception that another package raised
  pub exception_text : Exception → String

-- What the body of the loop does with an artifact: it ends the loop, or goes on with its errors.
pub data Next : Type 0 where
  stop : Next
  go_on : (errors : List Exception) → Next

abbrev pub Body : Type 0 → Type 0
Body S = (artifact_path : String) → (errors : List Exception) → Exec S Next

abbrev pub is_http_error : Exception → Bool
is_http_error (http_error status_code) = true
is_http_error _ = false

-- `raise errors[0]`, if there is an error
abbrev pub raise_first : {S A : Type 0} → List Exception → Exec S A → Exec S A
raise_first [] m = m
raise_first (e ∷ errors) m = throw e

module _ {S : Type 0} (workspace : Workspace S) (web : Web S) (config : NodeConfig)
    (headers : Dict String String)
    (offer : (tmpdir path : String) → Body S → List Exception → Exec S Next) where
  -- The handlers around _download: a mismatch is remembered, an HTTP error is not.
  unfoldable pub missed : Exception → Exec S (String ⊎ List Exception)
  missed e = elim (is_value_error e) [
    | true ↦ pure (inr (e ∷ []))
    | false ↦ elim (is_http_error e) [ true ↦ pure (inr []) | false ↦ throw e ]
  ]

  unfoldable pub try_download : (url tmpdir : String) → Exec S (String ⊎ List Exception)
  try_download url tmpdir =
      try_except
        (do
          downloaded ← download web url tmpdir config.standard_hashes none headers
          pure (inl downloaded.0))
        missed

  -- `yield`: the artifacts of what was downloaded are offered to the body.
  unfoldable pub after_download :
      String
      → String ⊎ List Exception
      → Body S
      → List Exception
      → Exec S (Next × (Bool × List Exception))
  after_download tmpdir (inl path) body errors = do
    next ← offer tmpdir path body errors
    pure (next, (true, []))
  after_download tmpdir (inr missed_errors) body errors =
      pure (go_on errors, (false, missed_errors))

  -- One mirror; the temporary directory goes whatever happens.
  unfoldable pub one_mirror :
      String → Body S → List Exception → Exec S (Next × (Bool × List Exception))
  one_mirror url body errors = do
    tmpdir ← workspace.make_tmpdir
    try_finally
        (do downloaded ← try_download url tmpdir; after_download tmpdir downloaded body errors)
        (workspace.remove_tmpdir tmpdir)

  -- fetch_artifact from a list of mirrors on: `found` and `own` are its variables, `errors` is the
  -- body's. `none`: the body has ended the loop; else the body's errors.
  unfoldable pub fetch_artifact :
      (mirror_urls : List String)
      → Body S
      → (found : Bool) → (own errors : List Exception) → Exec S (Option (List Exception))
  fetch_artifact [] body found own errors = elim found [
    | true ↦ pure (some errors)
    | false ↦ raise_first own (pure (some errors))
  ]
  fetch_artifact (url ∷ mirror_urls) body found own errors = do
    tried ← one_mirror url body errors
    elim tried.0 [
      | stop ↦ pure none
      | go_on errors' ↦
          fetch_artifact mirror_urls body (if found then true else tried.1.0) (own ++ tried.1.1)
            errors'
    ]

  -- What fetch_data does when the artifacts are exhausted.
  unfoldable pub after_artifacts : (origin_url : String) → Option (List Exception) → Exec S Bool
  after_artifacts origin_url none = pure false
  after_artifacts origin_url (some errors) =
      raise_first errors (throw (not_found (String.◌++◌ "Unknown origin " origin_url)))

-- ContentLoader: the downloaded file is the artifact.
abbrev pub offer_file :
    {S : Type 0} → (tmpdir path : String) → Body S → List Exception → Exec S Next
offer_file tmpdir path body errors = body path errors

-- TarballDirectoryLoader: the unpacked directory, and then its only entry.
module _ {S : Type 0} (workspace : Workspace S) where
  abbrev pub offer_top : List String → Body S → List Exception → Exec S Next
  offer_top (top ∷ []) body errors = body top errors
  offer_top _ body errors = pure (go_on errors)

  unfoldable pub offer_directory : (tmpdir path : String) → Body S → List Exception → Exec S Next
  offer_directory tmpdir tarball_path body errors = do
    let directory_path = String.◌++◌ tmpdir "/src"
    workspace.mkdir directory_path
    workspace.uncompress tarball_path directory_path
    next ← body directory_path errors
    elim next [
      | stop ↦ pure stop
      | go_on errors' ↦ do
        listing ← workspace.iterdir directory_path
        offer_top listing body errors'
    ]

-- visit_type.split("-")
abbrev pub split_dash : String → List String
split_dash String.[] = String.[] ∷ []
split_dash (String.◌∷◌ c s) = elim (nat_beq (code c) 45) [
  | true ↦ String.[] ∷ split_dash s
  | false ↦ elim (split_dash s) [ [] ↦ [] | word ∷ words ↦ String.◌∷◌ c word ∷ words ]
]

-- The VCS that the visit type names, if it names one.
abbrev pub vcs_type : String → Option String
vcs_type visit_type =
    elim (keep (contains ("bzr" ∷ "git" ∷ "hg" ∷ "svn" ∷ [])) (split_dash visit_type)) [
      | [] ↦ none
      | vcs ∷ rest ↦ some vcs
    ]

module _ {S : Type 0} (workspace : Workspace S) (config : NodeConfig) (visit_type : String)
    (process_artifact : String → Exec S (Unit {0})) where
  -- Nar's updater for a hash name: any name but "sha256" stands for sha1.
  abbrev pub hexdigest : (algo : String) → Bytes → String
  hexdigest algo fed =
      if workspace.lower algo == "sha256" then workspace.sha256 fed else workspace.sha1 fed

  -- `actual_checksums != self.checksums`, where the keys are the same
  abbrev pub same_checksums : Bytes → Dict String Digest → Bool
  same_checksums fed [] = true
  same_checksums fed ((algo, expected) ∷ checksums) =
      let rest = same_checksums fed checksums in
      if digest_beq (hex (hexdigest algo fed)) expected then rest else false

  abbrev pub accept : String → Exec S Next
  accept artifact_path = do process_artifact artifact_path; pure stop

  -- The bytes that Nar feeds to its hash functions.
  abbrev pub fed_bytes : Result (Unit {0}) × Bytes → Exec S Bytes
  fed_bytes (ok _, fed) = pure fed
  fed_bytes (raise e, fed) = throw e
  fed_bytes (no_fuel, fed) = λ s. (no_fuel, s)

  unfoldable pub check_nar : Body S
  check_nar artifact_path errors = do
    fso ← workspace.tree artifact_path
    fed ← fed_bytes (serialize (path_to_ignore true (vcs_type visit_type)) fso [])
    elim (same_checksums fed config.checksums) [
      | true ↦ accept artifact_path
      | false ↦ pure (go_on (errors ++ value_error "Checksum mismatched" ∷ []))
    ]

  -- The body of the loop of fetch_data.
  unfoldable pub consume : Body S
  consume artifact_path errors = elim (config.checksum_layout == "nar") [
    | true ↦ check_nar artifact_path errors
    | false ↦ accept artifact_path
  ]

  -- fetch_data
  abbrev pub fetch_data :
      (web : Web S) (headers : Dict String String)
      (offer : (tmpdir path : String) → Body S → List Exception → Exec S Next) (origin_url : String)
      → Exec S Bool
  fetch_data web headers offer origin_url = do
    errors ←
        fetch_artifact workspace web config headers offer config.mirror_urls consume false [] []
    after_artifacts workspace web config headers offer origin_url errors
