-- ===== src/Core/Node/Fetch/Once.antt =====
-- core/loader.py: NodeLoader.fetch_data ingests one artifact, or raises.
use swh_loader_core.Prelude.{
  String, ◌≡◌, refl, Bool, true, false, Option, none, some, List, [], ◌∷◌, Dict, ◌⊎◌, inl, inr,
  ◌==◌, string_eq,
}
use swh_loader_core.Effects.{
  Exception, Result, ok, raise, no_fuel, is_value_error, Exec, pure, ◌>>=◌,
}
use swh_loader_core.Effects.Hoare.{
  Post, Any, Triple-forget, Triple, Triple-pure, Triple-throw, Triple-bind, Triple-elim,
  Triple-try_except, Triple-try_finally,
}
use swh_loader_core.Core.Nar.{Bytes}
use swh_loader_core.Core.Utils.Download.{Web}
use swh_loader_core.Core.Node.Init.{NodeConfig}
use swh_loader_core.Core.Node.Fetch.{
  Workspace, Next, stop, go_on, Body, is_http_error, raise_first, missed, try_download,
  after_download, one_mirror, fetch_artifact, after_artifacts, offer_file, offer_top,
  offer_directory, same_checksums, accept, fed_bytes, check_nar, consume, fetch_data,
}

-- The action leaves a predicate on the state alone.
abbrev pub Leaves : {S A : Type 0} → (S → Type 0) → Exec S A → Type 0
Leaves P m = Triple P m (λ a. P) (λ e. P)

nothing_Post : {S A : Type 0} (r : Result A × S) → Post (λ a s. Unit {0}) Any r
nothing_Post (ok a, s) = tt
nothing_Post (raise e, s) = tt
nothing_Post (no_fuel, s) = tt

-- The disk and the network do not touch what the loader has of the artifact.
pub record IsApart {S : Type 0} (P : S → Type 0) (workspace : Workspace S) (web : Web S)
    : Type 0 where
  pub make_tmpdir : Leaves P workspace.make_tmpdir
  pub remove_tmpdir : (d : String) → Leaves P (workspace.remove_tmpdir d)
  pub uncompress : (t d : String) → Leaves P (workspace.uncompress t d)
  pub mkdir : (d : String) → Leaves P (workspace.mkdir d)
  pub iterdir : (d : String) → Leaves P (workspace.iterdir d)
  pub tree : (d : String) → Leaves P (workspace.tree d)
  pub get : (u : String) (h : Dict String String) → Leaves P (web.get u h)
  pub write : (p : String) (b : Bytes) → Leaves P (web.write p b)

module _ {S : Type 0} (Before After : S → Type 0) where
  abbrev pub NextPost : Next → S → Type 0
  NextPost stop s = After s
  NextPost (go_on errors) s = Before s

  -- A body that ends the loop only in a state `After`.
  abbrev pub Consumes : Body S → Type 0
  Consumes body =
      (path : String) (errors : List Exception) → Triple Before (body path errors) NextPost Any

  abbrev pub Offers : ((tmpdir path : String) → Body S → List Exception → Exec S Next) → Type 0
  Offers offer =
      (body : Body S)
      → Consumes body
      → (tmpdir path : String) (errors : List Exception)
      → Triple Before (offer tmpdir path body errors) NextPost Any

  pub offer_file-Offers : Offers offer_file
  offer_file-Offers body h tmpdir path errors = h path errors

  module _ (workspace : Workspace S) (web : Web S) (before : IsApart Before workspace web) where
    offer_top-Post :
        (listing : List String) (body : Body S) (errors : List Exception)
        → Consumes body
        → Triple Before (offer_top workspace listing body errors) NextPost Any
    offer_top-Post [] body errors h = Triple-pure _ (λ s b. b)
    offer_top-Post (top ∷ []) body errors h = h top errors
    offer_top-Post (top ∷ more ∷ rest) body errors h = Triple-pure _ (λ s b. b)

    after_top :
        (directory_path : String) (body : Body S) (next : Next)
        → Consumes body
        → Triple
            (NextPost next)
            (elim next [
              | stop ↦ pure stop
              | go_on errors' ↦ workspace.iterdir directory_path >>= λ listing.
                  offer_top workspace listing body errors'
            ])
            NextPost
            Any
    after_top d body stop h = Triple-pure _ (λ s a. a)
    after_top d body (go_on errors) h =
        Triple-bind (Triple-forget (before.iterdir d))
          λ listing. offer_top-Post listing body errors h

    pub offer_directory-Offers : Offers (offer_directory workspace)
    unfolding offer_directory
    offer_directory-Offers body h tmpdir path errors =
        Triple-bind (Triple-forget (before.mkdir _)) λ _.
          Triple-bind (Triple-forget (before.uncompress _ _))
            λ _. Triple-bind (h _ errors) λ next. after_top _ body next h

    module _ (config : NodeConfig) (headers : Dict String String)
        (offer : (tmpdir path : String) → Body S → List Exception → Exec S Next)
        (offers : Offers offer)
        (removal : (d : String) → Leaves After (workspace.remove_tmpdir d)) where
      missed_keeps :
          (e : Exception)
          → Triple Before (missed workspace web config headers offer e) (λ a. Before) Any
      unfolding missed
      missed_keeps e =
          Triple-elim (is_value_error e) (λ b. Triple-pure _ (λ s p. p))
            λ b.
              Triple-elim (is_http_error e) (λ b. Triple-pure _ (λ s p. p))
                (λ b. Triple-throw e (λ s p. tt))

      result_keeps : {A : Type 0} (r : Result A) → Leaves Before (λ s. (r, s))
      result_keeps (ok a) = record { run = λ s p. p }
      result_keeps (raise e) = record { run = λ s p. p }
      result_keeps no_fuel = record { run = λ s p. tt }

      try_download_keeps :
          (url tmpdir : String)
          → Triple Before
              (try_download workspace web config headers offer url tmpdir)
              (λ a. Before)
              Any
      unfolding try_download
      try_download_keeps url tmpdir =
          Triple-try_except {T = λ e. Before}
            (Triple-bind
              (Triple-bind (before.get url headers) λ response.
                Triple-bind (before.write _ _)
                  λ x. Triple-bind (result_keeps _) λ y. Triple-pure _ (λ s p. p))
              λ downloaded. Triple-pure _ (λ s p. p))
            (λ e b. missed_keeps e) (λ e s b p. tt)

      after_download_Post :
          (tmpdir : String) (downloaded : String ⊎ List Exception) (body : Body S)
          (errors : List Exception)
          → Consumes body
          → Triple Before
              (after_download workspace web config headers offer tmpdir downloaded body errors)
              (λ r. NextPost r.0)
              Any
      unfolding after_download
      after_download_Post tmpdir (inl path) body errors h =
          Triple-bind (offers body h tmpdir path errors) λ next. Triple-pure _ (λ s p. p)
      after_download_Post tmpdir (inr missed_errors) body errors h = Triple-pure _ (λ s p. p)

      removal_Post :
          (tmpdir : String) (next : Next)
          → Triple (NextPost next) (workspace.remove_tmpdir tmpdir) (λ a. NextPost next) Any
      removal_Post tmpdir stop = Triple-forget (removal tmpdir)
      removal_Post tmpdir (go_on errors) = Triple-forget (before.remove_tmpdir tmpdir)

      one_mirror_Post :
          (url : String) (body : Body S) (errors : List Exception)
          → Consumes body
          → Triple Before
              (one_mirror workspace web config headers offer url body errors)
              (λ r. NextPost r.0)
              Any
      unfolding one_mirror
      one_mirror_Post url body errors h = Triple-bind (Triple-forget before.make_tmpdir) λ tmpdir.
          Triple-try_finally {Q' = λ r. NextPost r.0}
            (Triple-bind (try_download_keeps url tmpdir)
              λ downloaded. after_download_Post tmpdir downloaded body errors h)
            (λ r. removal_Post tmpdir r.0)
            (λ e. record { run = λ s p. nothing_Post (workspace.remove_tmpdir tmpdir s) })

      -- Behind the loop: the body ended it, or the artifacts are exhausted.
      abbrev LoopPost : Option (List Exception) → S → Type 0
      LoopPost none s = After s
      LoopPost (some errors) s = Before s

      raise_first_Post :
          {A : Type 0} {Q : A → S → Type 0} (errors : List Exception) (m : Exec S A)
          → Triple Before m Q Any
          → Triple Before (raise_first errors m) Q Any
      raise_first_Post [] m h = h
      raise_first_Post (e ∷ errors) m h = Triple-throw e (λ s p. tt)

      after_mirror :
          {m : List Exception → Exec S (Option (List Exception))} (next : Next)
          → ((errors : List Exception) → Triple Before (m errors) LoopPost Any)
          → Triple
              (NextPost next)
              (elim next [ stop ↦ pure none | go_on errors' ↦ m errors' ])
              LoopPost
              Any
      after_mirror stop h = Triple-pure _ (λ s p. p)
      after_mirror (go_on errors) h = h errors

      fetch_artifact_Post :
          (mirror_urls : List String) (body : Body S) (found : Bool) (own errors : List Exception)
          → Consumes body
          → Triple Before
              (fetch_artifact workspace web config headers offer mirror_urls body found own errors)
              LoopPost
              Any
      unfolding fetch_artifact
      fetch_artifact_Post [] body true own errors h = Triple-pure _ (λ s p. p)
      fetch_artifact_Post [] body false own errors h =
          raise_first_Post own _ (Triple-pure _ (λ s p. p))
      fetch_artifact_Post (url ∷ mirror_urls) body found own errors h =
          Triple-bind (one_mirror_Post url body errors h) λ tried.
            after_mirror tried.0 λ errors'. fetch_artifact_Post mirror_urls body _ _ errors' h

      module _ (process_artifact : String → Exec S (Unit {0})) (visit_type : String)
          (processes : (path : String)
            → Triple Before (process_artifact path) (λ a. After) Any) where
        accept_Post :
            (path : String)
            → Triple Before (accept workspace config visit_type process_artifact path) NextPost Any
        accept_Post path = Triple-bind (processes path) λ x. Triple-pure _ (λ s p. p)

        fed_keeps :
            (r : Result (Unit {0}) × Bytes)
            → Leaves Before (fed_bytes workspace config visit_type process_artifact r)
        fed_keeps (ok a, fed) = Triple-pure _ (λ s p. p)
        fed_keeps (raise e, fed) = Triple-throw e (λ s p. p)
        fed_keeps (no_fuel, fed) = record { run = λ s p. tt }

        consume-Consumes : Consumes (consume workspace config visit_type process_artifact)
        unfolding consume check_nar
        consume-Consumes path errors =
            Triple-elim (config.checksum_layout == "nar")
              (λ b. Triple-bind (Triple-forget (before.tree path)) λ fso.
                Triple-bind (Triple-forget (fed_keeps _)) λ fed.
                  Triple-elim
                    (same_checksums workspace config visit_type process_artifact fed
                      config.checksums)
                    (λ c. accept_Post path) (λ c. Triple-pure _ (λ s p. p)))
              (λ b. accept_Post path)

        after_artifacts_Post :
            (origin_url : String) (errors : Option (List Exception))
            → Triple
                (LoopPost errors)
                (after_artifacts workspace web config headers offer origin_url errors)
                (λ more s. (more ≡ false) × After s)
                Any
        unfolding after_artifacts
        after_artifacts_Post origin_url none = Triple-pure _ (λ s p. (refl, p))
        after_artifacts_Post origin_url (some errors) =
            raise_first_Post errors _ (Triple-throw _ (λ s p. tt))

        fetch_data_Post :
            (origin_url : String)
            → Triple Before
                (fetch_data workspace config visit_type process_artifact web headers offer
                  origin_url)
                (λ more s. (more ≡ false) × After s)
                Any
        fetch_data_Post origin_url =
            Triple-bind (fetch_artifact_Post config.mirror_urls _ false [] [] consume-Consumes)
              (after_artifacts_Post origin_url)

-- What surrounds `process_artifact`: it leads from `Before` to `After` when it returns; the disk and the
-- network leave both alone.
pub record IsIngestion {S : Type 0} (Before After : S → Type 0) (workspace : Workspace S)
    (web : Web S) (process_artifact : String → Exec S (Unit {0})) : Type 0 where
  pub apart : IsApart Before workspace web
  pub removal : (d : String) → Leaves After (workspace.remove_tmpdir d)
  pub processes : (path : String) → Triple Before (process_artifact path) (λ a. After) Any

-- If `fetch_data` returns, for a file or for a tarball, it says that there is no more to fetch and ends
-- in `After`, whatever the mirrors answer: `process_artifact` has returned for one artifact. `Before`
-- and `After` are any predicates that the disk and the network leave alone, such that
-- `process_artifact` leads from the one to the other.
pub fetch_data_once :
    {S : Type 0} (Before After : S → Type 0) (workspace : Workspace S) (web : Web S)
    (config : NodeConfig) (visit_type : String) (process_artifact : String → Exec S (Unit {0}))
    (headers : Dict String String) (origin_url : String) (s : S)
    → IsIngestion Before After workspace web process_artifact
    → Before s
    → Post
        (λ more s'. (more ≡ false) × After s')
        Any
        (fetch_data workspace config visit_type process_artifact web headers offer_file origin_url
          s)
      × Post
          (λ more s'. (more ≡ false) × After s')
          Any
          (fetch_data workspace config visit_type process_artifact web headers
            (offer_directory workspace)
            origin_url
            s)
fetch_data_once Before After workspace web config visit_type process headers origin_url s h b = (
  (fetch_data_Post Before After workspace web h.apart config headers offer_file
        (offer_file-Offers Before After) h.removal process visit_type h.processes origin_url).run
      s b,
  (fetch_data_Post Before After workspace web h.apart config headers (offer_directory workspace)
        (offer_directory-Offers Before After workspace web h.apart) h.removal process visit_type
        h.processes origin_url).run
      s b,
)
