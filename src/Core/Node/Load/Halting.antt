-- ===== src/Core/Node/Load/Halting.antt =====
-- core/loader.py: the methods of the node loaders end if the storage, the disk and the network answer.
use swh_loader_core.Prelude.{
  String, Bool, true, false, Option, none, some, List, [], ◌∷◌, Dict, string_eq, ◌==◌, ◌⊎◌, inl,
  inr, if◌then◌else◌,
}
use swh_loader_core.Effects.{
  Exception, Result, ok, raise, no_fuel, Exec, expect, is_value_error, value_error,
}
use swh_loader_core.Effects.Fuel.{
  Ends, Halts, Halts-pure, Halts-throw, Halts-if, Halts-bind, Halts-try_except, Halts-try_finally,
}
use swh_loader_core.Model.{Sha1Git, ExtId}
use swh_loader_core.Storage.{Storage, Logged}
use swh_loader_core.Core.Nar.{Bytes}
use swh_loader_core.Core.Nar.Halting.{Halts-serialize}
use swh_loader_core.Core.Utils.Download.{
  Digest, Web, check_hashes, compare_digest, digest_beq, download,
}
use swh_loader_core.Core.Base.Load.Termination.{StorageHalts, Halts-read}
use swh_loader_core.Core.Node.Init.{NodeConfig}
use swh_loader_core.Core.Node.Fetch.{
  Workspace, Next, stop, go_on, Body, is_http_error, raise_first, missed, try_download,
  after_download, one_mirror, fetch_artifact, after_artifacts, offer_top, offer_directory,
  same_checksums, accept, fed_bytes, check_nar, consume, fetch_data,
}
use swh_loader_core.Core.Node.Store.{Node, lift_result, on_log}
use swh_loader_core.Core.Node.Load.{node_storage}

-- The disk answers.
pub record WorkspaceHalts {S : Type 0} (workspace : Workspace S) : Type 0 where
  pub make_tmpdir : Halts workspace.make_tmpdir
  pub remove_tmpdir : (d : String) → Halts (workspace.remove_tmpdir d)
  pub uncompress : (t d : String) → Halts (workspace.uncompress t d)
  pub mkdir : (d : String) → Halts (workspace.mkdir d)
  pub iterdir : (d : String) → Halts (workspace.iterdir d)
  pub tree : (p : String) → Halts (workspace.tree p)

-- The network answers.
pub record WebHalts {S : Type 0} (web : Web S) : Type 0 where
  pub get : (u : String) (h : Dict String String) → Halts (web.get u h)
  pub write : (p : String) (b : Bytes) → Halts (web.write p b)

-- The storage answers.
pub record NodeStorageHalts {W : Type 0} (storage : Storage W) : Type 0 where
  pub base : StorageHalts storage
  pub snapshot_get_latest : (o t : String) → Halts (storage.snapshot_get_latest o t)
  pub content_add : (c : List Sha1Git) → Halts (storage.content_add c)
  pub skipped_content_add : (c : List Sha1Git) → Halts (storage.skipped_content_add c)
  pub directory_add : (d : List Sha1Git) → Halts (storage.directory_add d)
  pub extid_add : (e : List ExtId) → Halts (storage.extid_add e)

pub Halts-expect : {S A : Type 0} (a : Option A) → Halts {S = S} (expect a)
unfolding expect
Halts-expect none = Halts-throw _
Halts-expect (some a) = Halts-pure a

module _ {W A : Type 0} where
  lift-Ends : (s : Node W) (r : Result A × Logged W) → Ends r → Ends (lift_result s r)
  lift-Ends s (ok a, log) e = tt
  lift-Ends s (raise x, log) e = tt
  lift-Ends s (no_fuel, log) e = e

  pub Halts-on_log : {m : Exec (Logged W) A} → Halts m → Halts (on_log m)
  unfolding on_log
  Halts-on_log {m} h = record { ends = λ s. lift-Ends s (m s.log) (h.ends s.log) }

pub node_storage-StorageHalts :
    {W : Type 0} (storage : Storage W) → StorageHalts storage → StorageHalts (node_storage storage)
unfolding node_storage
node_storage-StorageHalts storage h = record {
  origin_add = λ o. Halts-on_log (Halts-read (h.origin_add o));
  origin_visit_add = λ v. Halts-on_log (Halts-read (h.origin_visit_add v));
  origin_visit_status_add = λ s. Halts-on_log (Halts-read (h.origin_visit_status_add s));
  snapshot_add = λ s. Halts-on_log (Halts-read (h.snapshot_add s));
  metadata_authority_add = λ a. Halts-on_log (Halts-read (h.metadata_authority_add a));
  metadata_fetcher_add = λ f. Halts-on_log (Halts-read (h.metadata_fetcher_add f));
  raw_extrinsic_metadata_add = λ m. Halts-on_log (Halts-read (h.raw_extrinsic_metadata_add m));
  flush = Halts-on_log (Halts-read h.flush);
}

module _ {S : Type 0} (web : Web S) (h : WebHalts web) where
  compare-Ends :
      (s : S) (actual : Option Digest) (expected : Digest) (rest : Result (Unit {0}))
      → Ends (rest, s)
      → Ends (compare_digest web actual expected rest, s)
  compare-Ends s none expected rest e = tt
  compare-Ends s (some actual) expected rest e = chosen (digest_beq actual expected)
    where
      chosen : (b : Bool) → Ends (if b then rest else raise (value_error "Checksum mismatched"), s)
      chosen true = e
      chosen false = tt

  check-Ends :
      (actual hashes : Dict String Digest) (s : S) → Ends (check_hashes web actual hashes, s)
  unfolding check_hashes
  check-Ends actual [] s = tt
  check-Ends actual ((algo, expected) ∷ hashes) s =
      compare-Ends s _ expected _ (check-Ends actual hashes s)

  Halts-download :
      (url dest : String) (hashes : Dict String Digest) (filename : Option String)
      (headers : Dict String String)
      → Halts (download web url dest hashes filename headers)
  Halts-download url dest hashes filename headers = Halts-bind (h.get url headers) λ response.
      Halts-bind (h.write _ _)
        λ _. Halts-bind (record { ends = λ s. check-Ends _ hashes s }) λ _. Halts-pure _

Halts-next :
    {S A : Type 0} (next : Next) {m : Exec S A} {k : List Exception → Exec S A}
    → Halts m
    → ((errors : List Exception) → Halts (k errors))
    → Halts (elim next [ stop ↦ m | go_on errors ↦ k errors ])
Halts-next stop hm hk = hm
Halts-next (go_on errors) hm hk = hk errors

module _ {S : Type 0} (workspace : Workspace S) (web : Web S) (wh : WorkspaceHalts workspace)
    (h : WebHalts web) (config : NodeConfig) (headers : Dict String String) where
  -- A body that ends, whatever the artifact.
  abbrev pub BodyHalts : Body S → Type 0
  BodyHalts body = (path : String) (errors : List Exception) → Halts (body path errors)

  module _ (offer : (tmpdir path : String) → Body S → List Exception → Exec S Next)
      (oh : (tmpdir path : String) (body : Body S) (errors : List Exception)
        → BodyHalts body
        → Halts (offer tmpdir path body errors)) where
    Halts-raise_first :
        {A : Type 0} (errors : List Exception) {m : Exec S A}
        → Halts m
        → Halts (raise_first errors m)
    Halts-raise_first [] hm = hm
    Halts-raise_first (e ∷ errors) hm = Halts-throw e

    Halts-missed : (e : Exception) → Halts (missed workspace web config headers offer e)
    unfolding missed
    Halts-missed e =
        Halts-if (is_value_error e) (Halts-pure _)
          (Halts-if (is_http_error e) (Halts-pure _) (Halts-throw e))

    Halts-try_download :
        (url tmpdir : String) → Halts (try_download workspace web config headers offer url tmpdir)
    unfolding try_download
    Halts-try_download url tmpdir =
        Halts-try_except
          (Halts-bind (Halts-download web h url tmpdir config.standard_hashes none headers)
            λ _. Halts-pure _)
          Halts-missed

    Halts-after_download :
        (tmpdir : String) (d : String ⊎ List Exception) (body : Body S) (errors : List Exception)
        → BodyHalts body
        → Halts (after_download workspace web config headers offer tmpdir d body errors)
    unfolding after_download
    Halts-after_download tmpdir (inl path) body errors bh =
        Halts-bind (oh tmpdir path body errors bh) λ next. Halts-pure _
    Halts-after_download tmpdir (inr missed_errors) body errors bh = Halts-pure _

    Halts-one_mirror :
        (url : String) (body : Body S) (errors : List Exception)
        → BodyHalts body
        → Halts (one_mirror workspace web config headers offer url body errors)
    unfolding one_mirror
    Halts-one_mirror url body errors bh = Halts-bind wh.make_tmpdir λ tmpdir.
        Halts-try_finally
          (Halts-bind (Halts-try_download url tmpdir)
            λ d. Halts-after_download tmpdir d body errors bh)
          (wh.remove_tmpdir tmpdir)

    Halts-fetch_artifact :
        (urls : List String) (body : Body S) (found : Bool) (own errors : List Exception)
        → BodyHalts body
        → Halts (fetch_artifact workspace web config headers offer urls body found own errors)
    unfolding fetch_artifact
    Halts-fetch_artifact [] body found own errors bh =
        Halts-if found (Halts-pure _) (Halts-raise_first own (Halts-pure _))
    Halts-fetch_artifact (url ∷ urls) body found own errors bh =
        Halts-bind (Halts-one_mirror url body errors bh) λ tried.
          Halts-next tried.0 (Halts-pure none)
            λ errors'. Halts-fetch_artifact urls body _ _ errors' bh

    Halts-after_artifacts :
        (origin_url : String) (r : Option (List Exception))
        → Halts (after_artifacts workspace web config headers offer origin_url r)
    unfolding after_artifacts
    Halts-after_artifacts origin_url none = Halts-pure false
    Halts-after_artifacts origin_url (some errors) = Halts-raise_first errors (Halts-throw _)

  Halts-offer_top :
      (listing : List String) (body : Body S) (errors : List Exception)
      → BodyHalts body
      → Halts (offer_top workspace listing body errors)
  Halts-offer_top [] body errors bh = Halts-pure _
  Halts-offer_top (top ∷ []) body errors bh = bh top errors
  Halts-offer_top (top ∷ other ∷ more) body errors bh = Halts-pure _

  pub Halts-offer_directory :
      (tmpdir path : String) (body : Body S) (errors : List Exception)
      → BodyHalts body
      → Halts (offer_directory workspace tmpdir path body errors)
  unfolding offer_directory
  Halts-offer_directory tmpdir path body errors bh = Halts-bind (wh.mkdir _) λ _.
      Halts-bind (wh.uncompress path _) λ _. Halts-bind (bh _ errors) λ next.
        Halts-next next (Halts-pure stop)
          λ errors'. Halts-bind (wh.iterdir _) λ listing. Halts-offer_top listing body errors' bh

  module _ (visit_type : String) (process : String → Exec S (Unit {0}))
      (ph : (path : String) → Halts (process path)) where
    fed-Halts :
        (r : Result (Unit {0}) × Bytes)
        → Ends r
        → Halts (fed_bytes workspace config visit_type process r)
    fed-Halts (ok a, fed) e = Halts-pure fed
    fed-Halts (raise x, fed) e = Halts-throw x
    fed-Halts (no_fuel, fed) e = absurd e

    Halts-consume : BodyHalts (consume workspace config visit_type process)
    unfolding consume check_nar
    Halts-consume path errors =
        let accepts : Halts (accept workspace config visit_type process path) =
          Halts-bind (ph path) λ _. Halts-pure stop in
        Halts-if (config.checksum_layout == "nar")
          (Halts-bind (wh.tree path) λ fso.
            Halts-bind (fed-Halts _ ((Halts-serialize _ fso).ends [])) λ fed.
              Halts-if (same_checksums workspace config visit_type process fed config.checksums)
                accepts (Halts-pure _))
          accepts

    pub Halts-fetch_data :
        (offer : (tmpdir path : String) → Body S → List Exception → Exec S Next)
        → ((tmpdir path : String) (body : Body S) (errors : List Exception)
            → BodyHalts body
            → Halts (offer tmpdir path body errors))
        → (origin_url : String)
        → Halts (fetch_data workspace config visit_type process web headers offer origin_url)
    Halts-fetch_data offer oh origin_url =
        Halts-bind (Halts-fetch_artifact offer oh config.mirror_urls _ false [] [] Halts-consume)
          λ errors. Halts-after_artifacts offer oh origin_url errors
