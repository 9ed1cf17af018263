-- ===== src/Package/Quiet.antt =====
-- package/loader.py: loading one release makes no call that ends a visit: what it calls leaves every
-- set of phases alone that is closed under the calls that add objects, and under the flush.
use swh_loader_core.Prelude.{
  String, ◌≡◌, refl, Bool, true, false, Option, none, some, List, [], ◌∷◌,
}
use swh_loader_core.Effects.{Exec, ◌>>=◌}
use swh_loader_core.Effects.Reaches.{
  Phases, Keeps, keeps_rules, Keeps-pure, Keeps-bind, Keeps-if, Keeps-throw, Keeps-assert,
}
use swh_loader_core.Model.{Sha1Git, truthy, RawExtrinsicMetadata, Release, Identifiers}
use swh_loader_core.Storage.{
  Storage, Call, release_add, skipped_content_add, content_add, directory_add,
  metadata_authority_add, metadata_fetcher_add, raw_extrinsic_metadata_add, flush, call, read,
}
use swh_loader_core.Storage.Machine
use swh_loader_core.Storage.Machine.{Machine, progress}
use swh_loader_core.Core.Base.Init.{Config}
use swh_loader_core.Core.Base.Metadata.{load_metadata_objects}
use swh_loader_core.Package.Info.{PackageInfo}
use swh_loader_core.Package.Methods.{Methods, Disk, Artifact, Directory}
use swh_loader_core.Package.Release.{
  load_directory, fetch_release, with_tmpdir, original_artifact_metadata, store_release,
  load_release,
}
use swh_loader_core.Package.Load.{after_release}

-- The calls that add metadata.
abbrev pub is_metadata : Call → Bool
is_metadata (metadata_authority_add _) = true
is_metadata (metadata_fetcher_add _) = true
is_metadata (raw_extrinsic_metadata_add _) = true
is_metadata _ = false

-- The calls that add the objects of a release, and the flush.
abbrev pub is_quiet : Call → Bool
is_quiet (release_add _) = true
is_quiet (skipped_content_add _) = true
is_quiet (content_add _) = true
is_quiet (directory_add _) = true
is_quiet flush = true
is_quiet (metadata_authority_add _) = true
is_quiet (metadata_fetcher_add _) = true
is_quiet (raw_extrinsic_metadata_add _) = true
is_quiet _ = false

-- `K` is closed under the calls of a kind.
abbrev pub IsClosed : {X : Type 0} → Machine X → (Call → Bool) → Phases X → Type 0
IsClosed {X} machine kind K =
    (c : Call) → kind c ≡ true → (x : X) → K x ≡ true → K (machine.step x c) ≡ true

module _ {W X : Type 0} (machine : Machine X) {K : Phases X} (storage : Storage W) where
  pub load_metadata_objects-Keeps :
      IsClosed machine is_metadata K
      → (objects : List RawExtrinsicMetadata)
      → Keeps (progress machine) K (load_metadata_objects storage objects)
  unfolding load_metadata_objects
  load_metadata_objects-Keeps closed [] = Keeps-pure tt
  load_metadata_objects-Keeps closed (o ∷ objects) =
      Keeps-bind (Machine.Keeps-call machine _ _ (closed _ refl)) λ _.
        Keeps-bind (Machine.Keeps-call machine _ _ (closed _ refl))
          λ _. Machine.Keeps-call machine _ _ (closed _ refl)

metadata_is_quiet : (c : Call) → is_metadata c ≡ true → is_quiet c ≡ true
metadata_is_quiet (metadata_authority_add _) h = refl
metadata_is_quiet (metadata_fetcher_add _) h = refl
metadata_is_quiet (raw_extrinsic_metadata_add _) h = refl
metadata_is_quiet _ h = absurd (cc)

module _ {W X : Type 0} (machine : Machine X) {K : Phases X} (config : Config)
    (identifiers : Identifiers) (methods : Methods W) (disk : Disk W) (storage : Storage W)
    (closed : IsClosed machine is_quiet K) where
  quiet_call :
      {A : Type 0} (c : Call) (m : Exec W A)
      → is_quiet c ≡ true
      → Keeps (progress machine) K (call c m)
  quiet_call c m h = Machine.Keeps-call machine c m (closed c h)

  quiet_read : {A : Type 0} (m : Exec W A) → Keeps (progress machine) K (read m)
  quiet_read m = Machine.Keeps-read machine m

  metadata-Keeps :
      (objects : List RawExtrinsicMetadata)
      → Keeps (progress machine) K (load_metadata_objects storage objects)
  metadata-Keeps =
      load_metadata_objects-Keeps machine storage (λ c h. closed c (metadata_is_quiet c h))

  load_directory-Keeps :
      (artifacts : List Artifact) (tmpdir : String)
      → Keeps
          (progress machine)
          K
          (load_directory config identifiers methods disk storage artifacts tmpdir)
  unfolding load_directory
  load_directory-Keeps artifacts tmpdir = Keeps-bind (quiet_read _) λ path.
      Keeps-bind (quiet_read _) λ found. Keeps-bind (quiet_read _) λ new.
        Keeps-bind (quiet_call _ _ refl) λ _.
          Keeps-bind (quiet_call _ _ refl) λ _. Keeps-bind (quiet_call _ _ refl) λ _. Keeps-pure _

  fetch_release-Keeps :
      (p_info : PackageInfo) (tmpdir : String)
      → Keeps
          (progress machine)
          K
          (fetch_release config identifiers methods disk storage p_info tmpdir)
  unfolding fetch_release
  fetch_release-Keeps p_info tmpdir = search (keeps_rules, quiet_read, load_directory-Keeps)

  with_tmpdir-Keeps :
      (p_info : PackageInfo)
      → Keeps (progress machine) K (with_tmpdir config identifiers methods disk storage p_info)
  unfolding with_tmpdir
  with_tmpdir-Keeps p_info = search (keeps_rules, quiet_read, fetch_release-Keeps)

  original_artifact_metadata-Keeps :
      (artifacts : List Artifact) (rel : Release)
      → Keeps
          (progress machine)
          K
          (original_artifact_metadata config identifiers methods disk storage artifacts rel)
  unfolding original_artifact_metadata
  original_artifact_metadata-Keeps artifacts rel = search (keeps_rules, quiet_read)

  store_release-Keeps :
      (artifacts : List Artifact) (found : Directory) (rel : Option Release)
      → Keeps
          (progress machine)
          K
          (store_release config identifiers methods disk storage artifacts found rel)
  unfolding store_release
  store_release-Keeps artifacts found none = Keeps-pure none
  store_release-Keeps artifacts found (some rel) =
      Keeps-bind (original_artifact_metadata-Keeps artifacts rel) λ m.
        Keeps-bind (metadata-Keeps (m ∷ []))
          λ _. Keeps-bind (quiet_call _ _ refl) λ _. Keeps-bind (Keeps-assert _) λ _. Keeps-pure _

  load_release-Keeps :
      (p_info : PackageInfo)
      → Keeps (progress machine) K (load_release config identifiers methods disk storage p_info)
  unfolding load_release
  load_release-Keeps p_info =
      Keeps-if (truthy (some p_info.url))
        (Keeps-bind (with_tmpdir-Keeps p_info) λ fetched. store_release-Keeps _ _ _) (Keeps-throw _)

  after_release-Keeps :
      (p_info : PackageInfo) (res : Option (Sha1Git × Sha1Git))
      → Keeps
          (progress machine)
          K
          (after_release config identifiers methods disk storage p_info res)
  unfolding after_release
  after_release-Keeps p_info none = Keeps-bind (quiet_call _ _ refl) λ _. Keeps-pure _
  after_release-Keeps p_info (some (release_id, directory_id)) = Keeps-bind (Keeps-assert _) λ _.
      Keeps-bind (Keeps-assert _) λ _.
        Keeps-bind (quiet_read _)
          λ m. Keeps-bind (metadata-Keeps m) λ _. Keeps-bind (quiet_call _ _ refl) λ _. Keeps-pure _

  -- Everything in the `try` block of the loop.
  pub load_and_describe-Keeps :
      (p_info : PackageInfo)
      → Keeps (progress machine) K (
          load_release config identifiers methods disk storage p_info
          >>= after_release config identifiers methods disk storage p_info)
  load_and_describe-Keeps p_info =
      Keeps-bind (load_release-Keeps p_info) (after_release-Keeps p_info)
