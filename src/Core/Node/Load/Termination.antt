-- ===== src/Core/Node/Load/Termination.antt =====
-- core/loader.py: load of the node loaders takes one round of its loop, and ends.
use swh_loader_core.Prelude.{
  ℕ, suc, String, ◌≡◌, refl, Bool, false, Option, none, some, List, [], ◌∷◌, All, Dict,
}
use swh_loader_core.Effects.{Exception, Exec}
use swh_loader_core.Effects.Hoare.{Triple-pure, Triple-throw, Triple-skip}
use swh_loader_core.Effects.Fuel.{Ends, Halts}
use swh_loader_core.Model.{Sha1Git, Branches}
use swh_loader_core.Storage.{Storage}
use swh_loader_core.Core.Utils.Download.{Digest, Web}
use swh_loader_core.Core.Base.Init.{Config}
use swh_loader_core.Core.Base.Metadata.{ParentOrigins, Fetcher}
use swh_loader_core.Core.Base.Load.{Methods, load}
use swh_loader_core.Core.Base.Load.OneRound.{Denies, never_again, load-Converges_once}
use swh_loader_core.Core.Base.Load.Order.{start}
use swh_loader_core.Core.Base.Load.Termination.{MethodsHalt, FetcherHalts, load_terminates}
use swh_loader_core.Core.Node.Init.{NodeConfig}
use swh_loader_core.Core.Node.Fetch.{
  Workspace, Next, Body, raise_first, after_artifacts, fetch_data,
}
use swh_loader_core.Core.Node.Store.{Node, FoundDirectory}
use swh_loader_core.Core.Node.Load.{node_storage, content_methods, tarball_methods}
use swh_loader_core.Core.Node.Load.Halting.{
  WorkspaceHalts, WebHalts, NodeStorageHalts, node_storage-StorageHalts,
}
use swh_loader_core.Core.Node.Load.Ending.{content_methods-MethodsHalt, tarball_methods-MethodsHalt}

module _ {S : Type 0} (workspace : Workspace S) (config : NodeConfig) (visit_type : String)
    (process_artifact : String → Exec S (Unit {0})) (web : Web S) (headers : Dict String String)
    (offer : (tmpdir path : String) → Body S → List Exception → Exec S Next) where
  raise_first-Denies :
      (errors : List Exception) {m : Exec S Bool} → Denies m → Denies (raise_first errors m)
  raise_first-Denies [] h = h
  raise_first-Denies (e ∷ errors) h = Triple-throw e (λ s p. tt)

  after_artifacts-Denies :
      (origin_url : String) (r : Option (List Exception))
      → Denies (after_artifacts workspace web config headers offer origin_url r)
  unfolding after_artifacts
  after_artifacts-Denies origin_url none = Triple-pure false (λ s p. refl)
  after_artifacts-Denies origin_url (some errors) =
      raise_first-Denies errors (Triple-throw _ (λ s p. tt))

  fetch_data-Denies :
      (origin_url : String)
      → Denies
          (fetch_data workspace config visit_type process_artifact web headers offer origin_url)
  fetch_data-Denies origin_url = Triple-skip _ (after_artifacts-Denies origin_url)

-- `load` on the state of a node loader: the first round is the last.
abbrev pub EndsInOneRound :
    {W : Type 0} (config : Config) (methods : Methods (Node W)) (storage : Storage W)
    → ParentOrigins (Node W)
    → List (Fetcher (Node W))
    → Node W
    → Type 0
EndsInOneRound config methods storage parent_origins fetchers s =
    Ends (load config methods (node_storage storage) parent_origins fetchers 1 (start s))
    × ((k : ℕ)
        → load config methods (node_storage storage) parent_origins fetchers (suc k) (start s)
          ≡ load config methods (node_storage storage) parent_origins fetchers 1 (start s))

one_round :
    {W : Type 0} (config : Config) (methods : Methods (Node W)) (storage : Storage W)
    (parent_origins : ParentOrigins (Node W)) (fetchers : List (Fetcher (Node W)))
    → Denies methods.fetch_data
    → MethodsHalt methods
    → NodeStorageHalts storage
    → All FetcherHalts fetchers
    → (s : Node W) → EndsInOneRound config methods storage parent_origins fetchers s
one_round config methods storage parents fetchers no_more mh sh fh s =
    load-Converges_once config methods (node_storage storage) parents fetchers no_more (start s) (
      load_terminates config methods (node_storage storage) parents fetchers mh
        (node_storage-StorageHalts storage sh.base) fh (λ w. 0)
        (λ visit s s' e.
          absurd (
            never_again config methods (node_storage storage) parents fetchers no_more visit s s'
              e))
        s)

-- The load of a content and of a tarball takes one round of its loop: with fuel for one round it returns or
-- raises, whatever the mirrors serve, and more fuel gives the same result and the same calls.
-- Assumed: each operation of the storage, the disk and the network, and each metadata fetcher,
-- returns or raises.
pub node_load_terminates :
    {W : Type 0} (storage : Storage W) (config : Config) (node : NodeConfig)
    (workspace : Workspace (Node W)) (web : Web (Node W)) (hash_to_bytes : Digest → String)
    (snapshot_id : Branches → Sha1Git) (from_data : String → Exec (Node W) Sha1Git)
    (from_disk : String → Exec (Node W) FoundDirectory) (parent_origins : ParentOrigins (Node W))
    (fetchers : List (Fetcher (Node W)))
    → NodeStorageHalts storage
    → WorkspaceHalts workspace
    → WebHalts web
    → ((path : String) → Halts (from_data path))
    → ((path : String) → Halts (from_disk path))
    → All FetcherHalts fetchers
    → (s : Node W)
    → EndsInOneRound config
        (content_methods storage config node workspace web hash_to_bytes snapshot_id from_data)
        storage
        parent_origins
        fetchers
        s
      × EndsInOneRound config
          (tarball_methods storage config node workspace web hash_to_bytes snapshot_id from_disk)
          storage
          parent_origins
          fetchers
          s
unfolding content_methods tarball_methods
node_load_terminates storage config node workspace web hash_to_bytes snapshot_id from_data from_disk
      parents fetchers sh wh h ch dh fh s =
    (
      one_round config
          (content_methods storage config node workspace web hash_to_bytes snapshot_id from_data)
          storage parents fetchers (fetch_data-Denies _ _ _ _ _ _ _ _)
          (content_methods-MethodsHalt storage config node workspace web hash_to_bytes snapshot_id
            sh wh h from_data ch)
          sh fh s,
      one_round config
          (tarball_methods storage config node workspace web hash_to_bytes snapshot_id from_disk)
          storage parents fetchers (fetch_data-Denies _ _ _ _ _ _ _ _)
          (tarball_methods-MethodsHalt storage config node workspace web hash_to_bytes snapshot_id
            sh wh h from_disk dh)
          sh fh s,
    )
