-- ===== src/Core/Base/Metadata.antt =====
-- core/loader.py: load_metadata_objects and build_extrinsic_origin_metadata of BaseLoader, and
-- get_fetchers_for_lister of core/metadata_fetchers.py.
use swh_loader_core.Prelude.{
  String, Option, none, some, List, [], ◌∷◌, ◌++◌, map, keep, contains, to_set, is_some, string_eq,
}
use swh_loader_core.Effects.{Exec, pure, assert, gets, modify, ◌>>=◌, ◌>>◌}
use swh_loader_core.Model.{RawExtrinsicMetadata, authority_eq, fetcher_eq}
use swh_loader_core.Storage.{
  Storage, Logged, call, metadata_authority_add, metadata_fetcher_add, raw_extrinsic_metadata_add,
}
use swh_loader_core.Core.Base.Init.{Config}

module _ {W : Type 0} (storage : Storage W) where
  -- load_metadata_objects
  unfoldable pub load_metadata_objects : List RawExtrinsicMetadata → Exec (Logged W) (Unit {0})
  load_metadata_objects [] = pure tt
  load_metadata_objects (mo ∷ rest) =
      let objects = mo ∷ rest in
      let authorities = to_set (map (λ (o : RawExtrinsicMetadata). o.authority) objects) in
      let fetchers = to_set (map (λ (o : RawExtrinsicMetadata). o.fetcher) objects) in
      do
        call (metadata_authority_add authorities) (storage.metadata_authority_add authorities)
        call (metadata_fetcher_add fetchers) (storage.metadata_fetcher_add fetchers)
        call (raw_extrinsic_metadata_add objects) (storage.raw_extrinsic_metadata_add objects)

-- A class that an entry point of `swh.loader.metadata` provides (MetadataFetcherProtocol), given
-- the origin, the names of the lister and the credentials.
pub record Fetcher (W : Type 0) : Type 0 where
  pub supported_listers : List String
  pub construct : Exec W (Unit {0})
  pub get_origin_metadata : Exec W (List RawExtrinsicMetadata)
  pub get_parent_origins : Exec W (List String)

-- get_fetchers_for_lister
abbrev pub get_fetchers_for_lister : {W : Type 0} → List (Fetcher W) → String → List (Fetcher W)
get_fetchers_for_lister classes lister_name =
    keep (λ cls. contains cls.supported_listers lister_name) classes

-- The attribute `self.parent_origins`, which lives in the world.
pub record ParentOrigins (W : Type 0) : Type 0 where
  pub get : W → Option (List String)
  pub set : List String → W → W

module _ {W : Type 0} (parent_origins : ParentOrigins W) where
  -- `if self.parent_origins is None: self.parent_origins = ...`
  abbrev pub ask_parents : Fetcher W → Option (List String) → Exec W (Unit {0})
  ask_parents cls none = do parents ← cls.get_parent_origins; modify (parent_origins.set parents)
  ask_parents cls (some parents) = pure tt

  -- The loop `for cls in fetcher_classes`.
  unfoldable pub fetch_all :
      List (Fetcher W) → List RawExtrinsicMetadata → Exec W (List RawExtrinsicMetadata)
  fetch_all [] metadata = pure metadata
  fetch_all (cls ∷ classes) metadata = do
    cls.construct
    more ← cls.get_origin_metadata
    parents ← gets parent_origins.get
    ask_parents cls parents
    fetch_all classes (metadata ++ more)

  -- `if self.lister_name is None: return []`
  abbrev pub build_for :
      Config → List (Fetcher W) → Option String → Exec W (List RawExtrinsicMetadata)
  build_for config classes none = pure []
  build_for config classes (some name) = do
    assert (is_some config.lister_instance_name)
    fetch_all (get_fetchers_for_lister classes name) []

  -- build_extrinsic_origin_metadata
  unfoldable pub build_extrinsic_origin_metadata :
      Config → List (Fetcher W) → Exec W (List RawExtrinsicMetadata)
  unfolding fetch_all
  build_extrinsic_origin_metadata config classes = build_for config classes config.lister_name
