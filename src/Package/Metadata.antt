-- ===== src/Package/Metadata.antt =====
-- package/loader.py: the extrinsic metadata objects that PackageLoader builds.
use swh_loader_core.Prelude.{ℕ, String, Option, none, some, List, [], ◌∷◌, map}
use swh_loader_core.Effects.{Exec, pure, ◌>>=◌}
use swh_loader_core.Model.{
  Sha1Git, Swhid, snapshot, directory, release, MetadataAuthority, MetadataFetcher,
  RawExtrinsicMetadata, RawExtrinsicMetadataCore, Identifiers,
}
use swh_loader_core.Core.Base.Init.{Config}
use swh_loader_core.Package.Info.{PackageInfo}
use swh_loader_core.Package.Methods.{Methods}

-- `item.discovery_date or self.visit_date`
abbrev pub discovery_date : Config → Option ℕ → ℕ
discovery_date config none = config.visit_date
discovery_date config (some date) = date

-- The object for one item.
full_metadata :
    Config
    → Swhid
    → Option String
    → Option Swhid
    → MetadataAuthority
    → MetadataFetcher
    → RawExtrinsicMetadataCore
    → RawExtrinsicMetadata
full_metadata config target origin release_swhid authority fetcher item = record {
  target = target;
  discovery_date = discovery_date config item.discovery_date;
  authority = authority;
  fetcher = fetcher;
  format = item.format;
  metadata = item.metadata;
  origin = origin;
  release = release_swhid;
}

module _ {W : Type 0} (config : Config) (identifiers : Identifiers) (methods : Methods W) where
  -- The objects for a list of items; without items no authority is asked for.
  build_metadata :
      Swhid
      → Option String
      → Option Swhid
      → List RawExtrinsicMetadataCore
      → Exec W (List RawExtrinsicMetadata)
  unfolding full_metadata
  build_metadata target origin release_swhid [] = pure []
  build_metadata target origin release_swhid (item ∷ items) = do
    authority ← methods.get_metadata_authority
    fetcher ← methods.get_metadata_fetcher
    pure (map (full_metadata config target origin release_swhid authority fetcher) (item ∷ items))

  -- build_extrinsic_origin_metadata
  unfoldable pub build_extrinsic_origin_metadata : Exec W (List RawExtrinsicMetadata)
  unfolding build_metadata
  build_extrinsic_origin_metadata = do
    items ← methods.get_extrinsic_origin_metadata
    build_metadata (identifiers.origin_swhid config.origin_url) none none items

  -- build_extrinsic_snapshot_metadata
  unfoldable pub build_extrinsic_snapshot_metadata : Sha1Git → Exec W (List RawExtrinsicMetadata)
  unfolding build_metadata
  build_extrinsic_snapshot_metadata snapshot_id = do
    items ← methods.get_extrinsic_snapshot_metadata
    build_metadata (record { object_type = snapshot; object_id = snapshot_id })
        (some config.origin_url) none items

  -- build_extrinsic_directory_metadata
  unfoldable pub build_extrinsic_directory_metadata :
      PackageInfo → Sha1Git → Sha1Git → Exec W (List RawExtrinsicMetadata)
  unfolding build_metadata
  build_extrinsic_directory_metadata p_info release_id directory_id =
      build_metadata (record { object_type = directory; object_id = directory_id })
        (some config.origin_url) (some (record { object_type = release; object_id = release_id }))
        p_info.directory_extrinsic_metadata
