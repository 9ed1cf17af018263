-- ===== src/Samples.antt =====
-- Concrete storages, loaders and packages, at which the theorems are applied.
use swh_loader_core.Prelude.{false, none, some, []}
use swh_loader_core.Effects.{ok, Exec}
use swh_loader_core.Model.{ObjectType, Identifiers}
use swh_loader_core.Storage.{Storage}
use swh_loader_core.Core.Base.Init.{Config}

abbrev pub done : {W : Type 0} → Exec W (Unit {0})
done w = (ok tt, w)

abbrev pub give : {W A : Type 0} → A → Exec W A
give a w = (ok a, w)

-- A storage that accepts everything and has nothing; it numbers a visit with 1.
abbrev pub quiet_storage : {W : Type 0} → Storage W
quiet_storage = record {
  origin_add = λ o. done;
  origin_visit_add = λ v. give (record v { visit = some 1 });
  origin_visit_status_add = λ s. done;
  snapshot_add = λ s. done;
  release_add = λ r. done;
  skipped_content_add = λ c. done;
  content_add = λ c. done;
  directory_add = λ d. done;
  extid_add = λ e. done;
  metadata_authority_add = λ a. done;
  metadata_fetcher_add = λ f. done;
  raw_extrinsic_metadata_add = λ m. done;
  flush = done;
  clear_buffers = done;
  extid_get_from_extid = λ t e v. give [];
  release_missing = λ ids. give [];
  revision_get = λ ids. give [];
  snapshot_get_latest = λ o t. give none;
  now = λ w. (7, w);
}

abbrev pub sample_config : Config
sample_config = record {
  origin_url = "https://example.org/repo";
  visit_type = "git";
  visit_date = 5;
  max_content_size = none;
  lister_name = none;
  lister_instance_name = none;
  create_partial_snapshot = false;
  save_data_path = none;
}

abbrev pub sample_identifiers : Identifiers
sample_identifiers = record {
  release_id = λ r. r.name;
  snapshot_id = λ b. "snapshot";
  origin_swhid = λ url. record { object_type = ObjectType.origin; object_id = url };
  hash_to_hex = λ h. h;
}
