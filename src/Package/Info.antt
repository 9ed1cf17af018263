-- ===== src/Package/Info.antt =====
-- package/loader.py: BasePackageInfo
use swh_loader_core.Prelude.{ℕ, String, Option, none, some, List, Dict}
use swh_loader_core.Core.Utils.Download.{Digest}
use swh_loader_core.Model.{PartialExtId, RawExtrinsicMetadataCore}

-- The attributes of a package; those that a subclass adds show in its extid and in what its loader
-- does with it.
pub record PackageInfo : Type 0 where
  pub url : String
  pub filename : Option String
  pub version : String
  pub directory_extrinsic_metadata : List RawExtrinsicMetadataCore
  pub checksums : Dict String Digest
  -- MANIFEST_FORMAT with the attributes put in, if the class has such a format
  pub manifest : Option String

-- EXTID_TYPE and EXTID_VERSION of a class, and hashlib.sha256(manifest.encode()).digest().
pub record ExtidClass : Type 0 where
  pub extid_type : String
  pub extid_version : ℕ
  pub sha256 : String → String

-- BasePackageInfo.extid
pub extid : ExtidClass → PackageInfo → Option PartialExtId
extid cls p_info = elim p_info.manifest [
  | none ↦ none
  | some manifest ↦ some (record {
    extid_type = cls.extid_type;
    extid_version = cls.extid_version;
    extid = cls.sha256 manifest;
  })
]
