-- ===== src/Model.antt =====
-- The data of swh.model that the loaders build and read, with the attributes that they use.
-- Identifiers (sha1_git, hex digests) and byte strings are texts: the loaders only compare them,
-- test them for emptiness and pass them on.
use text.Mathlib.Text.{◌==◌ as str_eq}
use text.Mathlib.TextEquality.{eq_iff}
use swh_loader_core.Prelude.{
  ℕ, String, ◌≡◌, ◌↔◌, Bool, true, false, ◌&&◌, Option, none, some, List, arith, Eq, nat_beq,
  nat_beq_iff,
}

abbrev pub Sha1Git : Type 0
Sha1Git = String

-- Truth of an optional byte string: neither None nor empty.
abbrev pub truthy : Option String → Bool
truthy none = false
truthy (some s) = elim (str_eq s "") [ true ↦ false | false ↦ true ]

pub data ObjectType : Type 0 where
  release revision snapshot directory content origin : ObjectType

abbrev pub object_type_code : ObjectType → ℕ
object_type_code release = 0
object_type_code revision = 1
object_type_code snapshot = 2
object_type_code directory = 3
object_type_code content = 4
object_type_code origin = 5

-- `object_type == other`
abbrev pub same_object_type : ObjectType → ObjectType → Bool
same_object_type a b = nat_beq (object_type_code a) (object_type_code b)

pub same_object_type_iff : (a b : ObjectType) → (same_object_type a b ≡ true) ↔ (a ≡ b)
same_object_type_iff a b = ground arith

-- CoreSWHID and ExtendedSWHID
pub record Swhid : Type 0 where
  pub object_type : ObjectType
  pub object_id : Sha1Git

abbrev pub swhid_beq : Swhid → Swhid → Bool
swhid_beq a b = same_object_type a.object_type b.object_type && str_eq a.object_id b.object_id

pub swhid_beq_iff : (a b : Swhid) → (swhid_beq a b ≡ true) ↔ (a ≡ b)
swhid_beq_iff a b =
    ground (arith, same_object_type_iff a.object_type b.object_type, eq_iff a.object_id b.object_id)

instance abbrev pub swhid_eq : Eq Swhid
swhid_eq = record { beq = swhid_beq; beq_iff = swhid_beq_iff }

-- `PartialExtID`: the extid_type, extid_version and extid fields of an ExtID.
pub record PartialExtId : Type 0 where
  pub extid_type : String
  pub extid_version : ℕ
  pub extid : String

abbrev pub partial_extid_beq : PartialExtId → PartialExtId → Bool
partial_extid_beq a b =
    str_eq a.extid_type b.extid_type
    && (nat_beq a.extid_version b.extid_version && str_eq a.extid b.extid)

pub partial_extid_beq_iff : (a b : PartialExtId) → (partial_extid_beq a b ≡ true) ↔ (a ≡ b)
partial_extid_beq_iff a b = ground (
  arith,
  eq_iff a.extid_type b.extid_type,
  nat_beq_iff a.extid_version b.extid_version,
  eq_iff a.extid b.extid,
)

instance abbrev pub partial_extid_eq : Eq PartialExtId
partial_extid_eq = record { beq = partial_extid_beq; beq_iff = partial_extid_beq_iff }

pub record ExtId : Type 0 where
  pub key : PartialExtId
  pub target : Swhid

abbrev pub ext_id_beq : ExtId → ExtId → Bool
ext_id_beq a b = partial_extid_beq a.key b.key && swhid_beq a.target b.target

pub ext_id_beq_iff : (a b : ExtId) → (ext_id_beq a b ≡ true) ↔ (a ≡ b)
ext_id_beq_iff a b =
    ground (arith, partial_extid_beq_iff a.key b.key, swhid_beq_iff a.target b.target)

instance abbrev pub ext_id_eq : Eq ExtId
ext_id_eq = record { beq = ext_id_beq; beq_iff = ext_id_beq_iff }

pub record OriginVisit : Type 0 where
  pub origin : String
  pub date : ℕ
  pub type : String
  -- the number that the storage gives to the visit
  pub visit : Option ℕ

pub record OriginVisitStatus : Type 0 where
  pub origin : String
  pub visit : ℕ
  pub type : String
  pub date : ℕ
  pub status : String
  pub snapshot : Option Sha1Git

-- Where a branch of a snapshot points to.
pub data SnapshotBranch : Type 0 where
  alias : (target : String) → SnapshotBranch
  target_of : ObjectType → Sha1Git → SnapshotBranch

-- The branches in insertion order; a branch may be None.
abbrev pub Branches : Type 0
Branches = List (String × Option SnapshotBranch)

pub record Snapshot : Type 0 where
  pub id : Sha1Git
  pub branches : Branches

pub record Revision : Type 0 where
  pub message : Option String
  pub directory : Sha1Git
  pub synthetic : Bool
  pub author : Option String
  pub date : Option ℕ

-- A release; its target type is stored beside its target.
pub record Release : Type 0 where
  pub name : String
  pub message : Option String
  pub target : Option Sha1Git
  pub target_type : ObjectType
  pub synthetic : Bool
  pub author : Option String
  pub date : Option ℕ

pub record MetadataAuthority : Type 0 where
  pub type : String
  pub url : String

pub record MetadataFetcher : Type 0 where
  pub name : String
  pub version : String

abbrev pub authority_beq : MetadataAuthority → MetadataAuthority → Bool
authority_beq a b = str_eq a.type b.type && str_eq a.url b.url

pub authority_beq_iff : (a b : MetadataAuthority) → (authority_beq a b ≡ true) ↔ (a ≡ b)
authority_beq_iff a b = ground (arith, eq_iff a.type b.type, eq_iff a.url b.url)

instance abbrev pub authority_eq : Eq MetadataAuthority
authority_eq = record { beq = authority_beq; beq_iff = authority_beq_iff }

abbrev pub fetcher_beq : MetadataFetcher → MetadataFetcher → Bool
fetcher_beq a b = str_eq a.name b.name && str_eq a.version b.version

pub fetcher_beq_iff : (a b : MetadataFetcher) → (fetcher_beq a b ≡ true) ↔ (a ≡ b)
fetcher_beq_iff a b = ground (arith, eq_iff a.name b.name, eq_iff a.version b.version)

instance abbrev pub fetcher_eq : Eq MetadataFetcher
fetcher_eq = record { beq = fetcher_beq; beq_iff = fetcher_beq_iff }

pub record RawExtrinsicMetadata : Type 0 where
  pub target : Swhid
  pub discovery_date : ℕ
  pub authority : MetadataAuthority
  pub fetcher : MetadataFetcher
  pub format : String
  pub metadata : String
  pub origin : Option String
  pub release : Option Swhid

-- What `load` hands to the scheduler.
pub record TaskResult : Type 0 where
  pub status : String
  pub error : Option String
  pub snapshot_id : Option String

-- RawExtrinsicMetadataCore of package/loader.py.
pub record RawExtrinsicMetadataCore : Type 0 where
  pub format : String
  pub metadata : String
  pub discovery_date : Option ℕ

-- What swh.model computes: identifiers, and their hexadecimal form.
pub record Identifiers : Type 0 where
  pub release_id : Release → Sha1Git
  pub snapshot_id : Branches → Sha1Git
  pub origin_swhid : String → Swhid
  pub hash_to_hex : Sha1Git → String
