-- ===== src/Package/Release.antt =====
-- package/loader.py: rev2rel, _load_directory and _load_release.
pub mod Newline
use Prim.Native.String
use Prim.Native.Char.{code}
use swh_loader_core.Prelude.{
  String, Bool, true, false, not, ◌&&◌, Option, none, some, List, [], ◌∷◌, map, nat_beq, string_eq,
}
use swh_loader_core.Effects.{
  Exec, pure, throw, assert, expect, try_finally, value_error, ◌>>=◌, ◌>>◌,
}
use swh_loader_core.Model.{
  Sha1Git, truthy, directory, release, same_object_type, Revision, Release, MetadataAuthority,
  RawExtrinsicMetadata, Identifiers,
}
use swh_loader_core.Storage.{
  Storage, Logged, call, read, skipped_content_add, content_add, directory_add, release_add,
}
use swh_loader_core.Core.Base.Init.{Config}
use swh_loader_core.Core.Base.Metadata.{load_metadata_objects}
use swh_loader_core.Package.Info.{PackageInfo}
use swh_loader_core.Package.Methods.{Methods, Disk, Artifact, Directory}

-- message.endswith(b"\n")
abbrev pub ends_with_newline : String → Bool
ends_with_newline String.[] = false
ends_with_newline (String.◌∷◌ c String.[]) = nat_beq (code c) 10
ends_with_newline (String.◌∷◌ c (String.◌∷◌ d s)) = ends_with_newline (String.◌∷◌ d s)

-- `if message and not message.endswith(b"\n"): message += b"\n"`
abbrev pub terminated : Option String → Option String
terminated none = none
terminated (some message) = elim (truthy (some message) && not (ends_with_newline message)) [
  | true ↦ some (String.◌++◌ message "\n")
  | false ↦ some message
]

-- rev2rel
unfoldable pub rev2rel : Revision → String → Release
rev2rel rev version = record {
  name = version;
  message = terminated rev.message;
  target = some rev.directory;
  target_type = directory;
  synthetic = rev.synthetic;
  author = rev.author;
  date = rev.date;
}

abbrev pub swh_metadata_authority : MetadataAuthority
swh_metadata_authority = record { type = "registry"; url = "https://softwareheritage.org/" }

module _ {W : Type 0} (config : Config) (identifiers : Identifiers) (methods : Methods W)
    (disk : Disk W) (storage : Storage W) where
  -- _load_directory
  unfoldable pub load_directory : List Artifact → String → Exec (Logged W) (String × Directory)
  load_directory dl_artifacts tmpdir = do
    uncompressed_path ← read (methods.uncompress dl_artifacts tmpdir)
    found ← read (disk.from_disk uncompressed_path config.max_content_size)
    new ← read (disk.filter_known_objects found)
    call (skipped_content_add new.skipped_contents)
        (storage.skipped_content_add new.skipped_contents)
    call (content_add new.contents) (storage.content_add new.contents)
    call (directory_add new.directories) (storage.directory_add new.directories)
    pure (uncompressed_path, found)

  -- The `with` block: the artifacts, the directory and the release, if one can be built.
  unfoldable pub fetch_release :
      PackageInfo → String → Exec (Logged W) (List Artifact × Directory × Option Release)
  fetch_release p_info tmpdir = do
    dl_artifacts ← read (methods.download_package p_info tmpdir)
    loaded ← load_directory dl_artifacts tmpdir
    built ← read (methods.build_release p_info loaded.0 loaded.1.hash)
    pure (dl_artifacts, loaded.1, built)

  unfoldable pub with_tmpdir :
      PackageInfo → Exec (Logged W) (List Artifact × Directory × Option Release)
  with_tmpdir p_info = do
    tmpdir ← read disk.make_directory
    try_finally (fetch_release p_info tmpdir) (read (disk.remove_directory tmpdir))

  -- The metadata object on the original artifacts of a release.
  unfoldable pub original_artifact_metadata :
      List Artifact → Release → Exec (Logged W) RawExtrinsicMetadata
  original_artifact_metadata dl_artifacts rel = do
    target ← expect rel.target
    assert (same_object_type rel.target_type directory)
    fetcher ← read methods.get_metadata_fetcher
    pure (record {
      target = record { object_type = directory; object_id = target };
      discovery_date = config.visit_date;
      authority = swh_metadata_authority;
      fetcher = fetcher;
      format = "original-artifacts-json";
      metadata = disk.json_dumps (map (λ (a : Artifact). a.metadata) dl_artifacts);
      origin = some config.origin_url;
      release = some (record { object_type = release; object_id = identifiers.release_id rel });
    })

  unfoldable pub store_release :
      List Artifact → Directory → Option Release → Exec (Logged W) (Option (Sha1Git × Sha1Git))
  store_release dl_artifacts found none = pure none
  store_release dl_artifacts found (some rel) = do
    metadata ← original_artifact_metadata dl_artifacts rel
    load_metadata_objects storage (metadata ∷ [])
    call (release_add rel) (storage.release_add rel)
    assert (truthy (some found.hash))
    pure (some (identifiers.release_id rel, found.hash))

  -- _load_release
  unfoldable pub load_release : PackageInfo → Exec (Logged W) (Option (Sha1Git × Sha1Git))
  load_release p_info = elim (truthy (some p_info.url)) [
    | false ↦ throw (value_error "No url for package!")
    | true ↦ do fetched ← with_tmpdir p_info; store_release fetched.0 fetched.1 fetched.2
  ]
