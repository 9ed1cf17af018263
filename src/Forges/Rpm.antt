-- ===== src/Forges/Rpm.antt =====
-- package/rpm/loader.py
use swh_loader_core.Prelude.{
  ℕ, String, Bool, true, false, Option, none, some, List, [], ◌∷◌, Dict, lookup, insert, map,
  string_eq,
}
use swh_loader_core.Effects.{
  Exec, pure, throw, assert, gets, modify, try_except, try_finally, value_error, index_error, other,
  ◌>>=◌, ◌>>◌,
}
use swh_loader_core.Model.{Sha1Git, target_of, directory, Release}
use swh_loader_core.Storage.{
  Storage, Logged, call, read, skipped_content_add, content_add, directory_add,
}
use swh_loader_core.Core.Utils.Download.{Digest, hex, Extrinsic}
use swh_loader_core.Core.Utils.{release_name}
use swh_loader_core.Package.Info.{PackageInfo}
use swh_loader_core.Package.Methods.{Directory}
use swh_loader_core.Package.Defaults.{sort_versions}
use swh_loader_core.Package.Snapshot.{BranchDict}
use swh_loader_core.Forges.Text.{join_texts, is_slash, last_part, ends_with}
use swh_loader_core.Forges.Json.{Json, as_dict, as_str, item, str_item, each, present}
use swh_loader_core.Forges.Person.{Person, empty_author}

-- RpmPackageInfo
pub record RpmInfo : Type 0 where
  pub base : PackageInfo
  pub name : String
  pub intrinsic_version : String
  pub build_time : String
  pub checksums_str : String

module _ {W : Type 0} (sorted_dumps : Json → String) where
  abbrev checksum : String × Json → Exec W (String × Digest)
  checksum c = do value ← as_str c.1; pure (c.0, hex value)

  -- RpmPackageInfo.from_metadata; `sorted_dumps` is json.dumps with sorted keys. The manifest is
  -- MANIFEST_FORMAT with the attributes put in.
  unfoldable pub from_metadata : (a_metadata : Json) → (version : String) → Exec W RpmInfo
  from_metadata a_metadata version = do
    url ← str_item "url" a_metadata
    let filename = last_part is_slash url
    assert (ends_with filename ".rpm")
    name ← str_item "name" a_metadata
    intrinsic_version ← str_item "version" a_metadata
    build_time ← str_item "build_time" a_metadata
    checksums_item ← item "checksums" a_metadata
    d ← as_dict checksums_item
    checksums ← each checksum d
    let checksums_str = sorted_dumps checksums_item
    pure (record {
      base = record {
        url = url;
        filename = some filename;
        version = version;
        directory_extrinsic_metadata = [];
        checksums = checksums;
        manifest = some (join_texts (name ∷ " " ∷ intrinsic_version ∷ " " ∷ checksums_str ∷ []));
      };
      name = name;
      intrinsic_version = intrinsic_version;
      build_time = build_time;
      checksums_str = checksums_str;
    })

  -- get_package_info: the only pair that the generator yields
  unfoldable pub get_package_info :
      (packages : Dict String Json) → (version : String) → Exec W (String × RpmInfo)
  unfolding from_metadata
  get_package_info packages version = do
    a_metadata ← present (lookup version packages)
    p_info ← from_metadata a_metadata version
    pure (release_name version none, p_info)

  -- get_versions: sorted by the build time; texts compare by their characters.
  unfoldable pub get_versions :
      (later : String → String → Bool) → (packages : Dict String Json) → Exec W (List String)
  get_versions later packages = do
    keyed ← each keyed_version packages
    pure (
        map (λ (p : String × String). p.1)
          (sort_versions (λ (a b : String × String). later a.0 b.0) keyed))
    where
      keyed_version : String × Json → Exec W (String × String)
      keyed_version p = do time ← str_item "build_time" p.1; pure (time, p.0)

-- The disk, the programs rpm2cpio and cpio, and swh.model.from_disk.
pub record RpmDisk (W : Type 0) : Type 0 where
  pub exists : String → Exec W Bool
  -- next(walk(path)): the root and its files
  pub walk : String → Exec W (String × List String)
  pub make_directory : Exec W String
  pub remove_directory : String → Exec W (Unit {0})
  pub uncompress : (path dest : String) → Exec W (Unit {0})
  pub from_disk : String → (max_content_length : Option ℕ) → Exec W Directory
  pub join : String → String → String
  -- none, or the exit code of a failure and the log
  pub unpack_rpm : (logfile rpm_path destdir : String) → Exec W (Option (String × String))
  pub from_iso8601 : String → Exec W ℕ

module _ {W : Type 0} (disk : RpmDisk W) where
  abbrev check_call : Option (String × String) → (destdir : String) → Exec W String
  check_call none destdir = pure destdir
  check_call (some (code, logdata)) destdir =
      throw (
        value_error (join_texts ("rpm2cpio | cpio exited with code " ∷ code ∷ ": " ∷ logdata ∷ [])))

  -- extract_rpm_package
  unfoldable pub extract_rpm_package : (rpm_path dest : String) → Exec W String
  extract_rpm_package rpm_path dest = do
    found ← disk.exists rpm_path
    elim found [
      | false ↦ throw (other (join_texts ("RPM package " ∷ rpm_path ∷ " not found" ∷ [])))
      | true ↦ do
        let destdir = disk.join dest "extracted"
        outcome ← disk.unpack_rpm (disk.join dest "extract.log") rpm_path destdir
        check_call outcome destdir
    ]

  -- uncompress
  unfoldable pub uncompress : List (String × Extrinsic) → (dest : String) → Exec W String
  unfolding extract_rpm_package
  uncompress [] dest = throw index_error
  uncompress (artifact ∷ _) dest = extract_rpm_package artifact.0 dest

-- The log of the calls, and self.tarball_branches.
pub record Tarballs (W : Type 0) : Type 0 where
  pub log : Logged W
  pub tarball_branches : BranchDict

abbrev pub on_log : {W A : Type 0} → Exec (Logged W) A → Exec (Tarballs W) A
on_log m s = let r = m s.log in (r.0, record s { log = r.1 })

module _ {W : Type 0} (disk : RpmDisk W) (storage : Storage W) (max_content_size : Option ℕ) where
  -- A file that can be unpacked: its directory is stored, and gets a branch.
  unfoldable pub store_tarball : (file tmpdir : String) → Exec (Tarballs W) (Unit {0})
  store_tarball file tmpdir = do
    tarball_dir ← on_log (read (disk.from_disk tmpdir max_content_size))
    on_log (
        call (skipped_content_add tarball_dir.skipped_contents)
          (storage.skipped_content_add tarball_dir.skipped_contents))
    on_log (call (content_add tarball_dir.contents) (storage.content_add tarball_dir.contents))
    on_log (
        call (directory_add tarball_dir.directories)
          (storage.directory_add tarball_dir.directories))
    modify (λ s. record s {
      tarball_branches = insert file (target_of directory tarball_dir.hash) s.tarball_branches;
    })

  -- `try: uncompress(...)` / `except Exception: continue`
  unfoldable pub with_tarball : (root file tmpdir : String) → Exec (Tarballs W) (Unit {0})
  unfolding store_tarball
  with_tarball root file tmpdir = do
    unpacked ←
        try_except (do on_log (read (disk.uncompress (disk.join root file) tmpdir)); pure true)
          (λ e. pure false)
    elim unpacked [ true ↦ store_tarball file tmpdir | false ↦ pure tt ]

  -- `for file in files`
  unfoldable pub load_tarballs : (root : String) → List String → Exec (Tarballs W) (Unit {0})
  unfolding with_tarball
  load_tarballs root [] = pure tt
  load_tarballs root (file ∷ files) = do
    tmpdir ← on_log (read disk.make_directory)
    try_finally (with_tarball root file tmpdir) (on_log (read (disk.remove_directory tmpdir)))
    load_tarballs root files

  -- build_release
  unfoldable pub build_release :
      (from_fullname : String → Person)
      → RpmInfo
      → (uncompressed_path : String) → Sha1Git
      → Exec (Tarballs W) (Option Release)
  unfolding load_tarballs
  build_release from_fullname p_info uncompressed_path directory_id = do
    found ← on_log (read (disk.walk uncompressed_path))
    load_tarballs found.0 found.1
    date ← on_log (read (disk.from_iso8601 p_info.build_time))
    pure (
        some (record {
          name = p_info.intrinsic_version;
          message = some (
              join_texts (
                "Synthetic release for RPM source package " ∷ p_info.name ∷ " version "
                ∷ p_info.intrinsic_version ∷ "\n" ∷ []));
          author = some (empty_author from_fullname).fullname;
          date = some date;
          target = some directory_id;
          target_type = directory;
          synthetic = true;
        }))

  -- extra_branches
  unfoldable pub extra_branches : Exec (Tarballs W) BranchDict
  extra_branches = gets (λ s. s.tarball_branches)
