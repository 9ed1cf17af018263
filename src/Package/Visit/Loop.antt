-- ===== src/Package/Visit/Loop.antt =====
-- package/loader.py: the loop over the packages makes no call that ends a visit.
use swh_loader_core.Prelude.{
  String, refl, true, false, Option, none, some, List, [], ◌∷◌, arith, string_eq,
}
use swh_loader_core.Effects.Reaches.{
  Phases, Keeps, Keeps-pure, Keeps-bind, Keeps-if, Keeps-throw, Keeps-try_except,
}
use swh_loader_core.Model.{Sha1Git, ObjectType, Swhid, Revision, Identifiers}
use swh_loader_core.Storage.{Storage, Logged}
use swh_loader_core.Storage.Machine
use swh_loader_core.Core.Base.Init.{Config}
use swh_loader_core.Package.Info.{PackageInfo}
use swh_loader_core.Package.Extids.{Known}
use swh_loader_core.Package.Methods.{Methods, Disk}
use swh_loader_core.Package.Progress.{Progress, Loaded, nothing, failed, loaded}
use swh_loader_core.Package.Load.{
  try_load, add_release, after_load, load_new, the_revision, upgrade, by_type, load_known,
  load_package, load_packages,
}
use swh_loader_core.Package.Quiet.{is_quiet, IsClosed, load_and_describe-Keeps}
use swh_loader_core.Package.Visit.Protocol.{Phase, loading, flushed, step, protocol}

abbrev pub progress : {W : Type 0} → Logged W → Phase
progress = Machine.progress protocol

abbrev pub is_loading : Phases Phase
is_loading loading = true
is_loading flushed = true
is_loading _ = false

quiet_loading : IsClosed protocol is_quiet is_loading
unfolding protocol step
quiet_loading c h p k = ground arith

module _ {W : Type 0} (config : Config) (identifiers : Identifiers) (methods : Methods W)
    (disk : Disk W) (storage : Storage W) where
  try_load-Keeps :
      (p_info : PackageInfo)
      → Keeps progress is_loading (try_load config identifiers methods disk storage p_info)
  unfolding try_load protocol step
  try_load-Keeps p_info =
      Keeps-try_except
        (load_and_describe-Keeps protocol config identifiers methods disk storage quiet_loading
          p_info)
        λ e. Keeps-bind (Machine.Keeps-call protocol _ _ (λ p k. ground arith)) λ _. Keeps-pure _

  add_release-Keeps :
      (branch_name version : String) (id : Sha1Git) (st : Progress)
      → Keeps progress is_loading
          (add_release config identifiers methods disk storage branch_name version id st)
  unfolding add_release
  add_release-Keeps branch_name version id st = Keeps-if _ (Keeps-pure _) (Keeps-throw _)

  after_load-Keeps :
      (branch_name : String) (p_info : PackageInfo) (st : Progress) (r : Loaded)
      → Keeps progress is_loading
          (after_load config identifiers methods disk storage branch_name p_info st r)
  unfolding after_load
  after_load-Keeps branch_name p_info st nothing = Keeps-pure _
  after_load-Keeps branch_name p_info st (failed e) = Keeps-pure _
  after_load-Keeps branch_name p_info st (loaded id) = add_release-Keeps branch_name _ id _

  load_new-Keeps :
      (branch_name : String) (p_info : PackageInfo) (st : Progress)
      → Keeps progress is_loading
          (load_new config identifiers methods disk storage branch_name p_info st)
  unfolding load_new
  load_new-Keeps branch_name p_info st =
      Keeps-bind (try_load-Keeps p_info) (after_load-Keeps branch_name p_info st)

  the_revision-Keeps :
      (answer : List (Option Revision))
      → Keeps progress is_loading (the_revision config identifiers methods disk storage answer)
  unfolding the_revision
  the_revision-Keeps [] = Keeps-throw _
  the_revision-Keeps (rev ∷ []) = Keeps-pure rev
  the_revision-Keeps (rev ∷ more ∷ rest) = Keeps-throw _

  upgrade-Keeps :
      (branch_name : String) (p_info : PackageInfo) (st : Progress) (rev : Option Revision)
      → Keeps progress is_loading
          (upgrade config identifiers methods disk storage branch_name p_info st rev)
  unfolding upgrade
  upgrade-Keeps branch_name p_info st none = load_new-Keeps branch_name p_info st
  upgrade-Keeps branch_name p_info st (some rev) =
      Keeps-bind (Machine.Keeps-call protocol _ _ (quiet_loading _ refl))
        λ _. add_release-Keeps branch_name _ _ _

  by_type-Keeps :
      (branch_name : String) (p_info : PackageInfo) (st : Progress) (type : ObjectType)
      (id : Sha1Git)
      → Keeps progress is_loading
          (by_type config identifiers methods disk storage branch_name p_info st type id)
  unfolding by_type
  by_type-Keeps branch_name p_info st ObjectType.revision id =
      Keeps-bind (Machine.Keeps-read protocol _) λ answer.
        Keeps-bind (the_revision-Keeps answer) λ rev. upgrade-Keeps branch_name p_info st rev
  by_type-Keeps branch_name p_info st ObjectType.release id = add_release-Keeps branch_name _ id st
  by_type-Keeps branch_name p_info st _ id = Keeps-throw _

  load_known-Keeps :
      (branch_name : String) (p_info : PackageInfo) (st : Progress) (swhid : Option Swhid)
      → Keeps progress is_loading
          (load_known config identifiers methods disk storage branch_name p_info st swhid)
  unfolding load_known
  load_known-Keeps branch_name p_info st none = load_new-Keeps branch_name p_info st
  load_known-Keeps branch_name p_info st (some swhid) = by_type-Keeps branch_name p_info st _ _

  pub load_packages-Keeps :
      (known : Known) (targets : List Sha1Git) (infos : List (String × PackageInfo)) (st : Progress)
      → Keeps progress is_loading
          (load_packages config identifiers methods disk storage known targets infos st)
  unfolding load_packages load_package
  load_packages-Keeps known targets [] st = Keeps-pure st
  load_packages-Keeps known targets ((branch_name, p_info) ∷ rest) st =
      Keeps-bind
        (Keeps-bind (Machine.Keeps-read protocol _)
          λ resolved. load_known-Keeps branch_name p_info st _)
        (load_packages-Keeps known targets rest)
