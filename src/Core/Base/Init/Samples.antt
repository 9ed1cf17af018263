-- ===== src/Core/Base/Init/Samples.antt =====
-- core/loader.py: BaseLoader.__init__ at one choice of arguments.
use swh_loader_core.Prelude.{true, false, refl, none, some}
use swh_loader_core.Core.Base.Init.{
  InitArgs, init, check_save_data_path, check_lister, init-IsValid, IsValid,
}
use swh_loader_core.Samples.{sample_config}

abbrev sample_args : InitArgs
sample_args = record {
  origin_url = "https://example.org/repo";
  save_data_path = none;
  max_content_size = some 100;
  lister_name = some "github";
  lister_instance_name = some "main";
  create_partial_snapshot = false;
}

init-IsValid_example : IsValid (record sample_config {
  max_content_size = some 100;
  lister_name = some "github";
  lister_instance_name = some "main";
})
unfolding init check_save_data_path check_lister
init-IsValid_example =
    init-IsValid (record { exists = λ p. true; read_write = λ p. true }) "git" 5 sample_args _ refl
