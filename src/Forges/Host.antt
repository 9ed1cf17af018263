-- ===== src/Forges/Host.antt =====
-- What the loaders of the forges use of the network, the disk and third-party packages (swh.model,
-- iso8601), and of Python's json, urllib and os.path.
use swh_loader_core.Prelude.{ℕ, String, Bool, List}
use swh_loader_core.Effects.{Exec}
use swh_loader_core.Forges.Json.{Json}
use swh_loader_core.Forges.Person.{Person}

-- urlparse
pub record Url : Type 0 where
  pub scheme : String
  pub netloc : String
  pub path : String

pub record Host (W : Type 0) : Type 0 where
  -- get_url_body, json.loads and json.dumps
  pub get_url_body : String → Exec W String
  pub loads : String → Exec W Json
  pub dumps : Json → String
  -- str(value)
  pub text : Json → String
  pub lower : String → String
  pub urlparse : String → Url
  pub join : String → String → String
  -- os.path.exists and os.listdir
  pub exists : String → Exec W Bool
  pub listdir : String → Exec W (List String)
  -- TimestampWithTimezone.from_iso8601
  pub from_iso8601 : String → Exec W ℕ
  -- Person.from_fullname
  pub from_fullname : String → Person
  pub hash_to_bytes : String → Exec W String
