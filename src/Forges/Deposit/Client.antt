-- ===== src/Forges/Deposit/Client.antt =====
-- package/deposit/loader.py: ApiClient. The package requests is a parameter.
use Prim.Native.String
use swh_loader_core.Prelude.{
  String, Bool, true, false, Option, none, some, List, [], ◌∷◌, ◌++◌, map, Dict,
}
use swh_loader_core.Effects.{Exec, throw, value_error, ◌>>=◌}
use swh_loader_core.Model.{truthy}
use swh_loader_core.Core.Utils.{cached_method}
use swh_loader_core.Core.Utils.Download.{Web, Extrinsic, download}
use swh_loader_core.Forges.Text.{rstrip, is_slash}
use swh_loader_core.Forges.Json.{Json, str, list, dict, list_of, dict_of, Cache}

-- The authentication of a request, if any: a user name and a password.
abbrev pub Auth : Type 0
Auth = Option (String × String)

pub record HttpResponse (W : Type 0) : Type 0 where
  pub is_ok : Bool
  pub url : String
  pub json : Exec W Json

-- requests.get and requests.put, and the reading of an archive
pub record Http (W : Type 0) : Type 0 where
  pub get : (url : String) → Auth → Exec W (HttpResponse W)
  pub put : (url : String) → Auth → (json : Json) → Exec W (Unit {0})
  pub web : Auth → Web W

pub record ApiClient : Type 0 where
  pub base_url : String
  pub auth : Auth

-- ApiClient.__init__; an empty mapping for auth is given as None.
unfoldable pub api_client : (url : String) → Auth → ApiClient
api_client url auth = record { base_url = rstrip is_slash url; auth = auth }

-- What status_update is called with beyond the identifier of the deposit.
pub record StatusUpdate : Type 0 where
  pub status : String
  pub errors : List String
  pub release_id : Option String
  pub directory_id : Option String
  pub snapshot_id : Option String
  pub origin_url : Option String

-- f"{self.base_url}/{deposit_id}/{endpoint}/"
unfoldable pub endpoint_url : ApiClient → (deposit_id endpoint : String) → String
endpoint_url client deposit_id endpoint =
    String.◌++◌ client.base_url
      (String.◌++◌ "/" (String.◌++◌ deposit_id (String.◌++◌ "/" (String.◌++◌ endpoint "/"))))

-- `if value: payload[key] = value`
abbrev put_str : String → Option String → Dict String Json
put_str key none = []
put_str key (some value) = elim (truthy (some value)) [ true ↦ (key, str value) ∷ [] | false ↦ [] ]

-- `if errors: payload["status_detail"] = {"loading": errors}`
abbrev put_errors : List String → Dict String Json
put_errors [] = []
put_errors (e ∷ errors) =
    ("status_detail", dict (dict_of (("loading", list (list_of (map str (e ∷ errors)))) ∷ []))) ∷ []

-- The payload of status_update; its keys are all different.
unfoldable pub payload : StatusUpdate → Dict String Json
payload u =
    ("status", str u.status) ∷ put_str "release_id" u.release_id
    ++ put_str "directory_id" u.directory_id
    ++ put_str "snapshot_id" u.snapshot_id
    ++ put_str "origin_url" u.origin_url
    ++ put_errors u.errors

module _ {W : Type 0} (http : Http W) (client : ApiClient) where
  -- The answer of an endpoint.
  unfoldable pub fetch : (problem url : String) → Exec W Json
  fetch problem url = do
    response ← http.get url client.auth
    elim response.is_ok [
      | true ↦ response.json
      | false ↦ throw (value_error (String.◌++◌ problem response.url))
    ]

  -- metadata_get; lru_cache keeps the answers and not the exceptions.
  unfoldable pub metadata_get : Cache W String Json → (deposit_id : String) → Exec W Json
  unfolding fetch endpoint_url
  metadata_get cache deposit_id =
      cached_method (cache.look deposit_id) (cache.keep deposit_id) (
        fetch "Problem when retrieving deposit metadata at "
          (endpoint_url client deposit_id "meta"))

  -- releases_get
  unfoldable pub releases_get : Cache W String Json → (deposit_id : String) → Exec W Json
  unfolding fetch endpoint_url
  releases_get cache deposit_id = cached_method (cache.look deposit_id) (cache.keep deposit_id) (
      fetch "Problem when retrieving deposit releases at "
        (endpoint_url client deposit_id "releases"))

  -- status_update
  unfoldable pub status_update : (deposit_id : String) → StatusUpdate → Exec W (Unit {0})
  unfolding endpoint_url payload
  status_update deposit_id update =
      http.put (endpoint_url client deposit_id "update") client.auth
        (dict (dict_of (payload update)))

  -- archive_get
  unfoldable pub archive_get : (deposit_id tmpdir filename : String) → Exec W (String × Extrinsic)
  unfolding endpoint_url
  archive_get deposit_id tmpdir filename =
      download (http.web client.auth) (endpoint_url client deposit_id "raw") tmpdir []
        (some filename) []
