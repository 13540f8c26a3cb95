-- ===== src/Control.antt =====
-- adapters/controlclient/client.go: the client of the API, for `lego-vpnctl` and the bot. A header
-- that is not set is empty. The URLs are well-formed, so that `http.NewRequestWithContext` has no
-- error.
pub mod Served
mod Tests
use ez_vpn_lego.Prelude.{
  ℕ, String, Bool, true, false, ◌&&◌, ◌||◌, ◌<>◌, Option, none, some, List, [], ltb, leb,
  if◌then◌else◌,
}
use ez_vpn_lego.Prelude.Text.{is_empty}
use ez_vpn_lego.Http.{
  Request, Response, Payload, problem, health, administrator, pairing, users, created_user, access,
  vpn, ClaimBody, VpnBody,
}

pub record Client : Type 0 where
  pub token : String
  pub admin_id : String

-- `APIError` without its message is `api_error`.
pub data ClientError : Type 0 where
  not_configured call_failed undecodable : ClientError
  api_error : ℕ → String → ClientError

pub data Reply (V : Type 0) : Type 0 where
  failed : ClientError → Reply V
  received : V → Reply V

pub record Health : Type 0 where
  pub status : String
  pub version : String

pub record User : Type 0 where
  pub id : String
  pub name : String
  pub status : String
  pub created_at : ℕ
  pub updated_at : ℕ

pub record UserCreation : Type 0 where
  pub operation_id : String
  pub user : User
  pub replayed : Bool

pub record Owner : Type 0 where
  pub id : String
  pub role : String
  pub status : String
  pub created_at : ℕ
  pub updated_at : ℕ

pub record VpnBootstrap : Type 0 where
  pub operation_id : String
  pub user_id : String
  pub device_id : String
  pub uri : String

pub record AccessCreation : Type 0 where
  pub operation_id : String
  pub user_id : String
  pub device_id : String
  pub uri : String

pub record PairingToken : Type 0 where
  pub token : String
  pub expires_at : ℕ

-- What encoding/json writes and reads. `json.Marshal` has no error on these values.
pub record Json : Type 0 where
  pub write_name : String → List ℕ
  pub write_claim : ClaimBody → List ℕ
  pub write_vpn : VpnBody → List ℕ
  pub read_health : Payload → Option Health
  pub read_owner : Payload → Option Owner
  pub read_pairing : Payload → Option PairingToken
  pub read_access : Payload → Option AccessCreation
  pub read_vpn : Payload → Option VpnBootstrap
  pub read_users : Payload → Option (List User)
  pub read_user : Payload → Option UserCreation

-- What becomes of a request: an answer, or none, which the server may have acted on all the same.
abbrev pub Network : Type 0 → Type 0
Network S = Request → S → Option Response × S

-- The code of an error's body, where that is an object with a code; what `http.ServeMux` answers by
-- itself is none, and has an empty code here.
abbrev pub error_code : Payload → String
error_code (problem code) = if is_empty code then "unknown" else code
error_code (health s) = "unknown"
error_code (administrator a) = "unknown"
error_code (pairing p) = "unknown"
error_code (users us) = "unknown"
error_code (created_user r) = "unknown"
error_code (access r) = "unknown"
error_code (vpn r) = "unknown"

abbrev decoded : {V : Type 0} → Option V → Reply V
decoded none = failed undecodable
decoded (some v) = received v

-- What `do` makes of an answer.
unfoldable pub reply_of : {V : Type 0} → (Payload → Option V) → Response → Reply V
reply_of read response =
    if ltb response.status 200 || leb 300 response.status
    then failed (api_error response.status (error_code response.payload))
    else decoded (read response.payload)

abbrev pub heard : {V S : Type 0} → (Payload → Option V) → Option Response × S → Reply V × S
heard read (none, s) = (failed call_failed, s)
heard read (some response, s) = (reply_of read response, s)

abbrev pub bearer : String → String
bearer token = if is_empty token then "" else "Bearer " <> token

module _ (client : Client) where
  -- `do`, for the body, the key and the parameter `subject` of a request.
  unfoldable pub request_api :
      {V S : Type 0}
      → Network S
      → String
      → String
      → String
      → List ℕ
      → String
      → Bool
      → (Payload → Option V)
      → S
      → Reply V × S
  request_api network method path subject payload key require_admin read s =
      let message : Request = record {
        method = method;
        path = path;
        authorization = bearer client.token;
        admin_id = if require_admin then client.admin_id else "";
        idempotency_key = key;
        subject = subject;
        body = payload;
      } in
      if require_admin && is_empty client.admin_id
      then (failed not_configured, s)
      else heard read (network message s)

-- `WithAdmin`
abbrev pub with_admin : Client → String → Client
with_admin client admin_id = record client { admin_id = admin_id }

module _ {S : Type 0} (json : Json) (network : Network S) (client : Client) where
  -- `Health`
  unfoldable pub get_health : S → Reply Health × S
  get_health = request_api client network "GET" "/v1/health" "" [] "" false json.read_health

  -- `BootstrapOwner`
  unfoldable pub bootstrap_owner : S → Reply Owner × S
  bootstrap_owner =
      request_api client network "POST" "/v1/bootstrap/owner" "" [] "" false json.read_owner

  -- `CreateTelegramPairing`
  unfoldable pub create_telegram_pairing : S → Reply PairingToken × S
  create_telegram_pairing =
      request_api client network "POST" "/v1/auth/telegram/pairing" "" [] "" true json.read_pairing

  -- `ClaimTelegramPairing`
  unfoldable pub claim_telegram_pairing : String → String → S → Reply Owner × S
  claim_telegram_pairing token subject =
      request_api client network "POST" "/v1/auth/telegram/claim" ""
        (json.write_claim (record { token = token; subject = subject })) "" false json.read_owner

  -- `ResolveTelegram`
  unfoldable pub resolve_telegram : String → S → Reply Owner × S
  resolve_telegram subject =
      request_api client network "GET" "/v1/auth/telegram/resolve" subject [] "" false
        json.read_owner

  -- `CreateAccess`
  unfoldable pub create_access : String → String → String → S → Reply AccessCreation × S
  create_access name key admin_id =
      request_api (with_admin client admin_id) network "POST" "/v1/access" "" (json.write_name name)
        key true json.read_access

  -- `BootstrapVPN`
  unfoldable pub bootstrap_vpn : VpnBody → String → S → Reply VpnBootstrap × S
  bootstrap_vpn body key =
      request_api client network "POST" "/v1/bootstrap/vpn" "" (json.write_vpn body) key true
        json.read_vpn

  -- `ListUsers`
  unfoldable pub list_users : S → Reply (List User) × S
  list_users = request_api client network "GET" "/v1/users" "" [] "" true json.read_users

  -- `CreateUser`
  unfoldable pub create_user : String → String → S → Reply UserCreation × S
  create_user name key =
      request_api client network "POST" "/v1/users" "" (json.write_name name) key true
        json.read_user
