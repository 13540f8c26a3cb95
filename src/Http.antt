-- ===== src/Http.antt =====
-- adapters/httpapi/server.go: the API of the daemon. A request has a clean path; a body is its bytes,
-- and `Decoders` is what encoding/json makes of them. Bodies of answers are values, not JSON.
pub mod Handlers
pub mod Server
pub mod Tokens
pub mod Guarded
pub mod Statuses
mod Tests
use ez_vpn_lego.Prelude.{
  ℕ, String, Bool, true, false, not, ◌&&◌, ◌||◌, Option, none, some, List, length, ltb, ◌==◌,
  nat_eq, bytes_eq, string_eq, if◌then◌else◌,
}
use ez_vpn_lego.Prelude.Text.{is_empty, code_of}
use ez_vpn_lego.Core.Model.{Admin, User}
use ez_vpn_lego.Postgres.Users.{CreateUserRequest, CreateUserResult}
use ez_vpn_lego.Postgres.Admins.{PairingToken}
use ez_vpn_lego.Services.{ServiceError}
use ez_vpn_lego.Services.Access.{CreateAccessRequest, CreateAccessResult}
use ez_vpn_lego.Services.Bootstrap.{BootstrapVpnRequest, BootstrapVpnResult}
use ez_vpn_lego.Store.Tx as Store

pub record Request : Type 0 where
  pub method : String
  pub path : String
  pub authorization : String
  pub admin_id : String  -- the header `X-Admin-ID`
  pub idempotency_key : String  -- the header `Idempotency-Key`
  pub subject : String  -- the parameter `subject` of the query
  pub body : List ℕ

-- What is written as JSON.
pub data Payload : Type 0 where
  problem : String → Payload
  health : String → Payload
  administrator : Admin → Payload
  pairing : PairingToken → Payload
  users : List User → Payload
  created_user : CreateUserResult → Payload
  access : CreateAccessResult → Payload
  vpn : BootstrapVpnResult → Payload

pub record Response : Type 0 where
  pub status : ℕ
  pub payload : Payload

-- `writeError`, without the message.
abbrev pub write_error : ℕ → String → Response
write_error status code = record { status = status; payload = problem code }

abbrev pub write_json : ℕ → Payload → Response
write_json status payload = record { status = status; payload = payload }

-- What a call of a service comes to.
pub data Answer (E V : Type 0) : Type 0 where
  value : V → Answer E V
  error : E → Answer E V
  panic : Answer E V

-- The interfaces of core/ports, over the state that the services share.
pub record Ports (S : Type 0) : Type 0 where
  pub ping : S → Bool
  pub list_users : S → Answer Store.Error (List User) × S
  pub create_user : CreateUserRequest → S → Answer Store.Error CreateUserResult × S
  pub bootstrap_owner : S → Answer Store.Error Admin × S
  pub create_pairing : String → S → Answer Store.Error PairingToken × S
  pub claim_pairing : String → String → S → Answer Store.Error Admin × S
  pub resolve_telegram : String → S → Answer Store.Error Admin × S
  pub bootstrap_vpn : BootstrapVpnRequest → S → Answer ServiceError BootstrapVpnResult × S
  pub create_access : CreateAccessRequest → S → Answer ServiceError CreateAccessResult × S

-- The first value of a body, and whether something follows it.
pub data Decoded (V : Type 0) : Type 0 where
  invalid : Decoded V
  trailing : Decoded V
  single : V → Decoded V

pub record ClaimBody : Type 0 where
  pub token : String
  pub subject : String

pub record VpnBody : Type 0 where
  pub public_address : String
  pub port : ℕ
  pub target : String
  pub server_name : String

pub record Decoders : Type 0 where
  pub name_body : List ℕ → Decoded String
  pub claim_body : List ℕ → Decoded ClaimBody
  pub vpn_body : List ℕ → Decoded VpnBody

abbrev pub max_request_body : ℕ
max_request_body = 65536

abbrev single_value : {V : Type 0} → Decoded V → Option V
single_value invalid = none
single_value trailing = none
single_value (single v) = some v

-- `decodeJSON`; `none` where it has answered 400. Beyond its limit the reader has an error, which is
-- either decoding's or not the end of the input.
unfoldable pub decode_json : {V : Type 0} → (List ℕ → Decoded V) → List ℕ → Option V
decode_json decode body =
    if ltb max_request_body (length body) then none else single_value (decode body)

-- The rest of a text after a prefix.
unfoldable pub after_prefix : String → String → Option String
after_prefix String.[] s = some s
after_prefix (String.◌∷◌ p ps) String.[] = none
after_prefix (String.◌∷◌ p ps) (String.◌∷◌ c s) =
    let rest = after_prefix ps s in if code_of p == code_of c then rest else none

abbrev or_whole : String → Option String → String
or_whole s none = s
or_whole s (some rest) = rest

-- `strings.TrimPrefix`
unfoldable pub trim_prefix : String → String → String
unfolding after_prefix
trim_prefix s prefix = or_whole s (after_prefix prefix s)

module _ (sha256 : String → List ℕ) (token_hash : List ℕ) where
  -- The test of `authenticateAdapter`.
  unfoldable pub is_authentic : Request → Bool
  is_authentic request =
      let provided = trim_prefix request.authorization "Bearer " in
      not (is_empty provided) && sha256 provided == token_hash

  -- `authenticateAdapter`
  abbrev pub authenticate_adapter :
      {S : Type 0} → (Request → S → Response × S) → Request → S → Response × S
  authenticate_adapter next request s =
      if is_authentic request then next request s else (write_error 401 "unauthorized", s)

  -- `authenticateAdmin`
  abbrev pub authenticate_admin :
      {S : Type 0} → (Request → S → Response × S) → Request → S → Response × S
  authenticate_admin next = authenticate_adapter (λ request s.
      if is_empty request.admin_id
      then (write_error 401 "administrator_required", s)
      else next request s)
