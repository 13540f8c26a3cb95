-- ===== src/Http/Handlers.antt =====
-- The handlers of adapters/httpapi/server.go: which service each calls, and the status of each
-- outcome. A panic in a service is caught by `recoverPanic`.
use ez_vpn_lego.Prelude.{Option, none, some, List, if◌then◌else◌}
use ez_vpn_lego.Core.Model.{Admin, User}
use ez_vpn_lego.Postgres.Users.{CreateUserResult}
use ez_vpn_lego.Postgres.Admins.{PairingToken}
use ez_vpn_lego.Services.{ServiceError, storage, invalid_argument}
use ez_vpn_lego.Services.Access.{CreateAccessResult}
use ez_vpn_lego.Services.Bootstrap.{BootstrapVpnResult}
use ez_vpn_lego.Store.Tx as Store
use ez_vpn_lego.Http.{
  Request, Response, health, administrator, pairing, users, created_user, access, vpn, write_error,
  write_json, Answer, value, error, panic, Ports, Decoders, decode_json,
}

abbrev pub recovered : Response
recovered = write_error 500 "internal_error"

-- What each handler writes for the outcome of its call.
unfoldable pub pairing_response : Answer Store.Error PairingToken → Response
pairing_response (value token) = write_json 201 (pairing token)
pairing_response (error e) = write_error 500 "pairing_create_failed"
pairing_response panic = recovered

unfoldable pub claim_response : Answer Store.Error Admin → Response
claim_response (value admin) = write_json 200 (administrator admin)
claim_response (error Store.pairing_token_invalid) = write_error 409 "pairing_rejected"
claim_response (error Store.identity_already_bound) = write_error 409 "pairing_rejected"
claim_response (error _) = write_error 500 "pairing_failed"
claim_response panic = recovered

unfoldable pub resolve_response : Answer Store.Error Admin → Response
resolve_response (value admin) = write_json 200 (administrator admin)
resolve_response (error Store.unauthorized_actor) = write_error 404 "identity_not_found"
resolve_response (error _) = write_error 500 "identity_resolve_failed"
resolve_response panic = recovered

unfoldable pub access_response : Answer ServiceError CreateAccessResult → Response
access_response (value result) = write_json 201 (access result)
access_response (error invalid_argument) = write_error 400 "invalid_request"
access_response (error _) = write_error 500 "access_create_failed"
access_response panic = recovered

unfoldable pub vpn_response : Answer ServiceError BootstrapVpnResult → Response
vpn_response (value result) = write_json 201 (vpn result)
vpn_response (error (storage Store.vpn_already_bootstrapped)) =
    write_error 409 "already_bootstrapped"
vpn_response (error (storage Store.unauthorized_actor)) = write_error 403 "forbidden"
vpn_response (error invalid_argument) = write_error 400 "invalid_request"
vpn_response (error _) = write_error 500 "bootstrap_failed"
vpn_response panic = recovered

unfoldable pub owner_response : Answer Store.Error Admin → Response
owner_response (value admin) = write_json 201 (administrator admin)
owner_response (error Store.already_bootstrapped) = write_error 409 "already_bootstrapped"
owner_response (error _) = write_error 500 "internal_error"
owner_response panic = recovered

unfoldable pub users_response : Answer Store.Error (List User) → Response
users_response (value rows) = write_json 200 (users rows)
users_response (error e) = write_error 500 "internal_error"
users_response panic = recovered

unfoldable pub user_response : Answer Store.Error CreateUserResult → Response
user_response (value result) =
    write_json (if result.replayed then 200 else 201) (created_user result)
user_response (error Store.idempotency_conflict) = write_error 409 "idempotency_conflict"
user_response (error Store.unauthorized_actor) = write_error 403 "forbidden"
user_response (error Store.invalid_argument) = write_error 400 "invalid_request"
user_response (error _) = write_error 500 "internal_error"
user_response panic = recovered

abbrev pub respond : {A S : Type 0} → (A → Response) → A × S → Response × S
respond write (answer, s) = (write answer, s)

-- A handler that reads a body, whose state is untouched if the body is refused.
abbrev pub with_body : {V S : Type 0} → Option V → S → (V → Response × S) → Response × S
with_body none s next = (write_error 400 "invalid_json", s)
with_body (some body) s next = next body

module _ {S : Type 0} (ports : Ports S) (decoders : Decoders) where
  -- `getHealth`
  unfoldable pub get_health : Request → S → Response × S
  get_health request s = (
    if ports.ping s then write_json 200 (health "healthy") else write_json 503 (health "degraded"),
    s,
  )

  -- `bootstrapOwner`
  unfoldable pub bootstrap_owner : Request → S → Response × S
  bootstrap_owner request s = respond owner_response (ports.bootstrap_owner s)

  -- `createTelegramPairing`
  unfoldable pub create_telegram_pairing : Request → S → Response × S
  create_telegram_pairing request s =
      respond pairing_response (ports.create_pairing request.admin_id s)

  -- `claimTelegramPairing`
  unfoldable pub claim_telegram_pairing : Request → S → Response × S
  claim_telegram_pairing request s =
      with_body (decode_json decoders.claim_body request.body) s
        λ body. respond claim_response (ports.claim_pairing body.token body.subject s)

  -- `resolveTelegram`
  unfoldable pub resolve_telegram : Request → S → Response × S
  resolve_telegram request s = respond resolve_response (ports.resolve_telegram request.subject s)

  -- `bootstrapVPN`
  unfoldable pub bootstrap_vpn : Request → S → Response × S
  bootstrap_vpn request s = with_body (decode_json decoders.vpn_body request.body) s λ body.
      respond vpn_response (
        ports.bootstrap_vpn
          (record {
            admin_id = request.admin_id;
            public_address = body.public_address;
            port = body.port;
            target = body.target;
            server_name = body.server_name;
            idempotency_key = request.idempotency_key;
          })
          s)

  -- `createAccess`
  unfoldable pub create_access : Request → S → Response × S
  create_access request s = with_body (decode_json decoders.name_body request.body) s λ name.
      respond access_response (
        ports.create_access
          (record {
            admin_id = request.admin_id;
            name = name;
            idempotency_key = request.idempotency_key;
          })
          s)

  -- `listUsers`
  unfoldable pub list_users : Request → S → Response × S
  list_users request s = respond users_response (ports.list_users s)

  -- `createUser`
  unfoldable pub create_user : Request → S → Response × S
  create_user request s = with_body (decode_json decoders.name_body request.body) s λ name.
      respond user_response (
        ports.create_user
          (record {
            admin_id = request.admin_id;
            name = name;
            idempotency_key = request.idempotency_key;
          })
          s)
