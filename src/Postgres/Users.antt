-- ===== src/Postgres/Users.antt =====
-- adapters/postgres/users.go
pub mod Replay
pub mod Created
pub mod Idempotent
mod Tests
use ez_vpn_lego.Prelude.{
  ℕ, String, Bool, true, false, ◌&&◌, ◌||◌, not, Option, none, some, List, map, ltb, leb, ◌==◌,
  string_eq, if◌then◌else◌,
}
use ez_vpn_lego.Prelude.Text.{rune_count, byte_length, is_empty, trim_space}
use ez_vpn_lego.Core.Status.{running}
use ez_vpn_lego.Core.Model.{User}
use ez_vpn_lego.Store.Rows.{
  Db, UserRow, Input, create_user_input, create_access_input, bootstrap_vpn_input, Operation,
}
use ez_vpn_lego.Store.Tx.{
  Error, no_rows, invalid_argument, unauthorized_actor, entropy_failed, invalid_uuid,
  idempotency_conflict, Result, ok, err, Tx, ◌>>=◌, ◌>>◌, pure, require, or_fail, on_no_rows, Link,
  transact, raise,
}
use ez_vpn_lego.Store.Queries.Admins.{get_active_admin}
use ez_vpn_lego.Store.Queries.Events.{create_audit_event, create_outbox_event}
use ez_vpn_lego.Store.Queries.Operations.{create_operation, complete_operation, get_operation}
use ez_vpn_lego.Store.Queries.Users.{create_user, get_user, list_users}

pub record CreateUserRequest : Type 0 where
  pub admin_id : String
  pub name : String
  pub idempotency_key : String

pub record CreateUserResult : Type 0 where
  pub operation_id : String
  pub user : User
  pub replayed : Bool

-- The four draws of `id.NewUUID` in `Create` and `recordCreation`.
pub record Draws : Type 0 where
  pub user_id : Option String
  pub operation_id : Option String
  pub audit_id : Option String
  pub outbox_id : Option String

unfoldable pub map_user : UserRow → User
map_user u = record {
  id = u.id;
  name = u.name;
  status = u.status;
  created_at = u.created_at;
  updated_at = u.updated_at;
}

-- `List`
unfoldable pub list : Db → Result (List User × Db)
list = do users ← list_users; pure (map map_user users)

-- What `json.Unmarshal` reads from a stored input into a `createUserInput`: its user ID and its
-- name, where a field that the text lacks stays empty.
abbrev decode_input : Input → String × String
decode_input (create_user_input user_id name) = (user_id, name)
decode_input (create_access_input name) = ("", name)
decode_input bootstrap_vpn_input = ("", "")

abbrev pub user_operation : String → String → String → String → String → Operation
user_operation operation_id admin_id key user_id name = record {
  id = operation_id;
  kind = "user.create";
  status = running;
  requested_by = admin_id;
  idempotency_key = key;
  input = create_user_input user_id name;
  error_code = none;
}

-- What is done with the answer of `CreateOperation`.
abbrev created_or_replayed :
    Tx CreateUserResult
    → (Operation → Tx CreateUserResult)
    → Result (Operation × Db)
    → Tx CreateUserResult
created_or_replayed replay create (ok (operation, d')) d = create operation d'
created_or_replayed replay create (err no_rows) d = replay d
created_or_replayed replay create (err e) d = err e

module _ (is_uuid : String → Bool) where
  -- `recordCreation`
  record_creation : Draws → String → String → Tx (Unit {0})
  record_creation draws admin_id user_id = do
    audit_id ← or_fail draws.audit_id entropy_failed
    outbox_id ← or_fail draws.outbox_id entropy_failed
    require (is_uuid admin_id) invalid_uuid
    require (is_uuid user_id) invalid_uuid
    create_audit_event (record {
      id = audit_id;
      actor_admin_id = some admin_id;
      action = "user.create";
      resource_type = "user";
      resource_id = user_id;
    })
    create_outbox_event (record {
      id = outbox_id;
      topic = "user.created";
      aggregate_type = "user";
      aggregate_id = user_id;
    })

  -- `replayExisting`
  pub replay_existing : String → String → String → Tx CreateUserResult
  replay_existing admin_id name key = do
    operation ← get_operation admin_id key
    require (operation.kind == "user.create" && (decode_input operation.input).1 == name)
        idempotency_conflict
    created ← get_user (decode_input operation.input).0
    pure (record { operation_id = operation.id; user = map_user created; replayed = true })

  -- What follows `CreateOperation` where it has made a row.
  pub create_row : Draws → ℕ → String → String → String → Operation → Tx CreateUserResult
  create_row draws now admin_id name user_id operation = do
    created ← create_user user_id name now
    record_creation draws admin_id user_id
    done ← complete_operation operation.id
    pure (record { operation_id = operation.id; user = map_user created; replayed = false })

  store : Operation → Tx CreateUserResult → (Operation → Tx CreateUserResult) → Tx CreateUserResult
  store operation replay create d =
      created_or_replayed replay create (create_operation operation d) d

  -- The body of the transaction.
  pub create_body : Draws → ℕ → String → String → String → String → String → Tx CreateUserResult
  create_body draws now admin_id name key user_id operation_id = do
    admin ← on_no_rows unauthorized_actor (get_active_admin is_uuid admin_id)
    store (user_operation operation_id admin_id key user_id name)
        (replay_existing admin_id name key) (create_row draws now admin_id name user_id)

  -- The tests on the request, on its trimmed name.
  unfoldable pub is_valid_request : CreateUserRequest → String → Bool
  is_valid_request request name =
      not (is_empty name || ltb 80 (rune_count name))
      && (not (
            ltb (byte_length request.idempotency_key) 16
            || ltb 128 (byte_length request.idempotency_key))
          && is_uuid request.admin_id)

  abbrev run :
      Link
      → Draws
      → ℕ
      → CreateUserRequest
      → String
      → Option String
      → Option String
      → Db
      → Result CreateUserResult × Db
  run link draws now request name none operation_id d = (err entropy_failed, d)
  run link draws now request name (some user_id) none d = (err entropy_failed, d)
  run link draws now request name (some user_id) (some operation_id) d =
      transact link
        (create_body draws now request.admin_id name request.idempotency_key user_id operation_id) d

  -- `Create`
  pub create : Link → Draws → ℕ → CreateUserRequest → Db → Result CreateUserResult × Db
  create link draws now request d =
      let name = trim_space request.name in
      if is_valid_request request name
      then run link draws now request name draws.user_id draws.operation_id d
      else (err invalid_argument, d)
