-- ===== src/Postgres/Users/Tests.antt =====
-- `UserRepository.Create` at concrete data.
use ez_vpn_lego.Prelude.{
  ◌≡◌, refl, String, Bool, true, false, none, some, [], ◌∷◌, string_eq, nat_eq,
}
use ez_vpn_lego.Prelude.Text.{byte_length, trim_space}
use ez_vpn_lego.Core.Status.{active, status_eq, lifecycle_eq}
use ez_vpn_lego.Core.Model.{Admin, owner}
use ez_vpn_lego.Store.Rows.{Db, empty}
use ez_vpn_lego.Store.Table.{find, exists, update}
use ez_vpn_lego.Store.Tx.{Result, ok, Link, acknowledged}
use ez_vpn_lego.Store.Queries.Admins.{get_active_admin}
use ez_vpn_lego.Store.Queries.Events.{create_audit_event, create_outbox_event}
use ez_vpn_lego.Store.Queries.Operations.{create_operation, complete_operation, get_operation}
use ez_vpn_lego.Store.Queries.Users.{create_user, get_user}
use ez_vpn_lego.Postgres.Users.{
  CreateUserRequest, CreateUserResult, Draws, map_user, record_creation, replay_existing,
  create_row, store, create_body, is_valid_request, create,
}
use ez_vpn_lego.Postgres.Users.Idempotent.{create_again}

abbrev admin : Admin
admin = record { id = "a"; role = owner; status = active; created_at = 1; updated_at = 1 }

abbrev start : Db
start = record empty { admins = admin ∷ [] }

abbrev up : Link
up = record { begin_fails = false; commit_fate = acknowledged }

abbrev draws : Draws
draws = record {
  user_id = some "u";
  operation_id = some "o";
  audit_id = some "e";
  outbox_id = some "x";
}

abbrev later : Draws
later = record { user_id = some "u2"; operation_id = some "o2"; audit_id = none; outbox_id = none }

abbrev request : CreateUserRequest
request = record { admin_id = "a"; name = " Anna "; idempotency_key = "0123456789abcdef" }

abbrev any : String → Bool
any s = true

run : Draws → Db → Result CreateUserResult × Db
unfolding create is_valid_request create_body store create_row record_creation replay_existing
    map_user create_user get_user create_operation complete_operation get_operation
    create_audit_event create_outbox_event get_active_admin find exists update byte_length
    trim_space status_eq lifecycle_eq string_eq nat_eq
run d s = create any up d 5 request s

abbrev anna : CreateUserResult
anna = record {
  operation_id = "o";
  user = record { id = "u"; name = "Anna"; status = active; created_at = 5; updated_at = 5 };
  replayed = false;
}

first : (run draws start).0 ≡ ok anna
unfolding run
first = refl

create_again_example :
    create any up later 9 request (run draws start).1
    ≡ (ok (record anna { replayed = true }), (run draws start).1)
unfolding run
create_again_example =
    create_again any request up up draws later 5 9 start anna (run draws start).1 "u2" "o2" refl
      (record { begins = refl; commits = refl }) refl refl
