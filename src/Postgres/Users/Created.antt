-- ===== src/Postgres/Users/Created.antt =====
-- What a creation that succeeds leaves in the database.
use ez_vpn_lego.Prelude.{◌≡◌, ℕ, String, Bool, true, false, some, arith, ◌==◌, string_eq}
use ez_vpn_lego.Core.Model.{Admin}
use ez_vpn_lego.Store.Table.{find, exists, insert, update}
use ez_vpn_lego.Store.Rows.{Db, UserRow, Operation}
use ez_vpn_lego.Store.Tx.{no_rows, unauthorized_actor, ok, err, pure, on_no_rows}
use ez_vpn_lego.Store.Tx.Laws.{>>=-eq-ok}
use ez_vpn_lego.Store.Queries.Admins.{get_active_admin, is_active_admin}
use ez_vpn_lego.Store.Queries.Events.{create_audit_event, create_outbox_event}
use ez_vpn_lego.Store.Queries.Operations.{
  create_operation, complete_operation, has_key, within, can_complete, completed,
}
use ez_vpn_lego.Store.Queries.Users.{create_user, new_user}
use ez_vpn_lego.Postgres.Users.{CreateUserResult, Draws, map_user, record_creation, create_row}

pub get_active_admin_ok :
    (is_uuid : String → Bool) (id : String) (d : Db) (a : Admin) (d' : Db)
    → on_no_rows unauthorized_actor (get_active_admin is_uuid id) d ≡ ok (a, d')
    → (is_uuid id ≡ true) × (find (is_active_admin id) d.admins ≡ some a) × (d' ≡ d)
unfolding get_active_admin
get_active_admin_ok is_uuid id d a d' h = ground arith

pub create_operation_ok :
    (o : Operation) (d : Db) (o' : Operation) (d' : Db)
    → create_operation o d ≡ ok (o', d')
    → (o' ≡ o)
      × (d' ≡ record d { operations = insert o d.operations })
      × (within 16 128 o.idempotency_key ≡ true)
      × (exists (has_key o.requested_by o.idempotency_key) d.operations ≡ false)
unfolding create_operation
create_operation_ok o d o' d' h = ground arith

pub create_operation_no_rows :
    (o : Operation) (d : Db)
    → create_operation o d ≡ err no_rows
    → within 16 128 o.idempotency_key ≡ true
unfolding create_operation
create_operation_no_rows o d h = ground arith

create_user_ok :
    (id name : String) (now : ℕ) (d : Db) (row : UserRow) (d' : Db)
    → create_user id name now d ≡ ok (row, d')
    → (row ≡ new_user id name now)
      × (d' ≡ record d { users = insert row d.users })
      × (exists (λ u. u.id == id) d.users ≡ false)
unfolding create_user
create_user_ok id name now d row d' h = ground arith

-- The tables that the replay reads.
abbrev SameTables : Db → Db → Type 0
SameTables d d' = (d'.admins ≡ d.admins) × (d'.users ≡ d.users) × (d'.operations ≡ d.operations)

record_creation_ok :
    (is_uuid : String → Bool) (draws : Draws) (admin_id user_id : String) (d d' : Db)
    → record_creation is_uuid draws admin_id user_id d ≡ ok (tt, d')
    → SameTables d d'
unfolding record_creation create_audit_event create_outbox_event
record_creation_ok is_uuid draws admin_id user_id d d' h = ground arith

complete_operation_ok :
    (id : String) (d : Db) (o : Operation) (d' : Db)
    → complete_operation id d ≡ ok (o, d')
    → d' ≡ record d { operations = update (can_complete id) completed d.operations }
unfolding complete_operation
complete_operation_ok id d o d' h = ground arith

-- What `create_row` changes, of the tables that the replay reads.
pub record IsCreated (op : Operation) (row : UserRow) (r : CreateUserResult) (d d' : Db)
    : Type 0 where
  pub user : r.user ≡ map_user row
  pub operation_id : r.operation_id ≡ op.id
  pub admins : d'.admins ≡ d.admins
  pub users : d'.users ≡ insert row d.users
  pub operations : d'.operations ≡ update (can_complete op.id) completed d.operations

assemble :
    (op : Operation) (row row' : UserRow) (r : CreateUserResult) (d d1 d2 d3 d' : Db)
    → row' ≡ row
    → d1 ≡ record d { users = insert row' d.users }
    → SameTables d1 d2
    → d3 ≡ record d2 { operations = update (can_complete op.id) completed d2.operations }
    → pure (record { operation_id = op.id; user = map_user row'; replayed = false }) d3 ≡ ok (r, d')
    → IsCreated op row r d d'
assemble op row row' r d d1 d2 d3 d' e step same last h = record {
  user = cc;
  operation_id = cc;
  admins = cc;
  users = cc;
  operations = cc;
}

module _ (is_uuid : String → Bool) (draws : Draws) (now : ℕ) (admin_id name u : String) where
  pub create_row_ok :
      (op : Operation) (d : Db) (r : CreateUserResult) (d' : Db)
      → create_row is_uuid draws now admin_id name u op d ≡ ok (r, d')
      → IsCreated op (new_user u name now) r d d' × (exists (λ v. v.id == u) d.users ≡ false)
  unfolding create_row
  create_row_ok op d r d' h =
      let (row, d1, h1, k1) = >>=-eq-ok (create_user u name now) _ h in
      let (same, step, fresh) = create_user_ok u name now d row d1 h1 in
      let (done, d2, h2, k2) = >>=-eq-ok (record_creation is_uuid draws admin_id u) _ k1 in
      let (o', d3, h3, k3) = >>=-eq-ok (complete_operation op.id) _ k2 in
      (
        assemble op (new_user u name now) row r d d1 d2 d3 d' same step
            (record_creation_ok is_uuid draws admin_id u d1 d2 h2)
            (complete_operation_ok op.id d2 o' d3 h3) k3,
        fresh,
      )
