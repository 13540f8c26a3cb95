-- ===== src/Postgres/Users/Replay.antt =====
-- A request that is sent again finds what the first one made.
use ez_vpn_lego.Prelude.{◌≡◌, ℕ, String, Bool, true, ◌&&◌, some, ◌==◌, string_eq, eq_self}
use ez_vpn_lego.Core.Model.{Admin, User}
use ez_vpn_lego.Store.Table.{find, exists, exists-find}
use ez_vpn_lego.Store.Rows.{Db, UserRow, Operation}
use ez_vpn_lego.Store.Tx.{no_rows, ok, err}
use ez_vpn_lego.Store.Queries.Admins.{get_active_admin, is_active_admin}
use ez_vpn_lego.Store.Queries.Operations.{create_operation, get_operation, has_key, within}
use ez_vpn_lego.Store.Queries.Users.{get_user, is_user}
use ez_vpn_lego.Postgres.Users.{
  Draws, map_user, decode_input, replay_existing, user_operation, store, create_body,
}

module _ (is_uuid : String → Bool) (admin_id name key : String) where
  -- The database holds the operation of the key, and the user that it made.
  pub record IsStored (d : Db) (operation_id : String) (user : User) : Type 0 where
    pub admin : Admin
    pub operation : Operation
    pub row : UserRow
    pub valid : is_uuid admin_id ≡ true
    pub active : find (is_active_admin admin_id) d.admins ≡ some admin
    pub keyed : within 16 128 key ≡ true
    pub found : find (has_key admin_id key) d.operations ≡ some operation
    pub kind : operation.kind ≡ "user.create"
    pub named : (decode_input operation.input).1 ≡ name
    pub made : find (is_user (decode_input operation.input).0) d.users ≡ some row
    pub same_id : operation.id ≡ operation_id
    pub same_user : map_user row ≡ user

  get_active_admin_lem :
      (d : Db) (a : Admin)
      → is_uuid admin_id ≡ true
      → find (is_active_admin admin_id) d.admins ≡ some a
      → get_active_admin is_uuid admin_id d ≡ ok (a, d)
  unfolding get_active_admin
  get_active_admin_lem d a h k = rw (h, k)

  create_operation_again :
      (d : Db) (user_id operation_id : String)
      → within 16 128 key ≡ true
      → exists (has_key admin_id key) d.operations ≡ true
      → create_operation (user_operation operation_id admin_id key user_id name) d ≡ err no_rows
  unfolding create_operation
  create_operation_again d user_id operation_id h k = rw (h, k)

  test_passes :
      (o : Operation)
      → o.kind ≡ "user.create"
      → (decode_input o.input).1 ≡ name
      → (o.kind == "user.create" && (decode_input o.input).1 == name) ≡ true
  test_passes o h k =
      rw (h, k) (let kind : String = "user.create" in rw (eq_self name) (rw (eq_self kind)))

  replay_lem :
      {d : Db} {operation_id : String} {user : User}
      → IsStored d operation_id user
      → replay_existing is_uuid admin_id name key d
        ≡ ok (record { operation_id = operation_id; user = user; replayed = true }, d)
  unfolding replay_existing get_operation get_user
  replay_lem {d} {operation_id} {user} s =
      rw s.found
        (rw (test_passes s.operation s.kind s.named) (rw s.made (cc (s.same_id, s.same_user))))

  -- A request that is valid and stored is answered from the database, and changes nothing.
  pub body_again :
      {d : Db} {operation_id : String} {user : User} (draws : Draws) (now : ℕ) (u o : String)
      → IsStored d operation_id user
      → create_body is_uuid draws now admin_id name key u o d
        ≡ ok (record { operation_id = operation_id; user = user; replayed = true }, d)
  unfolding create_body store
  body_again {d} {operation_id} {user} draws now u o s =
      rw (get_active_admin_lem d s.admin s.valid s.active) (
        rw (create_operation_again d u o s.keyed (exists-find _ d.operations s.operation s.found))
          (replay_lem s))
