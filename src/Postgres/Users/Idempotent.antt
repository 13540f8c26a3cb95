-- ===== src/Postgres/Users/Idempotent.antt =====
-- The same request again gives the same user, and changes nothing.
use ez_vpn_lego.Prelude.{
  ◌≡◌, refl, ◌⊎◌, inl, inr, ℕ, String, Bool, true, false, ◌&&◌, Option, none, some, arith, ◌==◌,
  string_eq, if◌then◌else◌, eq_self, eq_sound, and_true, sym,
}
use mathlib.Core.Path.{subst}
use ez_vpn_lego.Core.Model.{Admin}
use ez_vpn_lego.Store.Table.{find, exists, insert, find-insert, find-update}
use ez_vpn_lego.Store.Rows.{Db, UserRow, Operation}
use ez_vpn_lego.Store.Tx.{
  no_rows, unauthorized_actor, idempotency_conflict, Result, ok, err, Tx, pure, on_no_rows, Link,
}
use ez_vpn_lego.Prelude.Text.{trim_space}
use ez_vpn_lego.Prelude.{Bool-cases}
use ez_vpn_lego.Store.Tx.Laws.{IsUp, transact_ok, transact-IsUp, >>=-eq-ok, require_ok, or_fail_ok}
use ez_vpn_lego.Store.Queries.Admins.{get_active_admin, is_active_admin}
use ez_vpn_lego.Store.Queries.Operations.{
  create_operation, get_operation, has_key, within, can_complete, completed,
}
use ez_vpn_lego.Store.Queries.Users.{get_user, is_user, new_user}
use ez_vpn_lego.Postgres.Users.{
  CreateUserRequest, CreateUserResult, Draws, map_user, decode_input, replay_existing,
  user_operation, create_row, created_or_replayed, store, create_body, is_valid_request, run,
  create,
}
use ez_vpn_lego.Postgres.Users.Replay.{IsStored}
use ez_vpn_lego.Store.Table.{exists-weaken}
use ez_vpn_lego.Postgres.Users.Replay.{body_again}
use ez_vpn_lego.Postgres.Users.Created.{
  IsCreated, get_active_admin_ok, create_operation_ok, create_operation_no_rows, create_row_ok,
}

store_cases :
    (replay : Tx CreateUserResult) (create' : Operation → Tx CreateUserResult)
    (x : Result (Operation × Db)) (d : Db) (r : CreateUserResult) (d' : Db)
    → created_or_replayed replay create' x d ≡ ok (r, d')
    → ((op : Operation) × (d1 : Db) × (x ≡ ok (op, d1)) × (create' op d1 ≡ ok (r, d')))
      ⊎ ((x ≡ err no_rows) × (replay d ≡ ok (r, d')))
store_cases replay create' (ok (op, d1)) d r d' h = inl (op, d1, refl, h)
store_cases replay create' (err no_rows) d r d' h = inr (refl, h)
store_cases replay create' (err _) d r d' h = cc

replay_end :
    (op : Operation) (row : UserRow) (d : Db) (r : CreateUserResult) (d' : Db)
    → pure (record { operation_id = op.id; user = map_user row; replayed = true }) d ≡ ok (r, d')
    → (op.id ≡ r.operation_id) × (map_user row ≡ r.user) × (d' ≡ d)
replay_end op row d r d' h = (cc, cc, cc)

replay_existing_ok :
    (is_uuid : String → Bool) (admin_id name key : String) (d : Db) (r : CreateUserResult) (d' : Db)
    → replay_existing is_uuid admin_id name key d ≡ ok (r, d')
    → (op : Operation) × (row : UserRow) × (find (has_key admin_id key) d.operations ≡ some op)
      × ((op.kind == "user.create" && (decode_input op.input).1 == name) ≡ true)
      × (find (is_user (decode_input op.input).0) d.users ≡ some row)
      × (op.id ≡ r.operation_id)
      × (map_user row ≡ r.user)
      × (d' ≡ d)
unfolding replay_existing get_operation get_user
replay_existing_ok is_uuid admin_id name key d r d' h =
    let (op, found, k1) = or_fail_ok (find (has_key admin_id key) d.operations) no_rows _ h in
    let (test, k2) =
      require_ok (op.kind == "user.create" && (decode_input op.input).1 == name)
        idempotency_conflict _ k1 in
    let (row, made, k3) =
      or_fail_ok (find (is_user (decode_input op.input).0) d.users) no_rows _ k2 in
    let (same_id, same_user, same) = replay_end op row d r d' k3 in
    (op, row, found, test, made, same_id, same_user, same)

module _ (is_uuid : String → Bool) (admin_id name key u o : String) (now : ℕ) where
  abbrev first_row : UserRow
  first_row = new_user u name now

  abbrev first_operation : Operation
  first_operation = user_operation o admin_id key u name

  -- The operation as it stands after `CompleteOperation`.
  abbrev stored_operation : Operation
  stored_operation =
      if can_complete o first_operation then completed first_operation else first_operation

  has_key_self : has_key admin_id key first_operation ≡ true
  has_key_self = rw (eq_self admin_id) (rw (eq_self key))

  is_user_self : is_user u first_row ≡ true
  is_user_self = rw (eq_self u)

  user_named : (decode_input stored_operation.input).0 ≡ u
  user_named = ground arith

  created-IsStored :
      (a : Admin) (r : CreateUserResult) (d d1 d' : Db)
      → is_uuid admin_id ≡ true
      → find (is_active_admin admin_id) d.admins ≡ some a
      → within 16 128 key ≡ true
      → exists (has_key admin_id key) d.operations ≡ false
      → d1 ≡ record d { operations = insert first_operation d.operations }
      → exists (λ v. v.id == u) d1.users ≡ false
      → IsCreated first_operation first_row r d1 d'
      → IsStored is_uuid admin_id name key d' r.operation_id r.user
  created-IsStored a r d d1 d' valid active keyed unused step fresh made = record {
    admin = a;
    operation = stored_operation;
    row = first_row;
    valid = valid;
    active = rw (made.admins, step) active;
    keyed = keyed;
    found =
        rw (made.operations, step)
          (rw (find-update (has_key admin_id key) (can_complete o) completed _ (λ op. refl)) (
            rw (
              find-insert (has_key admin_id key) first_operation d.operations unused
                has_key_self)));
    kind = ground arith;
    named = ground arith;
    made =
        rw (made.users, user_named)
          (find-insert (is_user u) first_row d1.users
            (exists-weaken (is_user u) (λ v. v.id == u) d1.users
              (λ v h. (and_true (v.id == u) _ h).0) fresh)
            is_user_self);
    same_id = ground (arith, made.operation_id);
    same_user = sym made.user;
  }

module _ (is_uuid : String → Bool) (draws : Draws) (now : ℕ) (admin_id name key u o : String) where
  replayed-IsStored :
      (a : Admin) (r : CreateUserResult) (d d' : Db)
      → is_uuid admin_id ≡ true
      → find (is_active_admin admin_id) d.admins ≡ some a
      → within 16 128 key ≡ true
      → replay_existing is_uuid admin_id name key d ≡ ok (r, d')
      → IsStored is_uuid admin_id name key d' r.operation_id r.user
  replayed-IsStored a r d d' valid active keyed h =
      let (op, row, found, test, made, same_id, same_user, same) =
        replay_existing_ok is_uuid admin_id name key d r d' h in
      let (kind, named) =
        and_true (op.kind == "user.create") ((decode_input op.input).1 == name) test in
      record {
        admin = a;
        operation = op;
        row = row;
        valid = valid;
        active =
            subst (λ (e : Db). find (is_active_admin admin_id) e.admins ≡ some a) (sym same) active;
        keyed = keyed;
        found =
            subst (λ (e : Db). find (has_key admin_id key) e.operations ≡ some op) (sym same) found;
        kind = eq_sound op.kind "user.create" kind;
        named = eq_sound (decode_input op.input).1 name named;
        made =
            subst (λ (e : Db). find (is_user (decode_input op.input).0) e.users ≡ some row)
              (sym same) made;
        same_id = same_id;
        same_user = same_user;
      }

  body-IsStored :
      (d : Db) (r : CreateUserResult) (d' : Db)
      → create_body is_uuid draws now admin_id name key u o d ≡ ok (r, d')
      → IsStored is_uuid admin_id name key d' r.operation_id r.user
  unfolding create_body store
  body-IsStored d r d' h =
      let op = user_operation o admin_id key u name in
      let (a, d1, h1, k1) =
        >>=-eq-ok (on_no_rows unauthorized_actor (get_active_admin is_uuid admin_id)) _ h in
      let (valid, active, same) = get_active_admin_ok is_uuid admin_id d a d1 h1 in
      let active' =
        subst (λ (e : Db). find (is_active_admin admin_id) e.admins ≡ some a) (sym same) active in
      elim (store_cases (replay_existing is_uuid admin_id name key)
        (create_row is_uuid draws now admin_id name u) (create_operation op d1) d1 r d' k1) [
          | inl (op', d2, h2, k2) ↦ created a r d1 d2 d' valid active' op' h2 k2
          | inr (h2, k2) ↦
              replayed-IsStored a r d1 d' valid active' (create_operation_no_rows op d1 h2) k2
        ]
    where
      created :
          (a : Admin) (r : CreateUserResult) (d1 d2 d' : Db)
          → is_uuid admin_id ≡ true
          → find (is_active_admin admin_id) d1.admins ≡ some a
          → (op' : Operation)
          → create_operation (user_operation o admin_id key u name) d1 ≡ ok (op', d2)
          → create_row is_uuid draws now admin_id name u op' d2 ≡ ok (r, d')
          → IsStored is_uuid admin_id name key d' r.operation_id r.user
      created a r d1 d2 d' valid active op' h k =
          let (same, step, keyed, unused) =
            create_operation_ok (user_operation o admin_id key u name) d1 op' d2 h in
          let (made, fresh) =
            create_row_ok is_uuid draws now admin_id name u (user_operation o admin_id key u name)
              d2 r d' (rw same at k) in
          created-IsStored is_uuid admin_id name key u o now a r d1 d2 d' valid active keyed unused
            step fresh made

module _ (is_uuid : String → Bool) (request : CreateUserRequest) where
  abbrev name : String
  name = trim_space request.name

  module _ (link : Link) (draws : Draws) (now : ℕ) (d : Db) (r : CreateUserResult) (d' : Db) where
    run-IsStored :
        (user_id operation_id : Option String)
        → run is_uuid link draws now request name user_id operation_id d ≡ (ok r, d')
        → IsStored is_uuid request.admin_id name request.idempotency_key d' r.operation_id r.user
    run-IsStored none operation_id h = absurd (ground (arith, h))
    run-IsStored (some u) none h = absurd (ground (arith, h))
    run-IsStored (some u) (some o) h =
        body-IsStored is_uuid draws now request.admin_id name request.idempotency_key u o d r d' (
          transact_ok link
            (create_body is_uuid draws now request.admin_id name request.idempotency_key u o) d r d'
            h)

    create-IsStored :
        create is_uuid link draws now request d ≡ (ok r, d')
        → (is_valid_request is_uuid request name ≡ true)
          × IsStored is_uuid request.admin_id name request.idempotency_key d' r.operation_id r.user
    unfolding create
    create-IsStored h = elim (Bool-cases (is_valid_request is_uuid request name)) [
      | inl valid ↦ (valid, run-IsStored draws.user_id draws.operation_id (rw valid at h))
      | inr invalid ↦ absurd (ground (arith, h, invalid))
    ]

  run_again :
      (link : Link) (draws : Draws) (now : ℕ) (d : Db) (r : CreateUserResult) (u o : String)
      (user_id operation_id : Option String)
      → IsStored is_uuid request.admin_id name request.idempotency_key d r.operation_id r.user
      → IsUp link
      → user_id ≡ some u
      → operation_id ≡ some o
      → run is_uuid link draws now request name user_id operation_id d
        ≡ (ok (record r { replayed = true }), d)
  run_again link draws now d r u o user_id operation_id stored up p q =
      rw (p, q)
        (transact-IsUp link
          (create_body is_uuid draws now request.admin_id name request.idempotency_key u o) d
          (record r { replayed = true }) d up
          (body_again is_uuid request.admin_id name request.idempotency_key draws now u o stored))

  -- A request to create a user that is sent again with the same idempotency key, after one that
  -- succeeded and over a link that holds, returns the same operation and user, is marked as
  -- replayed and leaves the database as it is, whatever UUIDs are drawn and whatever the time.
  pub create_again :
      (link link' : Link) (draws draws' : Draws) (now now' : ℕ) (d : Db) (r : CreateUserResult)
      (d' : Db) (u o : String)
      → create is_uuid link draws now request d ≡ (ok r, d')
      → IsUp link'
      → draws'.user_id ≡ some u
      → draws'.operation_id ≡ some o
      → create is_uuid link' draws' now' request d' ≡ (ok (record r { replayed = true }), d')
  unfolding create
  create_again link link' draws draws' now now' d r d' u o h up drawn_u drawn_o =
      let (valid, stored) = create-IsStored link draws now d r d' h in
      rw valid (
        run_again link' draws' now' d' r u o draws'.user_id draws'.operation_id stored up drawn_u
          drawn_o)
