-- ===== src/Postgres/Vpn/Blocked.antt =====
-- A bootstrap that failed stands in the way of the next one.
use ez_vpn_lego.Prelude.{
  ◌≡◌, ℕ, ◌<◌, String, Bool, true, false, some, List, [], ◌∷◌, arith, length, length-append, ◌==◌,
  nat_eq,
}
use ez_vpn_lego.Core.Model.{Admin}
use ez_vpn_lego.Store.Table.{find, insert}
use ez_vpn_lego.Store.Rows.{Db, Operation, UserRow, Node}
use ez_vpn_lego.Store.Tx.{
  unauthorized_actor, vpn_already_bootstrapped, ok, err, on_no_rows, Link, transact,
}
use ez_vpn_lego.Store.Tx.Laws.{>>=-eq-ok, require_ok, transact_ok}
use ez_vpn_lego.Store.Queries.Admins.{get_active_admin, is_active_admin}
use ez_vpn_lego.Store.Queries.Operations.{create_operation, fail_operation}
use ez_vpn_lego.Store.Queries.Users.{create_user}
use ez_vpn_lego.Store.Queries.Vpn.{
  count_nodes, create_node, new_node, create_device, create_instance, create_credential,
  create_revision, fail_revision,
}
use ez_vpn_lego.Postgres.Vpn.{
  StageVpnParams, bootstrap_operation, stage_rows, stage_body, stage, fail_body, fail,
}

module _ (d d' : Db) where
  create_operation-nodes :
      (o o' : Operation) → create_operation o d ≡ ok (o', d') → d'.nodes ≡ d.nodes
  unfolding create_operation
  create_operation-nodes o o' h = ground arith

  create_user-nodes :
      (id name : String) (now : ℕ) (u : UserRow)
      → create_user id name now d ≡ ok (u, d')
      → d'.nodes ≡ d.nodes
  unfolding create_user
  create_user-nodes id name now u h = ground arith

  create_device-nodes :
      (id user_id name : String)
      → create_device id user_id name d ≡ ok (tt, d')
      → d'.nodes ≡ d.nodes
  unfolding create_device
  create_device-nodes id user_id name h = ground arith

  create_node-nodes :
      (id name address : String)
      → create_node id name address d ≡ ok (tt, d')
      → d'.nodes ≡ insert (new_node id name address) d.nodes
  unfolding create_node
  create_node-nodes id name address h = ground arith

  create_instance-nodes :
      (id node_id driver : String) (version : ℕ) (settings : List ℕ)
      → create_instance id node_id driver version settings d ≡ ok (tt, d')
      → d'.nodes ≡ d.nodes
  unfolding create_instance
  create_instance-nodes id node_id driver version settings h = ground arith

  create_credential-nodes :
      (id device_id node_id driver : String) (version : ℕ) (secret : List ℕ)
      → create_credential id device_id node_id driver version secret d ≡ ok (tt, d')
      → d'.nodes ≡ d.nodes
  unfolding create_credential
  create_credential-nodes id device_id node_id driver version secret h = ground arith

  create_revision-nodes :
      (id node_id hash : String) (content : List ℕ)
      → create_revision id node_id hash content d ≡ ok (tt, d')
      → d'.nodes ≡ d.nodes
  unfolding create_revision
  create_revision-nodes id node_id hash content h = ground arith

chain :
    {d0 d1 d2 d3 d4 d5 d6 d7 : List Node} (n : Node)
    → d1 ≡ d0
    → d2 ≡ d1
    → d3 ≡ d2
    → d4 ≡ insert n d3
    → d5 ≡ d4
    → d6 ≡ d5
    → d7 ≡ d6
    → d7 ≡ insert n d0
chain n a b c e f g h = cc

count_eq_zero : (n : ℕ) → 0 < n → (n == 0) ≡ false
count_eq_zero n h = ground arith

module _ (is_uuid : String → Bool) (now : ℕ) (input : StageVpnParams) where
  abbrev staged_node : Node
  staged_node = new_node input.node_id "local" input.public_address

  stage_rows-nodes :
      (d d' : Db)
      → stage_rows is_uuid now input d ≡ ok (tt, d')
      → d'.nodes ≡ insert staged_node d.nodes
  unfolding stage_rows
  stage_rows-nodes d d' h =
      let (valid, k) = require_ok (is_uuid input.admin_id) _ _ h in
      let (op, d1, h1, k1) = >>=-eq-ok (create_operation (bootstrap_operation is_uuid input)) _ k in
      let (user, d2, h2, k2) = >>=-eq-ok (create_user input.user_id "Owner" now) _ k1 in
      let (u3, d3, h3, k3) =
        >>=-eq-ok (create_device input.device_id input.user_id "Owner device") _ k2 in
      let (u4, d4, h4, k4) =
        >>=-eq-ok (create_node input.node_id "local" input.public_address) _ k3 in
      let (u5, d5, h5, k5) =
        >>=-eq-ok
          (create_instance input.instance_id input.node_id input.driver 1 input.instance_settings) _
          k4 in
      let (u6, d6, h6, k6) =
        >>=-eq-ok
          (create_credential input.credential_id input.device_id input.node_id input.driver 1
            input.credential_secret)
          _ k5 in
      chain staged_node (create_operation-nodes d d1 (bootstrap_operation is_uuid input) op h1)
        (create_user-nodes d1 d2 input.user_id "Owner" now user h2)
        (create_device-nodes d2 d3 input.device_id input.user_id "Owner device" h3)
        (create_node-nodes d3 d4 input.node_id "local" input.public_address h4)
        (create_instance-nodes d4 d5 input.instance_id input.node_id input.driver 1
          input.instance_settings h5)
        (create_credential-nodes d5 d6 input.credential_id input.device_id input.node_id
          input.driver 1 input.credential_secret h6)
        (create_revision-nodes d6 d' input.revision_id input.node_id input.revision_hash
          input.revision_content k6)

  stage_body-nodes :
      (d d' : Db) → stage_body is_uuid now input d ≡ ok (tt, d') → 0 < length d'.nodes
  unfolding stage_body count_nodes
  stage_body-nodes d d' h =
      let (a, d1, h1, k1) =
        >>=-eq-ok (on_no_rows unauthorized_actor (get_active_admin is_uuid input.admin_id)) _ h in
      let (none_yet, k2) =
        require_ok (length d1.nodes == 0) vpn_already_bootstrapped (stage_rows is_uuid now input)
          k1 in
      rw (stage_rows-nodes d1 d' k2) (omega (arith, length-append d1.nodes (staged_node ∷ [])))

  stage_body_refused :
      (e : Db) (a : Admin)
      → is_uuid input.admin_id ≡ true
      → find (is_active_admin input.admin_id) e.admins ≡ some a
      → 0 < length e.nodes
      → stage_body is_uuid now input e ≡ err vpn_already_bootstrapped
  unfolding stage_body count_nodes get_active_admin
  stage_body_refused e a valid active some_node =
      rw (valid, active, count_eq_zero (length e.nodes) some_node)

fail-nodes :
    (link : Link) (operation_id revision_id code : String) (d : Db)
    → (fail link operation_id revision_id code d).1.nodes ≡ d.nodes
unfolding fail fail_body fail_revision fail_operation
fail-nodes link operation_id revision_id code d = ground arith

module _ (is_uuid : String → Bool) (now now' : ℕ) (input input' : StageVpnParams)
    (link link' link'' : Link) (d d' : Db) (code : String) (a : Admin) where
  -- Once a `Stage` has succeeded, then after a `Fail` on its operation and revision, whether that
  -- goes through or not, a `Stage` by an administrator who is active then and whose ID is a UUID,
  -- over a link that lets it begin, is refused with `ErrVPNAlreadyBootstrapped` and changes nothing.
  pub stage-fail_blocks :
      stage is_uuid link now input d ≡ (ok tt, d')
      → is_uuid input'.admin_id ≡ true
      → link''.begin_fails ≡ false
      → find
          (is_active_admin input'.admin_id)
          (fail link' input.operation_id input.revision_id code d').1.admins
        ≡ some a
      → stage is_uuid link'' now' input' (fail link' input.operation_id input.revision_id code d').1
        ≡ (
          err vpn_already_bootstrapped,
          (fail link' input.operation_id input.revision_id code d').1,
        )
  unfolding stage
  stage-fail_blocks h valid up active =
      refuse (fail link' input.operation_id input.revision_id code d').1
        (rw fail-nodes (
          stage_body-nodes is_uuid now input d d'
            (transact_ok link (stage_body is_uuid now input) d tt d' h)))
        active
    where
      refuse :
          (e : Db)
          → 0 < length e.nodes
          → find (is_active_admin input'.admin_id) e.admins ≡ some a
          → transact link'' (stage_body is_uuid now' input') e ≡ (err vpn_already_bootstrapped, e)
      refuse e some_node active =
          rw (up, stage_body_refused is_uuid now' input' e a valid active some_node)
