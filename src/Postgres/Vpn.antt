-- ===== src/Postgres/Vpn.antt =====
-- adapters/postgres/vpn.go
pub mod Atomic
pub mod Blocked
mod Tests
use ez_vpn_lego.Prelude.{ℕ, String, Bool, Option, none, some, List, ◌==◌, nat_eq, if◌then◌else◌}
use ez_vpn_lego.Core.Status.{running}
use ez_vpn_lego.Core.Model.{Admin}
use ez_vpn_lego.Store.Rows.{Db, Operation, bootstrap_vpn_input}
use ez_vpn_lego.Store.Tx.{
  Error, unauthorized_actor, vpn_already_bootstrapped, entropy_failed, invalid_uuid, Result, Tx,
  ◌>>=◌, ◌>>◌, require, or_fail, on_no_rows, Link, transact,
}
use ez_vpn_lego.Store.Queries.Admins.{get_active_admin}
use ez_vpn_lego.Store.Queries.Events.{create_audit_event, create_outbox_event}
use ez_vpn_lego.Store.Queries.Operations.{create_operation, complete_operation, fail_operation}
use ez_vpn_lego.Store.Queries.Users.{create_user}
use ez_vpn_lego.Store.Queries.Vpn.{
  count_nodes, create_node, create_device, create_instance, create_credential, create_revision,
  activate_node, activate_instances, activate_device, activate_credential, verify_revision,
  fail_revision,
}

pub record StageVpnParams : Type 0 where
  pub admin_id : String
  pub idempotency_key : String
  pub operation_id : String
  pub user_id : String
  pub device_id : String
  pub node_id : String
  pub instance_id : String
  pub credential_id : String
  pub revision_id : String
  pub public_address : String
  pub driver : String
  pub instance_settings : List ℕ
  pub credential_secret : List ℕ
  pub revision_content : List ℕ
  pub revision_hash : String

pub record FinalizeVpnParams : Type 0 where
  pub admin_id : String
  pub operation_id : String
  pub user_id : String
  pub device_id : String
  pub node_id : String
  pub credential_id : String
  pub revision_id : String

module _ (is_uuid : String → Bool) where
  abbrev pub bootstrap_operation : StageVpnParams → Operation
  bootstrap_operation input = record {
    id = input.operation_id;
    kind = "vpn.bootstrap";
    status = running;
    requested_by = input.admin_id;
    idempotency_key = input.idempotency_key;
    input = bootstrap_vpn_input;
    error_code = none;
  }

  -- The rows of `Stage`, in the order of the inserts.
  unfoldable pub stage_rows : ℕ → StageVpnParams → Tx (Unit {0})
  stage_rows now input = do
    require (is_uuid input.admin_id) invalid_uuid
    operation ← create_operation (bootstrap_operation input)
    user ← create_user input.user_id "Owner" now
    create_device input.device_id input.user_id "Owner device"
    create_node input.node_id "local" input.public_address
    create_instance input.instance_id input.node_id input.driver 1 input.instance_settings
    create_credential input.credential_id input.device_id input.node_id input.driver 1
        input.credential_secret
    create_revision input.revision_id input.node_id input.revision_hash input.revision_content

  unfoldable pub stage_body : ℕ → StageVpnParams → Tx (Unit {0})
  stage_body now input = do
    admin ← on_no_rows unauthorized_actor (get_active_admin is_uuid input.admin_id)
    count ← count_nodes
    require (count == 0) vpn_already_bootstrapped
    stage_rows now input

  -- `VPNRepository.Stage`
  unfoldable pub stage : Link → ℕ → StageVpnParams → Db → Result (Unit {0}) × Db
  stage link now input = transact link (stage_body now input)

  -- `recordBootstrapSuccess`; the draws are those of its two calls of `id.NewUUID`.
  unfoldable pub record_bootstrap_success :
      Option String → Option String → FinalizeVpnParams → Tx (Unit {0})
  record_bootstrap_success audit_draw outbox_draw input = do
    audit_id ← or_fail audit_draw entropy_failed
    outbox_id ← or_fail outbox_draw entropy_failed
    create_audit_event (record {
      id = audit_id;
      actor_admin_id = if is_uuid input.admin_id then some input.admin_id else none;
      action = "vpn.bootstrap";
      resource_type = "node";
      resource_id = input.node_id;
    })
    create_outbox_event (record {
      id = outbox_id;
      topic = "vpn.bootstrapped";
      aggregate_type = "node";
      aggregate_id = input.node_id;
    })

  unfoldable pub finalize_body : Option String → Option String → FinalizeVpnParams → Tx (Unit {0})
  finalize_body audit_draw outbox_draw input = do
    activate_node input.node_id
    activate_instances input.node_id
    activate_device input.device_id
    activate_credential input.credential_id
    verify_revision input.revision_id
    operation ← complete_operation input.operation_id
    record_bootstrap_success audit_draw outbox_draw input

  -- `VPNRepository.Finalize`
  unfoldable pub finalize :
      Link → Option String → Option String → FinalizeVpnParams → Db → Result (Unit {0}) × Db
  finalize link audit_draw outbox_draw input =
      transact link (finalize_body audit_draw outbox_draw input)

-- The body of `Fail`, which both repositories have.
unfoldable pub fail_body : String → String → String → Tx (Unit {0})
fail_body operation_id revision_id code = do
  fail_revision revision_id
  fail_operation operation_id code

-- `VPNRepository.Fail`
unfoldable pub fail : Link → String → String → String → Db → Result (Unit {0}) × Db
fail link operation_id revision_id code = transact link (fail_body operation_id revision_id code)
