-- ===== src/Postgres/Access.antt =====
-- adapters/postgres/access.go
pub mod Stored
use ez_vpn_lego.Prelude.{ℕ, String, Bool, none, some, List, map, if◌then◌else◌}
use ez_vpn_lego.Core.Status.{running}
use ez_vpn_lego.Store.Rows.{Db, Operation, create_access_input}
use ez_vpn_lego.Store.Tx.{Result, Tx, ◌>>=◌, ◌>>◌, pure, Link, transact}
use ez_vpn_lego.Store.Queries.Admins.{get_active_admin}
use ez_vpn_lego.Store.Queries.Events.{create_audit_event}
use ez_vpn_lego.Store.Queries.Operations.{create_operation, complete_operation, fail_operation}
use ez_vpn_lego.Store.Queries.Users.{create_user}
use ez_vpn_lego.Store.Queries.Vpn.{
  create_device, create_credential, create_revision, activate_device, activate_credential,
  verify_revision, fail_revision, supersede_revisions, get_instance, list_credentials,
  CredentialRow,
}

pub record EncryptedCredential : Type 0 where
  pub id : String
  pub name : String
  pub secret : List ℕ

pub record AccessState : Type 0 where
  pub instance_id : String
  pub node_id : String
  pub public_address : String
  pub instance_settings : List ℕ
  pub credentials : List EncryptedCredential

pub record StageAccessParams : Type 0 where
  pub admin_id : String
  pub idempotency_key : String
  pub name : String
  pub operation_id : String
  pub user_id : String
  pub device_id : String
  pub credential_id : String
  pub node_id : String
  pub revision_id : String
  pub driver : String
  pub revision_hash : String
  pub credential_secret : List ℕ
  pub revision_content : List ℕ

pub record FinalizeAccessParams : Type 0 where
  pub admin_id : String
  pub operation_id : String
  pub user_id : String
  pub device_id : String
  pub credential_id : String
  pub node_id : String
  pub revision_id : String

abbrev pub encrypted : CredentialRow → EncryptedCredential
encrypted row = record { id = row.id; name = row.name; secret = row.secret }

-- `AccessRepository.Load`: two reads, with no transaction around them.
unfoldable pub load : Tx AccessState
load = do
  instance' ← get_instance
  rows ← list_credentials instance'.node_id
  pure (record {
    instance_id = instance'.id;
    node_id = instance'.node_id;
    public_address = instance'.public_address;
    instance_settings = instance'.settings;
    credentials = map encrypted rows;
  })

module _ (is_uuid : String → Bool) where
  abbrev pub access_operation : StageAccessParams → Operation
  access_operation input = record {
    id = input.operation_id;
    kind = "access.create";
    status = running;
    requested_by = input.admin_id;
    idempotency_key = input.idempotency_key;
    input = create_access_input input.name;
    error_code = none;
  }

  unfoldable pub stage_body : ℕ → StageAccessParams → Tx (Unit {0})
  stage_body now input = do
    admin ← get_active_admin is_uuid input.admin_id
    operation ← create_operation (access_operation input)
    user ← create_user input.user_id input.name now
    create_device input.device_id input.user_id input.name
    create_credential input.credential_id input.device_id input.node_id input.driver 1
        input.credential_secret
    create_revision input.revision_id input.node_id input.revision_hash input.revision_content

  -- `AccessRepository.Stage`
  unfoldable pub stage : Link → ℕ → StageAccessParams → Db → Result (Unit {0}) × Db
  stage link now input = transact link (stage_body now input)

  unfoldable pub finalize_body : FinalizeAccessParams → Tx (Unit {0})
  finalize_body input = do
    supersede_revisions input.node_id
    activate_device input.device_id
    activate_credential input.credential_id
    verify_revision input.revision_id
    operation ← complete_operation input.operation_id
    create_audit_event (record {
      id = input.operation_id;
      actor_admin_id = if is_uuid input.admin_id then some input.admin_id else none;
      action = "access.create";
      resource_type = "user";
      resource_id = input.user_id;
    })

  -- `AccessRepository.Finalize`
  unfoldable pub finalize : Link → FinalizeAccessParams → Db → Result (Unit {0}) × Db
  finalize link input = transact link (finalize_body input)

unfoldable pub fail_body : String → String → String → Tx (Unit {0})
fail_body operation_id revision_id code = do
  fail_revision revision_id
  fail_operation operation_id code

-- `AccessRepository.Fail`
unfoldable pub fail : Link → String → String → String → Db → Result (Unit {0}) × Db
fail link operation_id revision_id code = transact link (fail_body operation_id revision_id code)
