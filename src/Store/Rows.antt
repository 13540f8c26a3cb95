-- ===== src/Store/Rows.antt =====
-- internal/dbgen/models.go: a record for each table, with the columns that some query reads or that
-- a constraint is on. An ID is the canonical text of a UUID; a time is a number of seconds.
use ez_vpn_lego.Prelude.{ℕ, String, Option, List, []}
use ez_vpn_lego.Core.Status.{LifecycleStatus, OperationStatus}
use ez_vpn_lego.Core.Model.{Admin}

pub record AdminIdentity : Type 0 where
  pub id : String
  pub admin_id : String
  pub provider : String
  pub subject : String

pub record AdminPairingToken : Type 0 where
  pub token_hash : List ℕ
  pub admin_id : String
  pub expires_at : ℕ
  pub consumed_at : Option ℕ

pub record UserRow : Type 0 where
  pub id : String
  pub name : String
  pub status : LifecycleStatus
  pub created_at : ℕ
  pub updated_at : ℕ
  pub deleted_at : Option ℕ

pub record Device : Type 0 where
  pub id : String
  pub user_id : String
  pub name : String
  pub status : LifecycleStatus
  pub deleted_at : Option ℕ

pub record Node : Type 0 where
  pub id : String
  pub name : String
  pub status : LifecycleStatus
  pub public_address : String

pub record ProtocolInstance : Type 0 where
  pub id : String
  pub node_id : String
  pub driver : String
  pub schema_version : ℕ
  pub status : LifecycleStatus
  pub settings : List ℕ

pub record Credential : Type 0 where
  pub id : String
  pub device_id : String
  pub node_id : String
  pub driver : String
  pub schema_version : ℕ
  pub status : LifecycleStatus
  pub secret : List ℕ

pub data RevisionState : Type 0 where
  candidate verified failed superseded : RevisionState

pub record ConfigRevision : Type 0 where
  pub id : String
  pub node_id : String
  pub state : RevisionState
  pub content_hash : String
  pub content : List ℕ

-- The JSON of `operations.input`: what `user.create` stores, and the requests that the other two
-- kinds store, with the name in the first.
pub data Input : Type 0 where
  create_user_input : (user_id name : String) → Input
  create_access_input : (name : String) → Input
  bootstrap_vpn_input : Input

pub record Operation : Type 0 where
  pub id : String
  pub kind : String
  pub status : OperationStatus
  pub requested_by : String
  pub idempotency_key : String
  pub input : Input
  pub error_code : Option String

pub record AuditEvent : Type 0 where
  pub id : String
  pub actor_admin_id : Option String
  pub action : String
  pub resource_type : String
  pub resource_id : String

pub record OutboxEvent : Type 0 where
  pub id : String
  pub topic : String
  pub aggregate_type : String
  pub aggregate_id : String

pub record Db : Type 0 where
  pub admins : List Admin
  pub identities : List AdminIdentity
  pub tokens : List AdminPairingToken
  pub users : List UserRow
  pub devices : List Device
  pub nodes : List Node
  pub instances : List ProtocolInstance
  pub credentials : List Credential
  pub revisions : List ConfigRevision
  pub operations : List Operation
  pub audit : List AuditEvent
  pub outbox : List OutboxEvent

abbrev pub empty : Db
empty = record {
  admins = [];
  identities = [];
  tokens = [];
  users = [];
  devices = [];
  nodes = [];
  instances = [];
  credentials = [];
  revisions = [];
  operations = [];
  audit = [];
  outbox = [];
}
