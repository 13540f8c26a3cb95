-- ===== src/Store/Queries/Vpn.antt =====
-- db/queries/vpn.sql

use Prim.Native.String.{compare}
use text.Mathlib.Text.{is_le}
use ez_vpn_lego.Prelude.{
  ℕ, String, Bool, false, ◌&&◌, not, Option, none, some, List, [], ◌∷◌, length, ltb, Eq, ◌==◌,
  string_eq, nat_eq, if◌then◌else◌,
}
use ez_vpn_lego.Prelude.Text.{rune_count}
use ez_vpn_lego.Core.Status.{active, disabled, lifecycle_eq}
use ez_vpn_lego.Store.Table.{find, exists, update, insert}
use ez_vpn_lego.Store.Rows.{
  Db, UserRow, Device, Node, ProtocolInstance, Credential, ConfigRevision, RevisionState, candidate,
  verified, failed, superseded,
}
use ez_vpn_lego.Store.Queries.Operations.{within}
use ez_vpn_lego.Store.Tx.{
  Tx, no_rows, unique_violation, foreign_key_violation, check_violation, ◌>>◌, require, or_fail,
  pure,
}

abbrev pub driver_name : String
driver_name = "xray-reality-vision"

state_dec : Discrete RevisionState
state_dec = hlevel

instance unfoldable pub state_eq : Eq RevisionState
unfolding state_dec
state_eq = record { dec = state_dec }

-- `CountNodes`
unfoldable pub count_nodes : Tx ℕ
count_nodes d = pure (length d.nodes) d

abbrev pub new_node : String → String → String → Node
new_node id name address = record {
  id = id;
  name = name;
  status = disabled;
  public_address = address;
}

-- `CreateNode`
unfoldable pub create_node : String → String → String → Tx (Unit {0})
create_node id name address d =
    (do
      require (within 1 80 name) check_violation
      require (not (exists (λ n. n.id == id) d.nodes)) unique_violation
      require (not (exists (λ n. n.name == name) d.nodes)) unique_violation
      λ d. pure tt (record d { nodes = insert (new_node id name address) d.nodes }))
      d

abbrev pub new_device : String → String → String → Device
new_device id user_id name = record {
  id = id;
  user_id = user_id;
  name = name;
  status = disabled;
  deleted_at = none;
}

-- `CreateDevice`
unfoldable pub create_device : String → String → String → Tx (Unit {0})
create_device id user_id name d =
    (do
      require (within 1 80 name) check_violation
      require (not (exists (λ e. e.id == id) d.devices)) unique_violation
      require (exists (λ u. u.id == user_id) d.users) foreign_key_violation
      λ d. pure tt (record d { devices = insert (new_device id user_id name) d.devices }))
      d

abbrev pub new_instance : String → String → String → ℕ → List ℕ → ProtocolInstance
new_instance id node_id driver schema_version settings = record {
  id = id;
  node_id = node_id;
  driver = driver;
  schema_version = schema_version;
  status = disabled;
  settings = settings;
}

-- `CreateProtocolInstance`
unfoldable pub create_instance : String → String → String → ℕ → List ℕ → Tx (Unit {0})
create_instance id node_id driver schema_version settings d =
    (do
      require (within 1 80 driver && ltb 0 schema_version) check_violation
      require (not (exists (λ i. i.id == id) d.instances)) unique_violation
      require (not (exists (λ i. i.node_id == node_id && i.driver == driver) d.instances))
          unique_violation
      require (exists (λ n. n.id == node_id) d.nodes) foreign_key_violation
      λ d. pure tt (record d {
        instances = insert (new_instance id node_id driver schema_version settings) d.instances;
      }))
      d

abbrev pub new_credential : String → String → String → String → ℕ → List ℕ → Credential
new_credential id device_id node_id driver schema_version secret = record {
  id = id;
  device_id = device_id;
  node_id = node_id;
  driver = driver;
  schema_version = schema_version;
  status = disabled;
  secret = secret;
}

-- `CreateCredential`
unfoldable pub create_credential : String → String → String → String → ℕ → List ℕ → Tx (Unit {0})
create_credential id device_id node_id driver schema_version secret d =
    (do
      require (within 1 80 driver && ltb 0 schema_version) check_violation
      require (not (exists (λ c. c.id == id) d.credentials)) unique_violation
      require
          (not (
            exists (λ c. c.device_id == device_id && c.node_id == node_id && c.driver == driver)
              d.credentials))
          unique_violation
      require (exists (λ e. e.id == device_id) d.devices) foreign_key_violation
      require (exists (λ n. n.id == node_id) d.nodes) foreign_key_violation
      λ d. pure tt (record d {
        credentials =
            insert (new_credential id device_id node_id driver schema_version secret) d.credentials;
      }))
      d

abbrev pub new_revision : String → String → String → List ℕ → ConfigRevision
new_revision id node_id hash content = record {
  id = id;
  node_id = node_id;
  state = candidate;
  content_hash = hash;
  content = content;
}

-- `CreateConfigRevision`
unfoldable pub create_revision : String → String → String → List ℕ → Tx (Unit {0})
create_revision id node_id hash content d =
    (do
      require (rune_count hash == 64) check_violation
      require (not (exists (λ r. r.id == id) d.revisions)) unique_violation
      require (exists (λ n. n.id == node_id) d.nodes) foreign_key_violation
      λ d.
          pure tt
            (record d { revisions = insert (new_revision id node_id hash content) d.revisions }))
      d

-- `ActivateNode`, `ActivateProtocolInstances`, `ActivateDevice`, `ActivateCredential`
unfoldable pub activate_node : String → Tx (Unit {0})
activate_node id d =
    pure tt
      (record d { nodes = update (λ n. n.id == id) (λ n. record n { status = active }) d.nodes })

unfoldable pub activate_instances : String → Tx (Unit {0})
activate_instances node_id d = pure tt (record d {
  instances = update (λ i. i.node_id == node_id) (λ i. record i { status = active }) d.instances;
})

unfoldable pub activate_device : String → Tx (Unit {0})
activate_device id d =
    pure tt (record d {
      devices = update (λ e. e.id == id) (λ e. record e { status = active }) d.devices;
    })

unfoldable pub activate_credential : String → Tx (Unit {0})
activate_credential id d = pure tt (record d {
  credentials = update (λ c. c.id == id) (λ c. record c { status = active }) d.credentials;
})

abbrev pub is_verified_of : String → ConfigRevision → Bool
is_verified_of node_id r = r.node_id == node_id && r.state == verified

-- `SupersedeVerifiedRevisions`
unfoldable pub supersede_revisions : String → Tx (Unit {0})
supersede_revisions node_id d = pure tt (record d {
  revisions = update (is_verified_of node_id) (λ r. record r { state = superseded }) d.revisions;
})

abbrev pub is_candidate : String → ConfigRevision → Bool
is_candidate id r = r.id == id && r.state == candidate

abbrev pub as_verified : ConfigRevision → ConfigRevision
as_verified r = record r { state = verified }

-- `VerifyConfigRevision`, under the unique index `one_verified_revision_per_node`.
abbrev verify_found : String → Option ConfigRevision → Tx (Unit {0})
verify_found id none d = pure tt d
verify_found id (some r) d =
    (do
      require (not (exists (is_verified_of r.node_id) d.revisions)) unique_violation
      λ d. pure tt (record d { revisions = update (is_candidate id) as_verified d.revisions }))
      d

unfoldable pub verify_revision : String → Tx (Unit {0})
verify_revision id d = verify_found id (find (is_candidate id) d.revisions) d

-- `FailConfigRevision`
unfoldable pub fail_revision : String → Tx (Unit {0})
fail_revision id d = pure tt (record d {
  revisions = update (is_candidate id) (λ r. record r { state = failed }) d.revisions;
})

pub record InstanceRow : Type 0 where
  pub id : String
  pub node_id : String
  pub settings : List ℕ
  pub public_address : String

abbrev active_node : Db → String → Option Node
active_node d id = find (λ n. n.id == id && n.status == active) d.nodes

abbrev is_reality : ProtocolInstance → Bool
is_reality i = i.driver == driver_name && i.status == active

-- The join of `GetActiveRealityInstance`; `pgx` takes the first of several rows.
first_instance : Db → List ProtocolInstance → Option InstanceRow
first_instance d [] = none
first_instance d (i ∷ is) = elim (active_node d i.node_id) [
  | none ↦ first_instance d is
  | some n ↦
      let rest = first_instance d is in
      if is_reality i
      then some (record {
        id = i.id;
        node_id = i.node_id;
        settings = i.settings;
        public_address = n.public_address;
      })
      else rest
]

unfoldable pub get_instance : Tx InstanceRow
unfolding first_instance
get_instance d = or_fail (first_instance d d.instances) no_rows d

pub record CredentialRow : Type 0 where
  pub id : String
  pub secret : List ℕ
  pub name : String

abbrev is_current_user : String → UserRow → Bool
is_current_user id u = elim u.deleted_at [
  | none ↦ u.id == id && u.status == active
  | some at ↦ false
]

abbrev is_current_device : Db → String → Device → Bool
is_current_device d id e = elim e.deleted_at [
  | none ↦ e.id == id && e.status == active && exists (is_current_user e.user_id) d.users
  | some at ↦ false
]

abbrev pub is_current : String → Credential → Bool
is_current node_id c = c.node_id == node_id && c.driver == driver_name && c.status == active

-- The joins of `ListActiveRealityCredentials`, in the order of the table.
unfoldable pub active_rows : Db → String → List Credential → List CredentialRow
active_rows d node_id [] = []
active_rows d node_id (c ∷ cs) =
    let rest = active_rows d node_id cs in
    if is_current node_id c
    then elim (find (is_current_device d c.device_id) d.devices) [
      | none ↦ rest
      | some e ↦ record { id = c.id; secret = c.secret; name = e.name } ∷ rest
    ]
    else rest

place : CredentialRow → List CredentialRow → List CredentialRow
place r [] = r ∷ []
place r (s ∷ ss) = if is_le (compare r.id s.id) then r ∷ s ∷ ss else s ∷ place r ss

-- `ORDER BY c.id`
order_rows : List CredentialRow → List CredentialRow
order_rows [] = []
order_rows (r ∷ rs) = place r (order_rows rs)

-- `ListActiveRealityCredentials`
unfoldable pub list_credentials : String → Tx (List CredentialRow)
unfolding order_rows place
list_credentials node_id d = pure (order_rows (active_rows d node_id d.credentials)) d
