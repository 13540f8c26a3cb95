-- ===== src/Services/Access.antt =====
-- services/access/service.go: one more credential, and the configuration with all of them.
pub mod Panics
pub mod Samples
pub mod Outcomes
pub mod Planned
pub mod Running
mod Machine
mod Tests
use ez_vpn_lego.Prelude.{
  ◌≡◌, ℕ, String, ◌<>◌, Bool, true, false, not, ◌||◌, Option, none, some, List, [], ◌∷◌, ◌++◌, ltb,
}
use ez_vpn_lego.Prelude.Text.{is_empty, trim_space, rune_count, byte_length, hex_encode}
use ez_vpn_lego.Store.Rows.{Db}
use ez_vpn_lego.Store.Tx as Store
use ez_vpn_lego.Store.Tx.{Link}
use ez_vpn_lego.Postgres.Access.{
  AccessState, EncryptedCredential, StageAccessParams, FinalizeAccessParams,
}
use ez_vpn_lego.Reality as Driver
use ez_vpn_lego.Reality.{render, share_uri, generate_short_id}
use ez_vpn_lego.Secretbox.{seal, open_secret}
use ez_vpn_lego.Candidate.{CandidateFaults, CandidateError, write}
use ez_vpn_lego.Helper.Disk.{World}
use ez_vpn_lego.Services.{
  System, ServiceError, invalid_argument, entropy_failed, helper_failed, undecodable,
  index_out_of_range, storage, not_finalized, Outcome, failed, got, ◌>>=◌, ◌>>◌, require, drawn,
  by_driver, by_secrets, Helper, Libraries, InstanceSecret, CredentialSecret,
}

pub record CreateAccessRequest : Type 0 where
  pub admin_id : String
  pub name : String
  pub idempotency_key : String

pub record CreateAccessResult : Type 0 where
  pub operation_id : String
  pub user_id : String
  pub device_id : String
  pub uri : String

-- The interface of the repository.
pub record Repository : Type 0 where
  pub load : Db → Store.Result (AccessState × Db)
  pub stage : Link → ℕ → StageAccessParams → Db → Store.Result (Unit {0}) × Db
  pub finalize : Link → FinalizeAccessParams → Db → Store.Result (Unit {0}) × Db
  pub fail : Link → String → String → String → Db → Store.Result (Unit {0}) × Db

pub record Ids : Type 0 where
  pub operation : String
  pub user : String
  pub device : String
  pub credential : String
  pub revision : String

pub record Randoms : Type 0 where
  pub uuids : List (Option String)
  pub vless_uuid : Option String
  pub short_id : Option (List ℕ)
  pub credential_nonce : Option (List ℕ)
  pub revision_nonce : Option (List ℕ)

pub record Surroundings : Type 0 where
  pub now : ℕ
  pub stage_link : Link
  pub faults : CandidateFaults
  pub fail_link : Link
  pub finalize_link : Link

-- `generateIDs`
unfoldable pub generate_ids : List (Option String) → Outcome Ids
generate_ids (some o ∷ some u ∷ some d ∷ some c ∷ some r ∷ rest) =
    got (record { operation = o; user = u; device = d; credential = c; revision = r })
generate_ids _ = failed entropy_failed

pub record Plan : Type 0 where
  pub staged : StageAccessParams
  pub content : List ℕ
  pub finalized : FinalizeAccessParams
  pub result : CreateAccessResult

abbrev pub decoded : {V : Type 0} → Option V → Outcome V
decoded none = failed undecodable
decoded (some v) = got v

-- `instance.ServerNames[0]`
abbrev pub first_name : List String → Outcome String
first_name [] = failed index_out_of_range
first_name (name ∷ names) = got name

module _ (libraries : Libraries) where
  open libraries use {
    sha256, aead, valid_target, is_ip, query_escape, path_escape, encode_config, decode_instance,
    encode_credential, decode_credential,
  }

  -- The test of `Create`, on the trimmed name.
  unfoldable pub is_valid_request : CreateAccessRequest → String → Bool
  is_valid_request request name = not (
      is_empty request.admin_id
      || (ltb (rune_count name) 1
          || (ltb 80 (rune_count name) || ltb (byte_length request.idempotency_key) 16)))

  -- The loop over the stored credentials.
  unfoldable pub open_credentials : List EncryptedCredential → Outcome (List Driver.Credential)
  open_credentials [] = got []
  open_credentials (c ∷ cs) = do
    plaintext ← by_secrets (open_secret aead c.secret ("credentials:" <> c.id))
    secret ← decoded (decode_credential plaintext)
    rest ← open_credentials cs
    got (
        record { id = c.id; uuid = secret.uuid; short_id = secret.short_id; label = c.name } ∷ rest)

  abbrev pub settings_of : InstanceSecret → Driver.Settings
  settings_of instance' = record {
    listen = "0.0.0.0";
    port = instance'.port;
    target = instance'.target;
    server_names = instance'.server_names;
    private_key = instance'.private_key;
    log_level = "warning";
  }

  abbrev pub plan_of :
      CreateAccessRequest → String → AccessState → Ids → List ℕ → String → List ℕ → List ℕ → Plan
  plan_of request name state ids content uri credential_box revision_box = record {
    staged = record {
      admin_id = request.admin_id;
      idempotency_key = request.idempotency_key;
      name = name;
      operation_id = ids.operation;
      user_id = ids.user;
      device_id = ids.device;
      credential_id = ids.credential;
      node_id = state.node_id;
      revision_id = ids.revision;
      driver = Driver.driver_name;
      revision_hash = hex_encode (sha256 content);
      credential_secret = credential_box;
      revision_content = revision_box;
    };
    content = content;
    finalized = record {
      admin_id = request.admin_id;
      operation_id = ids.operation;
      user_id = ids.user;
      device_id = ids.device;
      credential_id = ids.credential;
      node_id = state.node_id;
      revision_id = ids.revision;
    };
    result = record {
      operation_id = ids.operation;
      user_id = ids.user;
      device_id = ids.device;
      uri = uri;
    };
  }

  -- From the configuration on: the URI, and what is sealed.
  unfoldable pub publish :
      Randoms
      → CreateAccessRequest
      → String
      → AccessState
      → InstanceSecret
      → Ids
      → Driver.Credential
      → List ℕ
      → Outcome Plan
  publish randoms request name state instance' ids credential content = do
    server_name ← first_name instance'.server_names
    uri ← by_driver (
        share_uri is_ip query_escape path_escape state.public_address instance'.port
          instance'.public_key server_name credential)
    credential_box ← by_secrets (
        seal aead randoms.credential_nonce
          (encode_credential (record { uuid = credential.uuid; short_id = credential.short_id }))
          ("credentials:" <> ids.credential))
    revision_box ←
        by_secrets (seal aead randoms.revision_nonce content ("config_revisions:" <> ids.revision))
    got (plan_of request name state ids content uri credential_box revision_box)

  -- From the instance's secret on: the credentials, the new one and the configuration.
  unfoldable pub draft :
      Randoms → CreateAccessRequest → String → AccessState → InstanceSecret → Outcome Plan
  draft randoms request name state instance' = do
    credentials ← open_credentials state.credentials
    ids ← generate_ids randoms.uuids
    uuid ← drawn randoms.vless_uuid
    short_id ← by_driver (generate_short_id randoms.short_id)
    let credential : Driver.Credential = record {
      id = ids.credential;
      uuid = uuid;
      short_id = short_id;
      label = name;
    }
    content ← by_driver (
        render valid_target encode_config (record {
          settings = settings_of instance';
          credentials = credentials ++ (credential ∷ []);
        }))
    publish randoms request name state instance' ids credential content

  -- `Create` between `Load` and `Stage`.
  unfoldable pub plan : Randoms → CreateAccessRequest → String → AccessState → Outcome Plan
  plan randoms request name state = do
    plaintext ←
        by_secrets
          (open_secret aead state.instance_settings ("protocol_instances:" <> state.instance_id))
    instance' ← decoded (decode_instance plaintext)
    draft randoms request name state instance'

abbrev pub loaded : {V : Type 0} → Store.Result (V × Db) → Outcome V
loaded (Store.ok (v, d)) = got v
loaded (Store.err e) = failed (storage e)

-- What `Create` has worked out when it first writes.
unfoldable pub prepare : Repository → Libraries → Randoms → CreateAccessRequest → Db → Outcome Plan
prepare repository libraries randoms request d = do
  let name : String = trim_space request.name
  require (is_valid_request libraries request name) invalid_argument
  state ← loaded (repository.load d)
  plan libraries randoms request name state

abbrev pub finished :
    World → CreateAccessResult → Store.Result (Unit {0}) × Db → Outcome CreateAccessResult × System
finished w result (Store.ok done, d) = (got result, record { db = d; world = w })
finished w result (Store.err e, d) = (failed (not_finalized e), record { db = d; world = w })

module _ (repository : Repository) (helper : Helper) (directory : String)
    (around : Surroundings) where
  abbrev pub given_up :
      Plan → String → ServiceError → Db → World → Outcome CreateAccessResult × System
  given_up p code reason d w = (
    failed reason,
    record {
      db = (repository.fail around.fail_link p.staged.operation_id p.staged.revision_id code d).1;
      world = w;
    },
  )

  abbrev pub answered : Plan → Db → Bool × World → Outcome CreateAccessResult × System
  answered p d (false, w) = given_up p "xray_apply_failed" helper_failed d w
  answered p d (true, w) =
      finished w p.result (repository.finalize around.finalize_link p.finalized d)

  abbrev pub placed :
      Plan → Db → Option CandidateError × World → Outcome CreateAccessResult × System
  placed p d (some e, w) = given_up p "candidate_write_failed" (ServiceError.candidate e) d w
  placed p d (none, w) = answered p d (helper p.staged.revision_id p.staged.revision_hash w)

  abbrev pub staged_as :
      Plan → World → Store.Result (Unit {0}) × Db → Outcome CreateAccessResult × System
  staged_as p w (Store.err e, d) = (failed (storage e), record { db = d; world = w })
  staged_as p w (Store.ok done, d) =
      placed p d (write around.faults directory p.staged.revision_id p.content w)

  abbrev pub carry_out : System → Outcome Plan → Outcome CreateAccessResult × System
  carry_out system (failed reason) = (failed reason, system)
  carry_out system (got p) =
      staged_as p system.world (repository.stage around.stage_link around.now p.staged system.db)

  -- `Create`, under its lock.
  unfoldable pub create :
      Libraries → Randoms → CreateAccessRequest → System → Outcome CreateAccessResult × System
  create libraries randoms request system =
      carry_out system (prepare repository libraries randoms request system.db)
