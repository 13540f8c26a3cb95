-- ===== src/Services/Bootstrap.antt =====
-- services/vpnbootstrap/service.go: the first node, its owner's credential and its configuration.
pub mod Attempts
pub mod Outcomes
pub mod Running
mod Tests
mod Machine
use ez_vpn_lego.Prelude.{
  ◌≡◌, ℕ, zero, suc, ◌+◌, String, ◌<>◌, Bool, true, false, not, ◌&&◌, ◌||◌, Option, none, some,
  List, [], ◌∷◌, ltb, ◌==◌, nat_eq, if◌then◌else◌,
}
use ez_vpn_lego.Prelude.Text.{is_empty, trim_space, byte_length, hex_encode}
use ez_vpn_lego.Store.Rows.{Db}
use ez_vpn_lego.Store.Tx as Store
use ez_vpn_lego.Store.Tx.{Link}
use ez_vpn_lego.Postgres.Vpn.{StageVpnParams, FinalizeVpnParams}
use ez_vpn_lego.Reality as Driver
use ez_vpn_lego.Reality.{render, share_uri, generate_short_id}
use ez_vpn_lego.Secretbox.{seal}
use ez_vpn_lego.Candidate.{CandidateFaults, CandidateError, write}
use ez_vpn_lego.Helper.Disk.{World}
use ez_vpn_lego.Services.{
  System, ServiceError, invalid_argument, entropy_failed, helper_failed, storage, not_finalized,
  Outcome, failed, got, ◌>>=◌, ◌>>◌, require, drawn, by_driver, by_secrets, Helper, Libraries,
}

pub record BootstrapVpnRequest : Type 0 where
  pub admin_id : String
  pub public_address : String
  pub port : ℕ
  pub target : String
  pub server_name : String
  pub idempotency_key : String

pub record BootstrapVpnResult : Type 0 where
  pub operation_id : String
  pub user_id : String
  pub device_id : String
  pub uri : String

-- The interface of the repository.
pub record Repository : Type 0 where
  pub stage : Link → ℕ → StageVpnParams → Db → Store.Result (Unit {0}) × Db
  pub finalize :
      Link → Option String → Option String → FinalizeVpnParams → Db → Store.Result (Unit {0}) × Db
  pub fail : Link → String → String → String → Db → Store.Result (Unit {0}) × Db

pub record Ids : Type 0 where
  pub operation : String
  pub user : String
  pub device : String
  pub node : String
  pub instance_id : String
  pub credential : String
  pub revision : String

-- What the sources of randomness give to one call, `none` where they fail.
pub record Randoms : Type 0 where
  pub uuids : List (Option String)
  pub keys : Option Driver.KeyPair
  pub short_id : Option (List ℕ)
  pub vless_uuid : Option String
  pub instance_nonce : Option (List ℕ)
  pub credential_nonce : Option (List ℕ)
  pub revision_nonce : Option (List ℕ)

-- What the database does on one attempt to finalize.
pub record Attempt : Type 0 where
  pub link : Link
  pub audit_draw : Option String
  pub outbox_draw : Option String

pub record Surroundings : Type 0 where
  pub now : ℕ
  pub stage_link : Link
  pub faults : CandidateFaults
  pub fail_link : Link
  pub attempt : ℕ → Attempt

-- `generateIDs`
unfoldable pub generate_ids : List (Option String) → Outcome Ids
generate_ids (some o ∷ some u ∷ some d ∷ some n ∷ some i ∷ some c ∷ some r ∷ rest) = got (record {
  operation = o;
  user = u;
  device = d;
  node = n;
  instance_id = i;
  credential = c;
  revision = r;
})
generate_ids _ = failed entropy_failed

-- Everything that `Bootstrap` has worked out when it first writes.
pub record Plan : Type 0 where
  pub staged : StageVpnParams
  pub content : List ℕ
  pub finalized : FinalizeVpnParams
  pub result : BootstrapVpnResult

module _ (libraries : Libraries) where
  open libraries use {
    sha256, aead, valid_target, is_ip, query_escape, path_escape, encode_config, encode_instance,
    encode_credential,
  }

  -- `validateRequest`
  unfoldable pub validate_request : BootstrapVpnRequest → Bool
  validate_request request =
      not (is_empty request.admin_id || is_empty request.idempotency_key)
      && (not (is_empty (trim_space request.public_address) || request.port == 0)
          && (valid_target request.target
              && (not (is_empty (trim_space request.server_name))
                  && not (
                      ltb (byte_length request.idempotency_key) 16
                      || ltb 128 (byte_length request.idempotency_key)))))

  abbrev pub state_of : BootstrapVpnRequest → Driver.KeyPair → Driver.Credential → Driver.State
  state_of request keys credential = record {
    settings = record {
      listen = "0.0.0.0";
      port = request.port;
      target = request.target;
      server_names = request.server_name ∷ [];
      private_key = keys.private_key;
      log_level = "warning";
    };
    credentials = credential ∷ [];
  }

  -- The parameters of the calls, from what was drawn, rendered and sealed.
  abbrev pub plan_of : BootstrapVpnRequest → Ids → List ℕ → String → List ℕ → List ℕ → List ℕ → Plan
  plan_of request ids content uri instance_box credential_box revision_box = record {
    staged = record {
      admin_id = request.admin_id;
      idempotency_key = request.idempotency_key;
      operation_id = ids.operation;
      user_id = ids.user;
      device_id = ids.device;
      node_id = ids.node;
      instance_id = ids.instance_id;
      credential_id = ids.credential;
      revision_id = ids.revision;
      public_address = request.public_address;
      driver = Driver.driver_name;
      instance_settings = instance_box;
      credential_secret = credential_box;
      revision_content = revision_box;
      revision_hash = hex_encode (sha256 content);
    };
    content = content;
    finalized = record {
      admin_id = request.admin_id;
      operation_id = ids.operation;
      user_id = ids.user;
      device_id = ids.device;
      node_id = ids.node;
      credential_id = ids.credential;
      revision_id = ids.revision;
    };
    result = record {
      operation_id = ids.operation;
      user_id = ids.user;
      device_id = ids.device;
      uri = uri;
    };
  }

  -- `Bootstrap` up to the call of `Stage`: nothing is written yet.
  unfoldable pub plan : Randoms → BootstrapVpnRequest → Outcome Plan
  plan randoms request = do
    require (validate_request request) invalid_argument
    ids ← generate_ids randoms.uuids
    keys ← drawn randoms.keys
    short_id ← by_driver (generate_short_id randoms.short_id)
    uuid ← drawn randoms.vless_uuid
    let credential : Driver.Credential = record {
      id = ids.credential;
      uuid = uuid;
      short_id = short_id;
      label = "Owner device";
    }
    content ← by_driver (render valid_target encode_config (state_of request keys credential))
    uri ← by_driver (
        share_uri is_ip query_escape path_escape request.public_address request.port keys.public_key
          request.server_name credential)
    instance_box ← by_secrets (
        seal aead randoms.instance_nonce
          (encode_instance (record {
            private_key = keys.private_key;
            public_key = keys.public_key;
            target = request.target;
            server_names = request.server_name ∷ [];
            port = request.port;
          }))
          ("protocol_instances:" <> ids.instance_id))
    credential_box ← by_secrets (
        seal aead randoms.credential_nonce
          (encode_credential (record { uuid = uuid; short_id = short_id }))
          ("credentials:" <> ids.credential))
    revision_box ←
        by_secrets (seal aead randoms.revision_nonce content ("config_revisions:" <> ids.revision))
    got (plan_of request ids content uri instance_box credential_box revision_box)

abbrev pub after_attempt :
    (Store.Error → Db → Option Store.Error × Db)
    → Store.Result (Unit {0}) × Db
    → Option Store.Error × Db
after_attempt again (Store.ok done, d) = (none, d)
after_attempt again (Store.err e, d) = again e d

-- After the loop.
abbrev finished :
    World → BootstrapVpnResult → Option Store.Error × Db → Outcome BootstrapVpnResult × System
finished w result (none, d) = (got result, record { db = d; world = w })
finished w result (some e, d) = (failed (not_finalized e), record { db = d; world = w })

module _ (repository : Repository) where
  -- The loop of three attempts; the number counts those that are left, and the attempt is the one
  -- that is next. `last` is the error of the one before.
  unfoldable pub finalize_loop :
      (ℕ → Attempt) → FinalizeVpnParams → ℕ → ℕ → Store.Error → Db → Option Store.Error × Db
  finalize_loop attempts input zero next last d = (some last, d)
  finalize_loop attempts input (suc left) next last d =
      let attempt = attempts next in
      after_attempt (λ e d'. finalize_loop attempts input left (next + 1) e d')
        (repository.finalize attempt.link attempt.audit_draw attempt.outbox_draw input d)

  module _ (helper : Helper) (directory : String) where
    abbrev given_up :
        Surroundings
        → Plan
        → String
        → ServiceError
        → Db
        → World
        → Outcome BootstrapVpnResult × System
    given_up around p code reason d w = (
      failed reason,
      record {
        db = (repository.fail around.fail_link p.staged.operation_id p.staged.revision_id code d).1;
        world = w;
      },
    )

    -- Once the helper was asked.
    abbrev answered : Surroundings → Plan → Db → Bool × World → Outcome BootstrapVpnResult × System
    answered around p d (false, w) = given_up around p "xray_apply_failed" helper_failed d w
    answered around p d (true, w) =
        finished w p.result (finalize_loop around.attempt p.finalized 3 0 Store.commit_failed d)

    -- Once the candidate was written.
    abbrev placed :
        Surroundings
        → Plan
        → Db
        → Option CandidateError × World
        → Outcome BootstrapVpnResult × System
    placed around p d (some e, w) =
        given_up around p "candidate_write_failed" (ServiceError.candidate e) d w
    placed around p d (none, w) =
        answered around p d (helper p.staged.revision_id p.staged.revision_hash w)

    -- Once the rows were staged.
    abbrev staged_as :
        Surroundings
        → Plan
        → World
        → Store.Result (Unit {0}) × Db
        → Outcome BootstrapVpnResult × System
    staged_as around p w (Store.err e, d) = (failed (storage e), record { db = d; world = w })
    staged_as around p w (Store.ok done, d) =
        placed around p d (write around.faults directory p.staged.revision_id p.content w)

    abbrev carry_out : Surroundings → System → Outcome Plan → Outcome BootstrapVpnResult × System
    carry_out around system (failed reason) = (failed reason, system)
    carry_out around system (got p) =
        staged_as around p system.world
          (repository.stage around.stage_link around.now p.staged system.db)

    -- `Bootstrap`
    unfoldable pub bootstrap :
        Libraries
        → Randoms
        → Surroundings
        → BootstrapVpnRequest
        → System
        → Outcome BootstrapVpnResult × System
    bootstrap libraries randoms around request system =
        carry_out around system (plan libraries randoms request)
