-- ===== src/Daemon/Tests.antt =====
-- A request for an access that the daemon answers, a run that answers it, and one that is refused.
use ez_vpn_lego.Prelude.{
  ◌≡◌, refl, ℕ, String, List, ◌==◌, if◌then◌else◌, ◌<>◌, true, false, none, some, [], ◌∷◌,
  string_eq, nat_eq, bytes_eq,
}
use ez_vpn_lego.Prelude.Text.{hex_decode, hex_encode, byte_length, trim_space}
use ez_vpn_lego.Core.Status.{status_eq, lifecycle_eq}
use ez_vpn_lego.Uuid.{matches_revision}
use ez_vpn_lego.Helper.Disk.{atomic_write}
use ez_vpn_lego.Helper.Engine.{
  apply, carry_out, prepare, vet, read_candidate, check_file, open_file, limit_read, exceeds,
  is_unsafe, read_current, equal_hex, validate, settle, recover, install,
}
use ez_vpn_lego.Helper.Client.{answered, apply_xray}
use ez_vpn_lego.Store.Table.{find, exists, update}
use ez_vpn_lego.Store.Queries.Admins.{get_active_admin}
use ez_vpn_lego.Store.Queries.Events.{create_audit_event}
use ez_vpn_lego.Store.Queries.Operations.{create_operation, complete_operation}
use ez_vpn_lego.Store.Queries.Users.{create_user}
use ez_vpn_lego.Store.Queries.Vpn.{
  create_device, create_credential, create_revision, activate_device, activate_credential,
  verify_revision, supersede_revisions, get_instance, active_rows, list_credentials, state_eq,
}
use ez_vpn_lego.Postgres.Access as Access
use ez_vpn_lego.Postgres.Access.{AccessState}
use ez_vpn_lego.Candidate.{write}
use ez_vpn_lego.Secretbox.{seal, open_secret}
use ez_vpn_lego.Reality.{
  generate_short_id, validate_credential, validate_credentials, validate_state, render, share_uri,
  itoa, join_host_port, encode_query,
}
use ez_vpn_lego.Services.Samples.{env, engine, up, any, is_apart}
use ez_vpn_lego.Services.Access as Service
use ez_vpn_lego.Services.Access.Samples.{libraries, randoms, around, start}
use ez_vpn_lego.Services.Access.{
  CreateAccessRequest, CreateAccessResult, Randoms, Surroundings, Plan, generate_ids,
  is_valid_request, open_credentials, publish, draft, create,
}
use ez_vpn_lego.Config as Config
use ez_vpn_lego.UnixSocket.{Files}
use ez_vpn_lego.UnixSocket.Serving.{stopped}
use ez_vpn_lego.Http.{Decoders, invalid, single, decode_json, is_authentic, trim_prefix}
use ez_vpn_lego.Http.Handlers.{create_access, access_response}
use ez_vpn_lego.Http.Server.{dispatch, serve}
use package.ez_vpn_lego.Daemon.{Conditions, Parts, ports_of, serve_daemon}
use package.ez_vpn_lego.Daemon.Served.{AccessStands, daemon, post, created-AccessStands}
use package.ez_vpn_lego.Daemon.Process.{Startup, run}
use package.ez_vpn_lego.Daemon.Process.Stages.{Stages, run-Stages}

abbrev hash : String → List ℕ
hash token = if token == "t" then 1 ∷ [] else []

abbrev decoders : Decoders
decoders = record {
  name_body = λ body. single "Phone";
  claim_body = λ body. invalid;
  vpn_body = λ body. invalid;
}

abbrev parts : Parts
parts = record {
  is_uuid = any;
  encode = λ bytes. "";
  hash = hash;
  libraries = libraries;
  engine = engine;
  decoders = decoders;
}

abbrev conditions : Conditions
conditions = record {
  ping = true;
  now = 5;
  link = up;
  reading = up;
  user_draws = record { user_id = none; operation_id = none; audit_id = none; outbox_id = none };
  owner_draws = record { admin_id = none; audit_id = none; outbox_id = none };
  token_bytes = none;
  identity_draw = none;
  vpn_randoms = record {
    uuids = [];
    keys = none;
    short_id = none;
    vless_uuid = none;
    instance_nonce = none;
    credential_nonce = none;
    revision_nonce = none;
  };
  vpn_around = record {
    now = 5;
    stage_link = up;
    faults = around.faults;
    fail_link = up;
    attempt = λ i. record { link = up; audit_draw = none; outbox_draw = none };
  };
  access_randoms = randoms;
  access_around = around;
  env = env;
  delivery = answered;
}

answered_created :
    (daemon parts "t" conditions
      (post "/v1/access" "Bearer t" "a" "0123456789abcdef" [])
      start).0.status
    ≡ 201
unfolding serve_daemon ports_of serve dispatch create_access access_response decode_json
    is_authentic trim_prefix create Service.prepare Service.plan draft publish open_credentials
    is_valid_request generate_ids generate_short_id render validate_state validate_credentials
    validate_credential hex_decode hex_encode share_uri itoa join_host_port encode_query seal
    open_secret write byte_length trim_space string_eq nat_eq bytes_eq status_eq lifecycle_eq
    state_eq apply_xray apply carry_out prepare vet matches_revision read_candidate check_file
    open_file limit_read exceeds is_unsafe read_current equal_hex validate settle recover install
    atomic_write get_active_admin create_operation create_user create_device create_credential
    create_revision activate_device activate_credential verify_revision supersede_revisions
    get_instance active_rows list_credentials complete_operation create_audit_event find exists
    update Access.load Access.stage Access.finalize Access.stage_body Access.finalize_body ◌<>◌
answered_created = refl

created-AccessStands_example :
    AccessStands parts "t" conditions
      (post "/v1/access" "Bearer t" "a" "0123456789abcdef" [])
      start
      (daemon parts "t" conditions (post "/v1/access" "Bearer t" "a" "0123456789abcdef" []) start)
created-AccessStands_example =
    created-AccessStands parts "t" conditions "Bearer t" "a" "0123456789abcdef" [] start is_apart
      answered_created

abbrev configuration : Config.Daemon
configuration = record {
  database_url = "postgres://db";
  socket_path = "/s";
  api_token = "t";
  master_key = 1 ∷ [];
  helper_socket = "/h";
  helper_token = "t";
  candidate_directory = "c";
}

abbrev startup : Startup
startup = record {
  connect = false;
  migration_ping = false;
  dialect = false;
  pool = false;
  ping = false;
  listen = record {
    mkdir = false;
    inspect = false;
    remove = false;
    bind = false;
    chmod = false;
    first_mode = 0o755;
  };
}

abbrev files : Files
files path = none

apart : ◌==◌ {A = String} "/f" "/s" ≡ false
unfolding string_eq
apart = refl

run-Stages_example :
    Stages parts
      (λ d. (true, d))
      (λ key. some libraries.aead)
      configuration
      startup
      ((conditions, post "/v1/access" "Bearer t" "a" "0123456789abcdef" []) ∷ [])
      (stopped true)
      files
      "/f"
      start
      (run parts
        (λ d. (true, d))
        (λ key. some libraries.aead)
        configuration
        startup
        ((conditions, post "/v1/access" "Bearer t" "a" "0123456789abcdef" []) ∷ [])
        (stopped true)
        files
        start)
run-Stages_example =
    run-Stages parts (λ d. (true, d)) (λ key. some libraries.aead) configuration startup
      ((conditions, post "/v1/access" "Bearer t" "a" "0123456789abcdef" []) ∷ []) (stopped true)
      files "/f" apart start
