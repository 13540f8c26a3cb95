-- ===== src/Services/Bootstrap/Machine.antt =====
-- A bootstrap with the real repository and helper, for a checksum that is always zero.
use ez_vpn_lego.Prelude.{
  ◌≡◌, refl, ap, ◌<>◌, true, false, none, some, [], ◌∷◌, string_eq, nat_eq, bytes_eq,
}
use ez_vpn_lego.Prelude.Text.{hex_decode, hex_encode, byte_length, trim_space}
use ez_vpn_lego.Core.Status.{status_eq, lifecycle_eq}
use ez_vpn_lego.Store.Rows.{empty}
use ez_vpn_lego.Store.Tx.{lost_after, commit_failed}
use ez_vpn_lego.Uuid.{matches_revision}
use ez_vpn_lego.Helper.Disk.{atomic_write}
use ez_vpn_lego.Helper.Engine.{
  apply, carry_out, prepare, vet, read_candidate, check_file, open_file, limit_read, exceeds,
  is_unsafe, read_current, equal_hex, validate, settle, recover, install,
}
use ez_vpn_lego.Helper.Client.{answered, apply_xray}
use ez_vpn_lego.Store.Table.{find, exists, update}
use ez_vpn_lego.Store.Queries.Admins.{get_active_admin}
use ez_vpn_lego.Store.Queries.Events.{create_audit_event, create_outbox_event}
use ez_vpn_lego.Store.Queries.Operations.{create_operation, complete_operation}
use ez_vpn_lego.Store.Queries.Users.{create_user}
use ez_vpn_lego.Store.Queries.Vpn.{
  count_nodes, create_node, create_device, create_instance, create_credential, create_revision,
  activate_node, activate_instances, activate_device, activate_credential, verify_revision,
  state_eq,
}
use ez_vpn_lego.Postgres.Vpn as Vpn
use ez_vpn_lego.Candidate.{write}
use ez_vpn_lego.Secretbox.{seal}
use ez_vpn_lego.Reality.{
  generate_short_id, validate_credential, validate_credentials, validate_state, render, share_uri,
  itoa, join_host_port, encode_query,
}
use ez_vpn_lego.Services.{System, Outcome, failed, got, storage, Libraries}
use ez_vpn_lego.Services.Bootstrap.{
  BootstrapVpnRequest, BootstrapVpnResult, Randoms, Surroundings, Plan, generate_ids,
  validate_request, plan, finalize_loop, bootstrap,
}
use ez_vpn_lego.Services.Samples.{digest, env, engine, admin, up, any, is_apart}
use ez_vpn_lego.Services.Running.{helper_of, Serves}
use ez_vpn_lego.Services.Bootstrap.Running.{
  postgres, IsAllOrNothing, bootstrap_running, bootstrap_early,
}

abbrev libraries : Libraries
libraries = record {
  sha256 = digest;
  aead = record {
    nonce_size = 1;
    overhead = 0;
    seal_box = λ nonce text context. text;
    open_box = λ nonce text context. some text;
  };
  valid_target = λ s. true;
  is_ip = λ s. true;
  query_escape = λ s. s;
  path_escape = λ s. s;
  encode_config = λ c. some (1 ∷ []);
  encode_instance = λ s. [];
  decode_instance = λ bytes. none;
  encode_credential = λ s. [];
  decode_credential = λ bytes. none;
}

abbrev request : BootstrapVpnRequest
request = record {
  admin_id = "a";
  public_address = "192.0.2.1";
  port = 443;
  target = "example.org:443";
  server_name = "example.org";
  idempotency_key = "0123456789abcdef";
}

abbrev randoms : Randoms
randoms = record {
  uuids =
      some "o"
      ∷ some "u"
      ∷ some "d"
      ∷ some "n"
      ∷ some "i"
      ∷ some "c"
      ∷ some "00ff1122-3344-4f66-bf88-99aabbccddee"
      ∷ [];
  keys = some (record { private_key = "k"; public_key = "p" });
  short_id = some (0 ∷ 1 ∷ 2 ∷ 3 ∷ 4 ∷ 5 ∷ 6 ∷ 7 ∷ []);
  vless_uuid = some "v";
  instance_nonce = some (9 ∷ []);
  credential_nonce = some (9 ∷ []);
  revision_nonce = some (9 ∷ []);
}

abbrev around : Surroundings
around = record {
  now = 5;
  stage_link = up;
  faults = record {
    mkdir = false;
    create = false;
    write = false;
    written = 0;
    sync = false;
    close = false;
  };
  fail_link = up;
  attempt = λ i. record { link = up; audit_draw = some "x"; outbox_draw = some "y" };
}

abbrev start : System
start = record {
  db = record empty { admins = admin ∷ [] };
  world = record { disk = λ q. none; unsynced = λ q. false; history = []; running = none };
}

ran : Outcome BootstrapVpnResult × System
unfolding bootstrap plan validate_request generate_ids generate_short_id render validate_state
    validate_credentials validate_credential hex_decode hex_encode share_uri itoa join_host_port
    encode_query seal write finalize_loop byte_length trim_space string_eq nat_eq bytes_eq status_eq
    lifecycle_eq state_eq apply_xray apply carry_out prepare vet matches_revision read_candidate
    check_file open_file limit_read exceeds is_unsafe read_current equal_hex validate settle recover
    install atomic_write Vpn.stage Vpn.stage_body Vpn.stage_rows Vpn.finalize Vpn.finalize_body
    Vpn.record_bootstrap_success get_active_admin count_nodes create_operation create_user
    create_device create_node create_instance create_credential create_revision activate_node
    activate_instances activate_device activate_credential verify_revision complete_operation
    create_audit_event create_outbox_event find exists update
ran =
    bootstrap (postgres any) (helper_of digest engine env answered) "c" libraries randoms around
      request start

abbrev result : BootstrapVpnResult
result = record {
  operation_id = "o";
  user_id = "u";
  device_id = "d";
  uri =
      "vless://v@192.0.2.1:443?encryption=none&flow=xtls-rprx-vision&fp=chrome&pbk=p&security=reality&sid=0001020304050607&sni=example.org&type=tcp#Owner device";
}

ran_got : ran.0 ≡ got result
unfolding ran ◌<>◌
ran_got = refl

bootstrap_running_example :
    (p : Plan) × (plan libraries randoms request ≡ got p) × Serves engine ran.1.world p.content
unfolding ran
bootstrap_running_example =
    bootstrap_running any libraries engine env answered randoms around request start ran.1 result
      is_apart (ap (λ (o : Outcome BootstrapVpnResult). (o, ran.1)) ran_got)

-- The acknowledgement of the COMMIT of `Stage` is lost.
abbrev lossy_around : Surroundings
lossy_around = record around {
  stage_link = record { begin_fails = false; commit_fate = lost_after };
}

lossy_ran : Outcome BootstrapVpnResult × System
unfolding bootstrap plan validate_request generate_ids generate_short_id render validate_state
    validate_credentials validate_credential hex_decode hex_encode share_uri itoa join_host_port
    encode_query seal byte_length trim_space string_eq nat_eq bytes_eq status_eq lifecycle_eq
    state_eq Vpn.stage Vpn.stage_body Vpn.stage_rows get_active_admin count_nodes create_operation
    create_user create_device create_node create_instance create_credential create_revision find
    exists
lossy_ran =
    bootstrap (postgres any) (helper_of digest engine env answered) "c" libraries randoms
      lossy_around request start

lossy_failed : lossy_ran.0 ≡ failed (storage commit_failed)
unfolding lossy_ran
lossy_failed = refl

bootstrap_early_example :
    (lossy_ran.1.world ≡ start.world)
    × IsAllOrNothing any libraries engine env answered randoms lossy_around request
        (storage commit_failed)
        start.db
        lossy_ran.1.db
unfolding lossy_ran
bootstrap_early_example =
    bootstrap_early any libraries engine env answered randoms lossy_around request start lossy_ran.1
      (storage commit_failed)
      (ap (λ (o : Outcome BootstrapVpnResult). (o, lossy_ran.1)) lossy_failed) refl
