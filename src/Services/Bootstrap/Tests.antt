-- ===== src/Services/Bootstrap/Tests.antt =====
-- A bootstrap at concrete data: a database with one administrator, and a calm machine.
use ez_vpn_lego.Prelude.{
  ◌≡◌, refl, ap, ◌<>◌, true, false, none, some, [], ◌∷◌, string_eq, nat_eq, bytes_eq,
}
use ez_vpn_lego.Prelude.Text.{hex_decode, hex_encode, byte_length, trim_space}
use ez_vpn_lego.Core.Status.{active, status_eq, lifecycle_eq}
use ez_vpn_lego.Core.Model.{Admin, owner}
use ez_vpn_lego.Store.Rows.{empty}
use ez_vpn_lego.Store.Tx as Store
use ez_vpn_lego.Store.Tx.{Link, acknowledged}
use ez_vpn_lego.Candidate.{write}
use ez_vpn_lego.Secretbox.{seal}
use ez_vpn_lego.Reality.{
  generate_short_id, validate_credential, validate_credentials, validate_state, render, share_uri,
  itoa, join_host_port, encode_query,
}
use ez_vpn_lego.Services.{System, Outcome, got, Libraries, Helper}
use ez_vpn_lego.Services.Bootstrap.{
  BootstrapVpnRequest, BootstrapVpnResult, Repository, Randoms, Surroundings, Plan, generate_ids,
  validate_request, plan, finalize_loop, bootstrap,
}
use ez_vpn_lego.Services.Bootstrap.Outcomes.{HasBootstrapped, Finalizes, bootstrap_got}

abbrev admin : Admin
admin = record { id = "a"; role = owner; status = active; created_at = 1; updated_at = 1 }

abbrev libraries : Libraries
libraries = record {
  sha256 = λ content. 0 ∷ [];
  aead = record {
    nonce_size = 1;
    overhead = 0;
    seal_box = λ nonce text context. text;
    open_box = λ nonce text context. some text;
  };
  valid_target = λ s. true;
  is_ip = λ s. true;
  query_escape = λ s. s;
  path_escape = λ s. s;
  encode_config = λ c. some (1 ∷ []);
  encode_instance = λ s. [];
  decode_instance = λ bytes. none;
  encode_credential = λ s. [];
  decode_credential = λ bytes. none;
}

abbrev request : BootstrapVpnRequest
request = record {
  admin_id = "a";
  public_address = "192.0.2.1";
  port = 443;
  target = "example.org:443";
  server_name = "example.org";
  idempotency_key = "0123456789abcdef";
}

abbrev randoms : Randoms
randoms = record {
  uuids = some "o" ∷ some "u" ∷ some "d" ∷ some "n" ∷ some "i" ∷ some "c" ∷ some "r" ∷ [];
  keys = some (record { private_key = "k"; public_key = "p" });
  short_id = some (0 ∷ 1 ∷ 2 ∷ 3 ∷ 4 ∷ 5 ∷ 6 ∷ 7 ∷ []);
  vless_uuid = some "v";
  instance_nonce = some (9 ∷ []);
  credential_nonce = some (9 ∷ []);
  revision_nonce = some (9 ∷ []);
}

abbrev up : Link
up = record { begin_fails = false; commit_fate = acknowledged }

abbrev around : Surroundings
around = record {
  now = 5;
  stage_link = up;
  faults = record {
    mkdir = false;
    create = false;
    write = false;
    written = 0;
    sync = false;
    close = false;
  };
  fail_link = up;
  attempt = λ i. record { link = up; audit_draw = some "x"; outbox_draw = some "y" };
}

abbrev start : System
start = record {
  db = record empty { admins = admin ∷ [] };
  world = record { disk = λ q. none; unsynced = λ q. false; history = []; running = none };
}

-- A repository that stores nothing and has no error.
abbrev forgetful : Repository
forgetful = record {
  stage = λ link now input d. (Store.ok tt, d);
  finalize = λ link a o input d. (Store.ok tt, d);
  fail = λ link o r code d. (Store.ok tt, d);
}

abbrev willing : Helper
willing revision_id checksum w = (true, w)

ran : Outcome BootstrapVpnResult × System
unfolding bootstrap plan validate_request generate_ids generate_short_id render validate_state
    validate_credentials validate_credential hex_decode hex_encode share_uri itoa join_host_port
    encode_query seal write finalize_loop byte_length trim_space string_eq nat_eq
ran = bootstrap forgetful willing "c" libraries randoms around request start

abbrev result : BootstrapVpnResult
result = record {
  operation_id = "o";
  user_id = "u";
  device_id = "d";
  uri =
      "vless://v@192.0.2.1:443?encryption=none&flow=xtls-rprx-vision&fp=chrome&pbk=p&security=reality&sid=0001020304050607&sni=example.org&type=tcp#Owner device";
}

ran_got : ran.0 ≡ got result
unfolding ran ◌<>◌
ran_got = refl

bootstrap_got_example :
    (p : Plan) × (plan libraries randoms request ≡ got p)
    × ((steps : HasBootstrapped forgetful willing "c" around p start ran.1) × Finalizes forgetful
          willing "c" around p.finalized steps.staged_db ran.1.db)
    × (result ≡ p.result)
unfolding ran
bootstrap_got_example =
    bootstrap_got forgetful willing "c" around libraries randoms request start ran.1 result
      (ap (λ (o : Outcome BootstrapVpnResult). (o, ran.1)) ran_got)
