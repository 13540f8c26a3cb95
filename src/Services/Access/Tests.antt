-- ===== src/Services/Access/Tests.antt =====
-- A credential created at concrete data: an instance that decodes to one server name.
use ez_vpn_lego.Prelude.{◌≡◌, ◌≢◌, refl, ◌<>◌, true, false, none, some, [], ◌∷◌, string_eq, nat_eq}
use ez_vpn_lego.Prelude.Text.{hex_decode, hex_encode, byte_length, trim_space}
use ez_vpn_lego.Store.Rows.{empty}
use ez_vpn_lego.Store.Tx as Store
use ez_vpn_lego.Store.Tx.{Link, acknowledged}
use ez_vpn_lego.Candidate.{write}
use ez_vpn_lego.Secretbox.{seal, open_secret}
use ez_vpn_lego.Reality.{
  generate_short_id, validate_credential, validate_credentials, validate_state, render, share_uri,
  itoa, join_host_port, encode_query,
}
use ez_vpn_lego.Services.{System, Outcome, got, failed, index_out_of_range, Libraries, Helper}
use ez_vpn_lego.Services.Access.{
  CreateAccessRequest, CreateAccessResult, Repository, Randoms, Surroundings, generate_ids,
  is_valid_request, open_credentials, publish, draft, plan, prepare, create,
}
use ez_vpn_lego.Services.Access.Panics.{create_in_range}

abbrev libraries : Libraries
libraries = record {
  sha256 = λ content. 0 ∷ [];
  aead = record {
    nonce_size = 1;
    overhead = 0;
    seal_box = λ nonce text context. text;
    open_box = λ nonce text context. some text;
  };
  valid_target = λ s. true;
  is_ip = λ s. true;
  query_escape = λ s. s;
  path_escape = λ s. s;
  encode_config = λ c. some (1 ∷ []);
  encode_instance = λ s. [];
  decode_instance = λ bytes. some (record {
    private_key = "k";
    public_key = "p";
    target = "example.org:443";
    server_names = "example.org" ∷ [];
    port = 443;
  });
  encode_credential = λ s. [];
  decode_credential = λ bytes. none;
}

abbrev request : CreateAccessRequest
request = record { admin_id = "a"; name = "Phone"; idempotency_key = "0123456789abcdef" }

abbrev randoms : Randoms
randoms = record {
  uuids = some "o" ∷ some "u" ∷ some "d" ∷ some "c" ∷ some "r" ∷ [];
  vless_uuid = some "v";
  short_id = some (0 ∷ 1 ∷ 2 ∷ 3 ∷ 4 ∷ 5 ∷ 6 ∷ 7 ∷ []);
  credential_nonce = some (9 ∷ []);
  revision_nonce = some (9 ∷ []);
}

abbrev up : Link
up = record { begin_fails = false; commit_fate = acknowledged }

abbrev around : Surroundings
around = record {
  now = 5;
  stage_link = up;
  faults = record {
    mkdir = false;
    create = false;
    write = false;
    written = 0;
    sync = false;
    close = false;
  };
  fail_link = up;
  finalize_link = up;
}

abbrev start : System
start = record {
  db = empty;
  world = record { disk = λ q. none; unsynced = λ q. false; history = []; running = none };
}

-- A repository with one node, which stores nothing and has no error.
abbrev one_node : Repository
one_node = record {
  load = λ d. Store.ok (
    record {
      instance_id = "i";
      node_id = "n";
      public_address = "192.0.2.1";
      instance_settings = 1 ∷ 9 ∷ 0 ∷ [];
      credentials = [];
    },
    d,
  );
  stage = λ link now input d. (Store.ok tt, d);
  finalize = λ link input d. (Store.ok tt, d);
  fail = λ link o r code d. (Store.ok tt, d);
}

abbrev willing : Helper
willing revision_id checksum w = (true, w)

ran : Outcome CreateAccessResult × System
unfolding create prepare plan draft publish open_credentials is_valid_request generate_ids
    generate_short_id render validate_state validate_credentials validate_credential hex_decode
    hex_encode share_uri itoa join_host_port encode_query seal open_secret write byte_length
    trim_space string_eq nat_eq
ran = create one_node willing "c" around libraries randoms request start

ran_got :
    ran.0
    ≡ got (record {
      operation_id = "o";
      user_id = "u";
      device_id = "d";
      uri =
          "vless://v@192.0.2.1:443?encryption=none&flow=xtls-rprx-vision&fp=chrome&pbk=p&security=reality&sid=0001020304050607&sni=example.org&type=tcp#Phone";
    })
unfolding ran ◌<>◌
ran_got = refl

create_in_range_example :
    (create one_node willing "c" around libraries randoms request start).0
    ≢ failed index_out_of_range
create_in_range_example =
    create_in_range one_node willing "c" around libraries randoms request start
