-- ===== src/Services/Access/Samples.antt =====
-- Samples for an access: a machine where one credential is stored, and a request for another.
use ez_vpn_lego.Prelude.{true, false, none, some, [], ◌∷◌}
use ez_vpn_lego.Core.Status.{active}
use ez_vpn_lego.Store.Rows.{Db, empty}
use ez_vpn_lego.Services.{System, Libraries}
use ez_vpn_lego.Services.Samples.{digest, admin, up}
use ez_vpn_lego.Services.Access.{CreateAccessRequest, Randoms, Surroundings}

abbrev pub libraries : Libraries
libraries = record {
  sha256 = digest;
  aead = record {
    nonce_size = 1;
    overhead = 0;
    seal_box = λ nonce text context. text;
    open_box = λ nonce text context. some text;
  };
  valid_target = λ s. true;
  is_ip = λ s. true;
  query_escape = λ s. s;
  path_escape = λ s. s;
  encode_config = λ c. some (1 ∷ []);
  encode_instance = λ s. [];
  decode_instance = λ bytes. some (record {
    private_key = "k";
    public_key = "p";
    target = "example.org:443";
    server_names = "example.org" ∷ [];
    port = 443;
  });
  encode_credential = λ s. [];
  decode_credential = λ bytes. some (record { uuid = "w"; short_id = "fedcba9876543210" });
}

abbrev pub request : CreateAccessRequest
request = record { admin_id = "a"; name = "Phone"; idempotency_key = "0123456789abcdef" }

abbrev pub randoms : Randoms
randoms = record {
  uuids =
      some "o" ∷ some "u" ∷ some "d" ∷ some "c" ∷ some "00ff1122-3344-4f66-bf88-99aabbccddee" ∷ [];
  vless_uuid = some "v";
  short_id = some (0 ∷ 1 ∷ 2 ∷ 3 ∷ 4 ∷ 5 ∷ 6 ∷ 7 ∷ []);
  credential_nonce = some (9 ∷ []);
  revision_nonce = some (9 ∷ []);
}

abbrev pub around : Surroundings
around = record {
  now = 5;
  stage_link = up;
  faults = record {
    mkdir = false;
    create = false;
    write = false;
    written = 0;
    sync = false;
    close = false;
  };
  fail_link = up;
  finalize_link = up;
}

abbrev pub stored_db : Db
stored_db = record empty {
  admins = admin ∷ [];
  users =
      record {
        id = "u0";
        name = "Owner";
        status = active;
        created_at = 1;
        updated_at = 1;
        deleted_at = none;
      }
      ∷ [];
  devices =
      record { id = "d0"; user_id = "u0"; name = "First"; status = active; deleted_at = none } ∷ [];
  nodes = record { id = "n"; name = "local"; status = active; public_address = "192.0.2.1" } ∷ [];
  instances =
      record {
        id = "i";
        node_id = "n";
        driver = "xray-reality-vision";
        schema_version = 1;
        status = active;
        settings = 1 ∷ 9 ∷ 0 ∷ [];
      }
      ∷ [];
  credentials =
      record {
        id = "k";
        device_id = "d0";
        node_id = "n";
        driver = "xray-reality-vision";
        schema_version = 1;
        status = active;
        secret = 1 ∷ 9 ∷ 0 ∷ [];
      }
      ∷ [];
}

abbrev pub start : System
start = record {
  db = stored_db;
  world = record { disk = λ q. none; unsynced = λ q. false; history = []; running = none };
}
