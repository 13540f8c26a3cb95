-- ===== src/Control/Tests.antt =====
-- The client over an API whose services count their calls, for a hash that takes the codes of the
-- text.
use ez_vpn_lego.Prelude.{◌≡◌, refl, ℕ, ◌+◌, none, [], ◌∷◌, true, arith}
use ez_vpn_lego.Prelude.Text.{codes}
use ez_vpn_lego.Store.Tx as Store
use ez_vpn_lego.Services.{invalid_argument}
use ez_vpn_lego.Http.{Ports, Decoders, VpnBody, single, invalid, error, panic}
use ez_vpn_lego.Http.Handlers.{access_response, user_response, vpn_response}
use package.ez_vpn_lego.Control.{Client, Json, create_access, create_user, bootstrap_vpn}
use package.ez_vpn_lego.Control.Served.{api, served, calls-serve}

abbrev counting : Ports ℕ
counting = record {
  ping = λ n. true;
  list_users = λ n. (panic, n + 1);
  create_user = λ request n. (error Store.no_rows, n + 1);
  bootstrap_owner = λ n. (panic, n + 1);
  create_pairing = λ id n. (panic, n + 1);
  claim_pairing = λ token subject n. (panic, n + 1);
  resolve_telegram = λ subject n. (panic, n + 1);
  bootstrap_vpn = λ request n. (panic, n + 2);
  create_access = λ request n. (error invalid_argument, n + 3);
}

abbrev body : VpnBody
body = record { public_address = "192.0.2.1"; port = 443; target = "t"; server_name = "s" }

abbrev decoders : Decoders
decoders = record {
  name_body = λ bytes. single "Phone";
  claim_body = λ bytes. invalid;
  vpn_body = λ bytes. single body;
}

abbrev json : Json
json = record {
  write_name = λ name. 1 ∷ [];
  write_claim = λ claim. [];
  write_vpn = λ vpn. 2 ∷ [];
  read_health = λ p. none;
  read_owner = λ p. none;
  read_pairing = λ p. none;
  read_access = λ p. none;
  read_vpn = λ p. none;
  read_users = λ p. none;
  read_user = λ p. none;
}

abbrev client : Client
client = record { token = "secret"; admin_id = "a" }

calls-serve_example :
    (create_access json (api codes counting decoders json client) client "Phone" "key" "b" 7
      ≡ served json.read_access access_response (error invalid_argument, 10))
    × (create_user json (api codes counting decoders json client) client "Phone" "key" 7
        ≡ served json.read_user user_response (error Store.no_rows, 8))
    × (bootstrap_vpn json (api codes counting decoders json client) client body "key" 7
        ≡ served json.read_vpn vpn_response (panic, 9))
calls-serve_example =
    calls-serve codes counting decoders json client "Phone" "key" "b" body 7 refl refl refl refl
      (omega arith) refl (omega arith)
