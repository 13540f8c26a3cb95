-- ===== src/Ctl/Tests.antt =====
-- The command line over an API whose services count their calls, for a hash that takes the codes of
-- the text.
use ez_vpn_lego.Prelude.{
  ◌≡◌, refl, ℕ, ◌+◌, ◌<>◌, String, none, some, List, [], ◌∷◌, true, string_eq, arith,
}
use ez_vpn_lego.Prelude.Text.{codes, trim_space}
use ez_vpn_lego.Store.Tx as Store
use ez_vpn_lego.Http.{Ports, Decoders, single, invalid, error, panic}
use ez_vpn_lego.Http.Handlers.{user_response}
use ez_vpn_lego.Config as Config
use ez_vpn_lego.Control.{Json}
use ez_vpn_lego.Control.Served.{api, served}
use package.ez_vpn_lego.Ctl.{join, usage, command_of, client_of, print_result, run}
use package.ez_vpn_lego.Ctl.Exits.{run-create_user}

abbrev counting : Ports ℕ
counting = record {
  ping = λ n. true;
  list_users = λ n. (panic, n + 1);
  create_user = λ request n. (error Store.no_rows, n + 1);
  bootstrap_owner = λ n. (panic, n + 1);
  create_pairing = λ id n. (panic, n + 1);
  claim_pairing = λ token subject n. (panic, n + 1);
  resolve_telegram = λ subject n. (panic, n + 1);
  bootstrap_vpn = λ request n. (panic, n + 2);
  create_access = λ request n. (panic, n + 3);
}

abbrev decoders : Decoders
decoders = record {
  name_body = λ bytes. single "My phone";
  claim_body = λ bytes. invalid;
  vpn_body = λ bytes. invalid;
}

abbrev json : Json
json = record {
  write_name = λ name. 1 ∷ [];
  write_claim = λ claim. [];
  write_vpn = λ vpn. 2 ∷ [];
  read_health = λ p. none;
  read_owner = λ p. none;
  read_pairing = λ p. none;
  read_access = λ p. none;
  read_vpn = λ p. none;
  read_users = λ p. none;
  read_user = λ p. none;
}

abbrev configuration : Config.Client
configuration = record { socket_path = "/s"; api_token = "secret"; admin_id = "a" }

abbrev arguments : List String
arguments = "users" ∷ "create" ∷ "My" ∷ "phone" ∷ []

named : trim_space (join ("My" ∷ "phone" ∷ [])) ≡ "My phone"
unfolding trim_space join ◌<>◌
named = refl

three_words : command_of ("vpn" ∷ "bootstrap" ∷ "address" ∷ []) ≡ usage
unfolding command_of string_eq
three_words = refl

run-create_user_example :
    run json
      (api codes counting decoders json (client_of configuration))
      (Config.loaded configuration)
      (some "key")
      arguments
      7
    ≡ print_result (served json.read_user user_response (error Store.no_rows, 8))
unfolding trim_space join ◌<>◌
run-create_user_example =
    run-create_user codes counting decoders json configuration "key" "My" ("phone" ∷ []) 7 refl refl
      refl (omega arith)
