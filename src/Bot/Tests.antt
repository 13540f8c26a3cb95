-- ===== src/Bot/Tests.antt =====
-- The dialogue over an API that records the paths it is asked for and knows every user.
use ez_vpn_lego.Prelude.{
  ◌≡◌, refl, ◌≤◌, String, false, none, some, List, [], ◌∷◌, ◌==◌, string_eq, nat_eq, arith,
}
use ez_vpn_lego.Prelude.Text.{trim_space, is_empty, rune_count}
use ez_vpn_lego.Http.{problem, after_prefix}
use ez_vpn_lego.Control.{
  Json, Network, Client, Owner, received, request_api, reply_of, resolve_telegram, create_access,
}
use package.ez_vpn_lego.Bot.{App, has_prefix, handle}
use package.ez_vpn_lego.Bot.Effects.{Effect, IsFrom, handle-Effect, resolve}
use package.ez_vpn_lego.Bot.Dialogue.{says, handle-handle}

abbrev boss : Owner
boss = record { id = "a"; role = "owner"; status = "active"; created_at = 1; updated_at = 1 }

abbrev json : Json
json = record {
  write_name = λ name. [];
  write_claim = λ claim. [];
  write_vpn = λ vpn. [];
  read_health = λ p. none;
  read_owner = λ p. some boss;
  read_pairing = λ p. none;
  read_access = λ p. none;
  read_vpn = λ p. none;
  read_users = λ p. none;
  read_user = λ p. none;
}

abbrev network : Network (List String)
network request paths = (some (record { status = 200; payload = problem "" }), request.path ∷ paths)

abbrev client : Client
client = record { token = "secret"; admin_id = "" }

abbrev start : App (List String)
start = record { waiting = λ chat. false; sent = []; remote = [] }

resolved :
    (paths : List String)
    → resolve json network client "42" paths ≡ (received boss, "/v1/auth/telegram/resolve" ∷ paths)
unfolding resolve_telegram request_api reply_of
resolved paths = refl

no_command : has_prefix (trim_space " Phone") "/start" ≡ false
unfolding trim_space after_prefix nat_eq
no_command = refl

not_new : (trim_space " Phone" == "/new") ≡ false
unfolding trim_space string_eq
not_new = refl

named : is_empty (trim_space (trim_space " Phone")) ≡ false
unfolding trim_space
named = refl

short : rune_count (trim_space (trim_space " Phone")) ≤ 80
unfolding trim_space
short = omega arith

other_chat : ◌==◌ {A = String} "8" "7" ≡ false
unfolding string_eq
other_chat = refl

handle-handle_example :
    let b =
      handle json network client
        (some "key")
        (says "42" "7" " Phone")
        (handle json network client none (says "42" "7" "/new") start) in
    (b.remote
      ≡ (create_access json network client
          (trim_space (trim_space " Phone"))
          "key"
          "a"
          ("/v1/auth/telegram/resolve" ∷ "/v1/auth/telegram/resolve" ∷ [])).1)
    × (b.waiting "7" ≡ false)
    × (b.waiting "8" ≡ false)
handle-handle_example =
    handle-handle json network client "42" "7" none "key" " Phone" "8" start boss boss
      ("/v1/auth/telegram/resolve" ∷ [])
      ("/v1/auth/telegram/resolve" ∷ "/v1/auth/telegram/resolve" ∷ []) (resolved [])
      (resolved ("/v1/auth/telegram/resolve" ∷ [])) no_command not_new named short other_chat

handle-Effect_example :
    Effect json network client
      (IsFrom (says "42" "7" "/new"))
      start
      (handle json network client none (says "42" "7" "/new") start)
handle-Effect_example = handle-Effect json network client none (says "42" "7" "/new") start
