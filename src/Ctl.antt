-- ===== src/Ctl.antt =====
-- cmd/lego-vpnctl/main.go: the command line, over the client of the API. What is printed is left out
-- but for the link of a pairing; printing has no error.
pub mod Exits
mod Tests
use ez_vpn_lego.Prelude.{
  ℕ, String, Bool, true, false, ◌&&◌, ◌<>◌, Option, none, some, List, [], ◌∷◌, ◌==◌, string_eq,
  if◌then◌else◌,
}
use ez_vpn_lego.Prelude.Text.{trim_space}
use ez_vpn_lego.Http.{VpnBody, trim_prefix}
use ez_vpn_lego.Config as Config
use ez_vpn_lego.Control as Api
use ez_vpn_lego.Control.{Client, Json, Network, Reply, failed, received, PairingToken}

-- `strings.Join(arguments, " ")`
unfoldable pub join : List String → String
join [] = ""
join (a ∷ []) = a
join (a ∷ b ∷ rest) = a <> (" " <> join (b ∷ rest))

-- The link that is printed for a pairing.
abbrev pub pairing_url : String → PairingToken → String
pairing_url argument result =
    "https://t.me/" <> (trim_prefix (trim_space argument) "@" <> ("?start=" <> result.token))

-- What a command makes known: its exit status, and the link of a pairing.
pub record Exit : Type 0 where
  pub status : ℕ
  pub url : Option String

abbrev pub exit : ℕ → Exit
exit status = record { status = status; url = none }

-- `printResult`
abbrev pub print_result : {V S : Type 0} → Reply V × S → Exit × S
print_result (failed e, s) = (exit 1, s)
print_result (received v, s) = (exit 0, s)

abbrev pub print_pairing : {S : Type 0} → String → Reply PairingToken × S → Exit × S
print_pairing argument (failed e, s) = (exit 1, s)
print_pairing argument (received token, s) =
    (record { status = 0; url = some (pairing_url argument token) }, s)

-- The commands that `run` tells apart by the number and the first of its arguments.
pub data Command : Type 0 where
  status owner_bootstrap users_list usage : Command
  telegram_pairing : (username : String) → Command
  vpn_bootstrap : (address target server_name : String) → Command
  users_create : (name : String) → Command

-- The cases of the `switch`, in their order.
unfoldable pub command_of : List String → Command
command_of [] = usage
command_of (a ∷ []) = if a == "status" then status else usage
command_of (a ∷ b ∷ []) =
    if a == "owner" && b == "bootstrap"
    then owner_bootstrap
    else if a == "users" && b == "list"
    then users_list
    else usage
command_of (a ∷ b ∷ c ∷ []) =
    if a == "telegram" && b == "pairing"
    then telegram_pairing c
    else if a == "users" && b == "create"
    then users_create (trim_space c)
    else usage
command_of (a ∷ b ∷ c ∷ d ∷ e ∷ []) =
    if a == "vpn" && b == "bootstrap"
    then vpn_bootstrap c d e
    else if a == "users" && b == "create"
    then users_create (trim_space (join (c ∷ d ∷ e ∷ [])))
    else usage
command_of (a ∷ b ∷ rest) =
    if a == "users" && b == "create" then users_create (trim_space (join rest)) else usage

abbrev pub client_of : Config.Client → Client
client_of c = record { token = c.api_token; admin_id = c.admin_id }

module _ {S : Type 0} (json : Json) (network : Network S) where
  -- What follows a draw of `id.NewUUID`.
  abbrev pub with_key : Option String → S → (String → Exit × S) → Exit × S
  with_key none s next = (exit 1, s)
  with_key (some key) s next = next key

  -- The bodies of the cases.
  unfoldable pub execute : Client → Option String → Command → S → Exit × S
  execute client draw status s = print_result (Api.get_health json network client s)
  execute client draw owner_bootstrap s = print_result (Api.bootstrap_owner json network client s)
  execute client draw users_list s = print_result (Api.list_users json network client s)
  execute client draw usage s = (exit 2, s)
  execute client draw (telegram_pairing username) s =
      print_pairing username (Api.create_telegram_pairing json network client s)
  execute client draw (vpn_bootstrap address target server_name) s = with_key draw s λ key.
      print_result (
        Api.bootstrap_vpn json network client
          (record {
            public_address = address;
            port = 443;
            target = target;
            server_name = server_name;
          })
          key s)
  execute client draw (users_create name) s =
      with_key draw s λ key. print_result (Api.create_user json network client name key s)

  abbrev pub configured : Config.Loaded Config.Client → Option String → Command → S → Exit × S
  configured (Config.rejected e) draw command s = (exit 2, s)
  configured (Config.loaded c) draw command s = execute (client_of c) draw command s

  -- `run`, for the configuration that `LoadClient` comes to.
  unfoldable pub run : Config.Loaded Config.Client → Option String → List String → S → Exit × S
  run configuration draw [] s = (exit 2, s)
  run configuration draw (a ∷ []) s =
      if a == "version" then (exit 0, s) else configured configuration draw (command_of (a ∷ [])) s
  run configuration draw (a ∷ b ∷ rest) s =
      configured configuration draw (command_of (a ∷ b ∷ rest)) s
