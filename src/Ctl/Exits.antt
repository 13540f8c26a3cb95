-- ===== src/Ctl/Exits.antt =====
-- How `lego-vpnctl` ends, and what it has asked the API for.
use ez_vpn_lego.Prelude.{
  ◌≡◌, ◌⊎◌, inl, inr, refl, ap, ℕ, ◌<◌, ◌≤◌, String, false, Option, none, some, List, [], ◌∷◌, ◌==◌,
  length, string_eq, Bool-cases, arith,
}
use ez_vpn_lego.Prelude.Text.{is_empty, trim_space}
use ez_vpn_lego.Http.{Ports, Decoders, single, max_request_body}
use ez_vpn_lego.Http.Handlers.{user_response}
use ez_vpn_lego.Config as Config
use ez_vpn_lego.Control as Api
use ez_vpn_lego.Control.{Client, Json, Network, Reply, failed, received, PairingToken}
use ez_vpn_lego.Control.Served.{api, served, create_user-serve}
use package.ez_vpn_lego.Ctl.{
  Exit, join, print_result, print_pairing, Command, status, owner_bootstrap, users_list, usage,
  telegram_pairing, vpn_bootstrap, users_create, command_of, client_of, execute, configured, run,
}

-- The command ends with 2 and has asked for nothing, or it ends with 0 or 1, and has asked for
-- something only if the configuration is loaded.
abbrev pub Ends : {S : Type 0} → Config.Loaded Config.Client → S → Exit × S → Type 0
Ends configuration s (e, s') =
    ((e.status ≡ 2) × (s' ≡ s))
    ⊎ ((e.status < 2) × ((s' ≡ s) ⊎ ((c : Config.Client) × (configuration ≡ Config.loaded c))))

print-status : {V S : Type 0} (r : Reply V × S) → (print_result r).0.status < 2
print-status (failed e, s) = omega arith
print-status (received v, s) = omega arith

pairing-status :
    {S : Type 0} (argument : String) (r : Reply PairingToken × S)
    → (print_pairing argument r).0.status < 2
pairing-status argument (failed e, s) = omega arith
pairing-status argument (received token, s) = omega arith

module _ {S : Type 0} (json : Json) (network : Network S) where
  execute-Ends :
      (c : Config.Client) (draw : Option String) (command : Command) (s : S)
      → Ends (Config.loaded c) s (execute json network (client_of c) draw command s)
  unfolding execute
  execute-Ends c draw status s =
      inr (print-status (Api.get_health json network (client_of c) s), inr (c, refl))
  execute-Ends c draw owner_bootstrap s =
      inr (print-status (Api.bootstrap_owner json network (client_of c) s), inr (c, refl))
  execute-Ends c draw users_list s =
      inr (print-status (Api.list_users json network (client_of c) s), inr (c, refl))
  execute-Ends c draw usage s = inl (refl, refl)
  execute-Ends c draw (telegram_pairing username) s = inr (
    pairing-status username (Api.create_telegram_pairing json network (client_of c) s),
    inr (c, refl),
  )
  execute-Ends c none (vpn_bootstrap address target server_name) s = inr (omega arith, inl refl)
  execute-Ends c (some key) (vpn_bootstrap address target server_name) s =
      inr (print-status (Api.bootstrap_vpn json network (client_of c) _ key s), inr (c, refl))
  execute-Ends c none (users_create name) s = inr (omega arith, inl refl)
  execute-Ends c (some key) (users_create name) s =
      inr (print-status (Api.create_user json network (client_of c) name key s), inr (c, refl))

  configured-Ends :
      (configuration : Config.Loaded Config.Client) (draw : Option String) (command : Command)
      (s : S)
      → Ends configuration s (configured json network configuration draw command s)
  configured-Ends (Config.rejected e) draw command s = inl (refl, refl)
  configured-Ends (Config.loaded c) draw command s = execute-Ends c draw command s

  -- Whatever its arguments are, `lego-vpnctl` exits with 2 and has left the API alone, or it exits with
  -- 0 or 1, and it has called the API only where its configuration is loaded.
  pub run-Ends :
      (configuration : Config.Loaded Config.Client) (draw : Option String) (arguments : List String)
      (s : S)
      → Ends configuration s (run json network configuration draw arguments s)
  unfolding run
  run-Ends configuration draw [] s = inl (refl, refl)
  run-Ends configuration draw (a ∷ []) s = elim (Bool-cases (a == "version")) [
    | inl version ↦ rw version (inr (omega arith, inl refl))
    | inr other ↦ rw other (configured-Ends configuration draw (command_of (a ∷ [])) s)
  ]
  run-Ends configuration draw (a ∷ b ∷ rest) s =
      configured-Ends configuration draw (command_of (a ∷ b ∷ rest)) s

command_of-create :
    (word : String) (words : List String)
    → command_of ("users" ∷ "create" ∷ word ∷ words)
      ≡ users_create (trim_space (join (word ∷ words)))
unfolding command_of string_eq join
command_of-create word [] = refl
command_of-create word (b ∷ []) = refl
command_of-create word (b ∷ c ∷ []) = refl
command_of-create word (b ∷ c ∷ d ∷ rest) = refl

module _ {S : Type 0} (sha256 : String → List ℕ) (ports : Ports S) (decoders : Decoders)
    (json : Json) where
  pub run-create_user :
      (c : Config.Client) (key word : String) (words : List String) (s : S)
      → is_empty c.api_token ≡ false
      → is_empty c.admin_id ≡ false
      → decoders.name_body (json.write_name (trim_space (join (word ∷ words))))
        ≡ single (trim_space (join (word ∷ words)))
      → length (json.write_name (trim_space (join (word ∷ words)))) ≤ max_request_body
      → run json
          (api sha256 ports decoders json (client_of c))
          (Config.loaded c)
          (some key)
          ("users" ∷ "create" ∷ word ∷ words)
          s
        ≡ print_result (
            served json.read_user user_response (
              ports.create_user
                (record {
                  admin_id = c.admin_id;
                  name = trim_space (join (word ∷ words));
                  idempotency_key = key;
                })
                s))
  unfolding run execute
  run-create_user c key word words s named known read small = rw (command_of-create word words) (
      ap print_result (
        create_user-serve sha256 ports decoders json (client_of c)
          (trim_space (join (word ∷ words))) key s named known read small))
