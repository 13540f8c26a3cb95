-- ===== src/Reality/Tests.antt =====
-- The driver at concrete data, for an encoder that keeps the number of clients.
use ez_vpn_lego.Prelude.{
  ◌≡◌, ◌↔◌, refl, ℕ, ◌<>◌, String, Bool, true, Option, some, none, List, [], ◌∷◌, ◌++◌, map,
  string_eq, nat_eq,
}
use ez_vpn_lego.Prelude.Text.{hex_decode}
use ez_vpn_lego.Prelude.Order.{Reordered, exchange, IsSorted}
use ez_vpn_lego.Reality.{
  Credential, Settings, Config, made, validate_credential, validate_credentials, validate_state,
  render, configuration, share_uri, itoa, join_host_port, encode_query, client_key, client_of,
  clients_of,
}
use ez_vpn_lego.Reality.Checked.{AreChecked, validate_credentials_iff}
use ez_vpn_lego.Reality.Order.{AreComplete, render-Reordered, render_made}

abbrev anna : Credential
anna = record { id = "c1"; uuid = "u9"; short_id = "00112233aabbccdd"; label = "Anna" }

abbrev boris : Credential
boris = record { id = "c2"; uuid = "u1"; short_id = "ffffffffffffffff"; label = "Boris" }

abbrev settings : Settings
settings = record {
  listen = "0.0.0.0";
  port = 443;
  target = "example.org:443";
  server_names = "example.org" ∷ [];
  private_key = "k";
  log_level = "";
}

abbrev any : String → Bool
any s = true

abbrev encode : Config → Option (List ℕ)
encode c = some (1 ∷ [])

valid : validate_state any (record { settings = settings; credentials = anna ∷ boris ∷ [] }) ≡ none
unfolding validate_state validate_credentials validate_credential hex_decode string_eq nat_eq
valid = refl

validate_credentials_iff_example :
    (validate_credentials [] [] (anna ∷ boris ∷ []) ≡ none) ↔ AreChecked (anna ∷ boris ∷ [])
validate_credentials_iff_example = validate_credentials_iff (anna ∷ boris ∷ [])

render-Reordered_example :
    render any encode (record { settings = settings; credentials = boris ∷ anna ∷ [] })
    ≡ render any encode (record { settings = settings; credentials = anna ∷ boris ∷ [] })
render-Reordered_example =
    render-Reordered any encode settings (anna ∷ boris ∷ []) (boris ∷ anna ∷ [])
      (exchange anna boris []) valid

rendered :
    render any encode (record { settings = settings; credentials = anna ∷ boris ∷ [] })
    ≡ made (1 ∷ 10 ∷ [])
unfolding render validate_state validate_credentials validate_credential hex_decode string_eq nat_eq
rendered = refl

render_made_example :
    AreComplete any settings
    × AreChecked (anna ∷ boris ∷ [])
    × ((bytes : List ℕ) × (encode
            (configuration (record { settings = settings; credentials = anna ∷ boris ∷ [] }))
          ≡ some bytes)
        × (◌≡◌ {A = List ℕ} (1 ∷ 10 ∷ []) (bytes ++ (10 ∷ []))))
    × IsSorted client_key (clients_of (anna ∷ boris ∷ []))
    × Reordered (map client_of (anna ∷ boris ∷ [])) (clients_of (anna ∷ boris ∷ []))
render_made_example = render_made any encode settings (anna ∷ boris ∷ []) rendered

shared :
    share_uri any (λ s. s) (λ s. s) "2001:db8::1" 8443 "p" "example.org" anna
    ≡ made
        "vless://u9@[2001:db8::1]:8443?encryption=none&flow=xtls-rprx-vision&fp=chrome&pbk=p&security=reality&sid=00112233aabbccdd&sni=example.org&type=tcp#Anna"
unfolding share_uri itoa join_host_port encode_query validate_credential hex_decode nat_eq ◌<>◌
shared = refl
