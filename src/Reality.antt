-- ===== src/Reality.antt =====
-- drivers/xray/reality/driver.go: the configuration of Xray, and the URI that a client imports.
-- Key pairs and short IDs come as the answers of the random source. `valid_target` says for which
-- texts `net.SplitHostPort` has no error, `is_ip` for which `net.ParseIP` is not nil.
pub mod Checked
pub mod Order
mod Tests
use ez_vpn_lego.Prelude.{
  ℕ, zero, suc, ◌+◌, ◌/◌, ◌%◌, String, ◌<>◌, Bool, true, false, not, ◌&&◌, ◌||◌, Option, none, some,
  List, [], ◌∷◌, ◌++◌, map, length, ltb, contains, ◌==◌, nat_eq, string_eq, if◌then◌else◌,
}
use ez_vpn_lego.Prelude.Text.{codes, is_empty, trim_space, hex_encode, hex_decode, hex_char}
use ez_vpn_lego.Prelude.Order.{sort_by}

abbrev pub driver_name : String
driver_name = "xray-reality-vision"

pub record KeyPair : Type 0 where
  pub private_key : String
  pub public_key : String

pub record Credential : Type 0 where
  pub id : String
  pub uuid : String
  pub short_id : String
  pub label : String

-- A port is a number below 65536.
pub record Settings : Type 0 where
  pub listen : String
  pub port : ℕ
  pub target : String
  pub server_names : List String
  pub private_key : String
  pub log_level : String

pub record State : Type 0 where
  pub settings : Settings
  pub credentials : List Credential

pub data RealityError : Type 0 where
  entropy_failed listen_required invalid_target names_required : RealityError
  credential_required invalid_short_id duplicate_uuid duplicate_short_id : RealityError
  encoding_failed address_required uri_parts_required : RealityError

pub data Result {ℓ} (Value : Type ℓ) : Type ℓ where
  refused : RealityError → Result Value
  made : Value → Result Value

-- `GenerateShortID`: the eight bytes that `rand.Read` gives, or `none` for its error.
unfoldable pub generate_short_id : Option (List ℕ) → Result String
generate_short_id none = refused entropy_failed
generate_short_id (some value) = made (hex_encode value)

abbrev is_eight : Option (List ℕ) → Bool
is_eight none = false
is_eight (some decoded) = length decoded == 8

-- `validateCredential`; `none` is success.
unfoldable pub validate_credential : Credential → Option RealityError
validate_credential c =
    if is_empty c.id || is_empty c.uuid
    then some credential_required
    else if is_eight (hex_decode c.short_id)
    then none
    else some invalid_short_id

abbrev pub after : Option RealityError → Option RealityError → Option RealityError
after none rest = rest
after (some e) rest = some e

-- The loop of `validateState`, with the keys of its two maps.
unfoldable pub validate_credentials :
    List String → List String → List Credential → Option RealityError
validate_credentials uuids short_ids [] = none
validate_credentials uuids short_ids (c ∷ cs) =
    let rest = validate_credentials (c.uuid ∷ uuids) (c.short_id ∷ short_ids) cs in
    after (validate_credential c) (
      if contains uuids c.uuid
      then some duplicate_uuid
      else if contains short_ids c.short_id
      then some duplicate_short_id
      else rest)

-- The structures that are encoded as JSON.
pub record Client : Type 0 where
  pub id : String
  pub flow : String
  pub email : String

pub record RealitySettings : Type 0 where
  pub show : Bool
  pub target : String
  pub xver : ℕ
  pub server_names : List String
  pub private_key : String
  pub short_ids : List String

pub record StreamSettings : Type 0 where
  pub network : String
  pub security : String
  pub reality : RealitySettings

pub record Sniffing : Type 0 where
  pub enabled : Bool
  pub dest_override : List String
  pub route_only : Bool

pub record InboundSettings : Type 0 where
  pub clients : List Client
  pub decryption : String

pub record Inbound : Type 0 where
  pub listen : String
  pub port : ℕ
  pub protocol : String
  pub settings : InboundSettings
  pub stream_settings : StreamSettings
  pub sniffing : Sniffing

pub record Outbound : Type 0 where
  pub protocol : String
  pub tag : String

pub record Config : Type 0 where
  pub log_level : String
  pub inbounds : List Inbound
  pub outbounds : List Outbound

abbrev pub client_of : Credential → Client
client_of c = record { id = c.uuid; flow = "xtls-rprx-vision"; email = c.id }

abbrev pub client_key : Client → List ℕ
client_key c = codes c.id

-- The sorted slices of `Render`.
abbrev pub clients_of : List Credential → List Client
clients_of cs = sort_by client_key (map client_of cs)

abbrev pub short_ids_of : List Credential → List String
short_ids_of cs = sort_by codes (map (λ (c : Credential). c.short_id) cs)

-- The configuration that `Render` builds.
unfoldable pub configuration : State → Config
configuration state =
    let s = state.settings in
    record {
      log_level = if is_empty s.log_level then "warning" else s.log_level;
      inbounds =
          record {
            listen = s.listen;
            port = s.port;
            protocol = "vless";
            settings = record { clients = clients_of state.credentials; decryption = "none" };
            stream_settings = record {
              network = "raw";
              security = "reality";
              reality = record {
                show = false;
                target = s.target;
                xver = 0;
                server_names = s.server_names;
                private_key = s.private_key;
                short_ids = short_ids_of state.credentials;
              };
            };
            sniffing = record {
              enabled = true;
              dest_override = "http" ∷ "tls" ∷ "quic" ∷ [];
              route_only = true;
            };
          }
          ∷ [];
      outbounds =
          record { protocol = "freedom"; tag = "direct" }
          ∷ record { protocol = "blackhole"; tag = "block" }
          ∷ [];
    }

abbrev pub is_nil : List String → Bool
is_nil [] = true
is_nil (s ∷ ss) = false

abbrev pub encoded : Option (List ℕ) → Result (List ℕ)
encoded none = refused encoding_failed
encoded (some bytes) = made (bytes ++ (10 ∷ []))

abbrev pub finish : (Config → Option (List ℕ)) → State → Option RealityError → Result (List ℕ)
finish encode state (some e) = refused e
finish encode state none = encoded (encode (configuration state))

module _ (valid_target : String → Bool) where
  -- `validateState`
  unfoldable pub validate_state : State → Option RealityError
  validate_state state =
      let s = state.settings in
      if is_empty s.listen || s.port == 0
      then some listen_required
      else if not (valid_target s.target)
      then some invalid_target
      else if is_nil s.server_names || is_empty s.private_key
      then some names_required
      else validate_credentials [] [] state.credentials

  -- `Render`. `encode` is `json.MarshalIndent`, or `none` where that has an error.
  unfoldable pub render : (Config → Option (List ℕ)) → State → Result (List ℕ)
  render encode state = finish encode state (validate_state state)

-- `strconv.Itoa` for a number that has as many digits as the fuel at most.
digits : ℕ → ℕ → String
digits zero n = ""
digits (suc fuel) n =
    let more = digits fuel (n / 10) in
    let last = String.◌∷◌ (hex_char (n % 10)) "" in if ltb n 10 then last else more <> last

-- A port has five digits at most.
unfoldable pub itoa : ℕ → String
unfolding digits hex_char
itoa port = digits 5 port

has_colon : List ℕ → Bool
has_colon [] = false
has_colon (c ∷ cs) = c == 58 || has_colon cs

-- `net.JoinHostPort`
unfoldable pub join_host_port : String → String → String
unfolding has_colon
join_host_port host port =
    if has_colon (codes host) then "[" <> host <> "]:" <> port else host <> ":" <> port

-- `url.Values.Encode`: the keys in order, which the source writes them in.
unfoldable pub encode_query : (String → String) → List (String × String) → String
encode_query escape [] = ""
encode_query escape ((k, v) ∷ []) = escape k <> "=" <> escape v
encode_query escape ((k, v) ∷ kv ∷ kvs) =
    escape k <> "=" <> escape v <> "&" <> encode_query escape (kv ∷ kvs)

module _ (is_ip : String → Bool) (query_escape path_escape : String → String) where
  abbrev checked_uri : Option RealityError → String → Result String
  checked_uri (some e) uri = refused e
  checked_uri none uri = made uri

  -- `ShareURI`
  unfoldable pub share_uri : String → ℕ → String → String → Credential → Result String
  share_uri address port public_key server_name c =
      if not (is_ip address) && is_empty (trim_space address)
      then refused address_required
      else if port == 0 || is_empty public_key || is_empty server_name
      then refused uri_parts_required
      else checked_uri (validate_credential c) (
          "vless://"
          <> c.uuid
          <> "@"
          <> join_host_port address (itoa port)
          <> "?"
          <> encode_query query_escape (
              ("encryption", "none")
              ∷ ("flow", "xtls-rprx-vision")
              ∷ ("fp", "chrome")
              ∷ ("pbk", public_key)
              ∷ ("security", "reality")
              ∷ ("sid", c.short_id)
              ∷ ("sni", server_name)
              ∷ ("type", "tcp")
              ∷ [])
          <> "#"
          <> path_escape c.label)
