-- ===== src/Config.antt =====
-- internal/config: what each process reads from its environment. `filepath.IsAbs` is that of Unix.
pub mod Agreement
mod Tests
use ez_vpn_lego.Prelude.{
  ℕ, String, Bool, true, false, not, ◌&&◌, ◌||◌, Option, none, some, List, ltb, ◌==◌, nat_eq,
  if◌then◌else◌,
}
use ez_vpn_lego.Prelude.Text.{is_empty, byte_length, trim_space, code_of}
use ez_vpn_lego.Secretbox as Secret
use ez_vpn_lego.Secretbox.{parse_key}

-- `os.Getenv`, where a variable that is not set is empty, and `os.ReadFile`.
pub record Environment : Type 0 where
  pub variable : String → String
  pub file : String → Option String

pub data ConfigError : Type 0 where
  required : String → ConfigError
  not_absolute token_length : ConfigError
  unreadable : String → ConfigError
  bad_key : Secret.SecretError → ConfigError

pub data Loaded (V : Type 0) : Type 0 where
  rejected : ConfigError → Loaded V
  loaded : V → Loaded V

infixl 5 ◌>>=◌ ◌>>◌
abbrev pub ◌>>=◌ : {V W : Type 0} → Loaded V → (V → Loaded W) → Loaded W
rejected e >>= next = rejected e
loaded v >>= next = next v

abbrev pub ◌>>◌ : {W : Type 0} → Loaded (Unit {0}) → Loaded W → Loaded W
rejected e >> next = rejected e
loaded v >> next = next

abbrev pub require : Bool → ConfigError → Loaded (Unit {0})
require true e = loaded tt
require false e = rejected e

abbrev pub default_socket_path : String
default_socket_path = "/run/ez-vpn-lego/control.sock"

-- `filepath.IsAbs`
unfoldable pub is_abs : String → Bool
is_abs String.[] = false
is_abs (String.◌∷◌ c s) = code_of c == b'/'

abbrev pub or_default : String → String → String
or_default value fallback = if is_empty value then fallback else value

abbrev trimmed_file : String → Option String → Loaded String
trimmed_file label none = rejected (unreadable label)
trimmed_file label (some content) = loaded (trim_space content)

abbrev by_key : Secret.Result (List ℕ) → Loaded (List ℕ)
by_key (Secret.sealed_out e) = rejected (bad_key e)
by_key (Secret.done key) = loaded key

pub record Client : Type 0 where
  pub socket_path : String
  pub api_token : String
  pub admin_id : String

pub record Daemon : Type 0 where
  pub database_url : String
  pub socket_path : String
  pub api_token : String
  pub master_key : List ℕ
  pub helper_socket : String
  pub helper_token : String
  pub candidate_directory : String

pub record Helper : Type 0 where
  pub socket_path : String
  pub token : String
  pub candidate_directory : String
  pub xray_binary : String
  pub xray_configuration : String
  pub xray_unit : String

pub record Bot : Type 0 where
  pub token : String
  pub server_url : String
  pub client : Client

-- The test on a token.
abbrev pub has_length : ℕ → ℕ → String → Bool
has_length low high token = not (ltb (byte_length token) low || ltb high (byte_length token))

drop_slashes : String → String
drop_slashes String.[] = String.[]
drop_slashes (String.◌∷◌ c s) =
    let rest = drop_slashes s in
    if is_empty rest && code_of c == b'/' then String.[] else String.◌∷◌ c rest

module _ (env : Environment) where
  -- `strings.TrimSpace(os.Getenv(name))`
  abbrev pub setting : String → String
  setting name = trim_space (env.variable name)

  -- `valueOrDefault`
  abbrev pub value_or_default : String → String → String
  value_or_default name fallback = or_default (setting name) fallback

  -- `readSecret`
  unfoldable pub read_secret : String → String → Loaded String
  read_secret path label = trimmed_file label (env.file path)

  -- A token whose file a variable names, with a length between two bounds.
  unfoldable pub read_token : String → String → ℕ → ℕ → Loaded String
  read_token name label low high = do
    require (not (is_empty (setting name))) (required name)
    token ← read_secret (setting name) label
    require (has_length low high token) token_length
    loaded token

  -- The administrator's ID, which a file overrides.
  unfoldable pub read_admin_id : Loaded String
  read_admin_id =
      if is_empty (setting "EZVPN_ADMIN_ID_FILE")
      then loaded (setting "EZVPN_ADMIN_ID")
      else read_secret (setting "EZVPN_ADMIN_ID_FILE") "administrator ID"

  -- `LoadClient`
  unfoldable pub load_client : Loaded Client
  load_client = do
    let socket_path : String = value_or_default "EZVPN_SOCKET_PATH" default_socket_path
    require (is_abs socket_path) not_absolute
    api_token ← read_token "EZVPN_API_TOKEN_FILE" "API token" 32 4096
    admin_id ← read_admin_id
    loaded (record { socket_path = socket_path; api_token = api_token; admin_id = admin_id })

  -- `LoadBot`
  unfoldable pub load_bot : Loaded Bot
  unfolding drop_slashes
  load_bot = do
    token ← read_token "EZVPN_TELEGRAM_TOKEN_FILE" "Telegram bot token" 20 256
    client ← load_client
    loaded (record {
      token = token;
      server_url = drop_slashes (setting "EZVPN_TELEGRAM_API_URL");
      client = client;
    })

  -- `LoadHelper`
  unfoldable pub load_helper : Loaded Helper
  load_helper = do
    let socket_path : String =
        value_or_default "EZVPN_HELPER_SOCKET_PATH" "/run/ez-vpn-lego/helper.sock"
    let directory : String =
        value_or_default "EZVPN_CANDIDATE_DIR" "/var/lib/ez-vpn-lego/candidates"
    let binary : String = value_or_default "EZVPN_XRAY_BINARY" "/usr/local/bin/xray"
    let configuration : String = value_or_default "EZVPN_XRAY_CONFIG" "/etc/xray/config.json"
    require (is_abs socket_path && is_abs directory && is_abs binary && is_abs configuration)
        not_absolute
    token ← read_token "EZVPN_HELPER_TOKEN_FILE" "helper token" 32 4096
    loaded (record {
      socket_path = socket_path;
      token = token;
      candidate_directory = directory;
      xray_binary = binary;
      xray_configuration = configuration;
      xray_unit = value_or_default "EZVPN_XRAY_UNIT" "xray.service";
    })

  -- The master key.
  unfoldable pub read_master_key : Loaded (List ℕ)
  read_master_key = do
    require (not (is_empty (setting "EZVPN_MASTER_KEY_FILE"))) (required "EZVPN_MASTER_KEY_FILE")
    encoded ← read_secret (setting "EZVPN_MASTER_KEY_FILE") "master key"
    by_key (parse_key encoded)

  -- `LoadDaemon`
  unfoldable pub load_daemon : Loaded Daemon
  load_daemon = do
    let socket_path : String = value_or_default "EZVPN_SOCKET_PATH" default_socket_path
    let helper_socket : String =
        value_or_default "EZVPN_HELPER_SOCKET_PATH" "/run/ez-vpn-lego/helper.sock"
    let directory : String =
        value_or_default "EZVPN_CANDIDATE_DIR" "/var/lib/ez-vpn-lego/candidates"
    require (not (is_empty (setting "EZVPN_DATABASE_URL"))) (required "EZVPN_DATABASE_URL")
    require (is_abs socket_path) not_absolute
    require (is_abs helper_socket && is_abs directory) not_absolute
    api_token ← read_token "EZVPN_API_TOKEN_FILE" "API token" 32 4096
    master_key ← read_master_key
    helper_token ← read_token "EZVPN_HELPER_TOKEN_FILE" "helper token" 32 4096
    loaded (record {
      database_url = setting "EZVPN_DATABASE_URL";
      socket_path = socket_path;
      api_token = api_token;
      master_key = master_key;
      helper_socket = helper_socket;
      helper_token = helper_token;
      candidate_directory = directory;
    })
