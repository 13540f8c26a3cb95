-- ===== src/Config/Agreement.antt =====
-- internal/config: what a configuration that loads is, and what the processes agree on.
use ez_vpn_lego.Prelude.{
  ◌≡◌, refl, sym, ap, ◌∙◌, ℕ, ◌≤◌, String, Bool, true, false, not, ◌&&◌, Option, none, some, List,
  length, ◌==◌, nat_eq, and_true, eq_sound, if◌then◌else◌, arith,
}
use ez_vpn_lego.Prelude.Text.{is_empty, byte_length}
use ez_vpn_lego.Secretbox as Secret
use ez_vpn_lego.Prelude.Base64.{base64_decode}
use ez_vpn_lego.Secretbox.{parse_key, of_length}
use package.ez_vpn_lego.Config.{
  Environment, ConfigError, required, not_absolute, token_length, Loaded, loaded, rejected, ◌>>=◌,
  ◌>>◌, require, is_abs, default_socket_path, has_length, setting, value_or_default, read_secret,
  read_token, read_admin_id, read_master_key, by_key, Client, Daemon, Helper, load_client,
  load_helper, load_daemon,
}

bound :
    {V W : Type 0} {w : W} (step : Loaded V) (next : V → Loaded W)
    → (step >>= next) ≡ loaded w
    → (v : V) × (step ≡ loaded v) × (next v ≡ loaded w)
bound (rejected e) next h = cc
bound (loaded v) next h = (v, refl, h)

passed :
    {W : Type 0} {w : W} (test : Bool) (e : ConfigError) (next : Loaded W)
    → (require test e >> next) ≡ loaded w
    → (test ≡ true) × (next ≡ loaded w)
passed true e next h = (refl, h)
passed false e next h = cc

loaded_same : {V : Type 0} {v w : V} → loaded v ≡ loaded w → v ≡ w
loaded_same h = cc

abbrev pub HasLength : ℕ → ℕ → String → Type 0
HasLength low high token = (low ≤ byte_length token) × (byte_length token ≤ high)

has_length_sound :
    (low high : ℕ) (token : String) → has_length low high token ≡ true → HasLength low high token
has_length_sound low high token h = ground arith

length-parse_key :
    (encoded : String) (key : List ℕ) → by_key (parse_key encoded) ≡ loaded key → length key ≡ 32
unfolding parse_key
length-parse_key encoded key h = decided (base64_decode encoded) key h
  where
    measured :
        (k key : List ℕ) (test : Bool)
        → (length k == 32) ≡ test
        → by_key (if test then Secret.done k else Secret.sealed_out Secret.key_length) ≡ loaded key
        → length key ≡ 32
    measured k key true fits h =
        let same : k ≡ key = cc in ap length (sym same) ∙ eq_sound (length k) 32 fits
    measured k key false fits h = cc

    decided :
        (o : Option (List ℕ)) (key : List ℕ) → by_key (of_length o) ≡ loaded key → length key ≡ 32
    decided none key h = cc
    decided (some k) key h = measured k key (length k == 32) refl h

-- A daemon's configuration that can be used.
pub record IsUsable (d : Daemon) : Type 0 where
  pub url : is_empty d.database_url ≡ false
  pub control : is_abs d.socket_path ≡ true
  pub helper : is_abs d.helper_socket ≡ true
  pub candidates : is_abs d.candidate_directory ≡ true
  pub token : HasLength 32 4096 d.api_token
  pub helper_token : HasLength 32 4096 d.helper_token
  pub key : length d.master_key ≡ 32

module _ (env : Environment) where
  read_token_sound :
      (name label : String) (low high : ℕ) (token : String)
      → read_token env name label low high ≡ loaded token
      → HasLength low high token
  unfolding read_token
  read_token_sound name label low high token h =
      let (named, h1) = passed (not (is_empty (setting env name))) (required name) _ h in
      let (t, read, h2) = bound (read_secret env (setting env name) label) _ h1 in
      let (fits, h3) = passed (has_length low high t) token_length _ h2 in
      let same : t ≡ token = cc in rw (← same) (has_length_sound low high t fits)

  read_master_key_sound : (key : List ℕ) → read_master_key env ≡ loaded key → length key ≡ 32
  unfolding read_master_key
  read_master_key_sound key h =
      let (named, h1) = passed (not (is_empty (setting env "EZVPN_MASTER_KEY_FILE"))) _ _ h in
      let (encoded, read, h2) =
        bound (read_secret env (setting env "EZVPN_MASTER_KEY_FILE") "master key") _ h1 in
      length-parse_key encoded key h2

  abbrev api_token : Loaded String
  api_token = read_token env "EZVPN_API_TOKEN_FILE" "API token" 32 4096

  abbrev helper_token : Loaded String
  helper_token = read_token env "EZVPN_HELPER_TOKEN_FILE" "helper token" 32 4096

  abbrev socket_path : String
  socket_path = value_or_default env "EZVPN_SOCKET_PATH" default_socket_path

  abbrev helper_socket : String
  helper_socket = value_or_default env "EZVPN_HELPER_SOCKET_PATH" "/run/ez-vpn-lego/helper.sock"

  abbrev directory : String
  directory = value_or_default env "EZVPN_CANDIDATE_DIR" "/var/lib/ez-vpn-lego/candidates"

  -- What a daemon's configuration is made of.
  record DaemonParts (d : Daemon) : Type 0 where
    url : d.database_url ≡ setting env "EZVPN_DATABASE_URL"
    has_url : not (is_empty (setting env "EZVPN_DATABASE_URL")) ≡ true
    control : (d.socket_path ≡ socket_path) × (is_abs socket_path ≡ true)
    helper : (d.helper_socket ≡ helper_socket) × (is_abs helper_socket ≡ true)
    candidates : (d.candidate_directory ≡ directory) × (is_abs directory ≡ true)
    token : api_token ≡ loaded d.api_token
    helper_token : helper_token ≡ loaded d.helper_token
    key : read_master_key env ≡ loaded d.master_key

  load_daemon_parts : (d : Daemon) → load_daemon env ≡ loaded d → DaemonParts d
  unfolding load_daemon
  load_daemon_parts d h =
      let (has_url, h1) = passed (not (is_empty (setting env "EZVPN_DATABASE_URL"))) _ _ h in
      let (control, h2) = passed (is_abs socket_path) not_absolute _ h1 in
      let (both, h3) = passed (is_abs helper_socket && is_abs directory) not_absolute _ h2 in
      let (token, read, h4) = bound api_token _ h3 in
      let (key, decoded, h5) = bound (read_master_key env) _ h4 in
      let (helper, shared, h6) = bound helper_token _ h5 in
      let (helper_abs, directory_abs) = and_true (is_abs helper_socket) (is_abs directory) both in
      let made = loaded_same h6 in
      rw (← made) (record {
        url = refl;
        has_url = has_url;
        control = (refl, control);
        helper = (refl, helper_abs);
        candidates = (refl, directory_abs);
        token = read;
        helper_token = shared;
        key = decoded;
      })

  -- A configuration that `LoadDaemon` returns has a database URL, absolute paths for both sockets and
  -- for the candidates, two tokens of 32 to 4096 bytes, and a master key of 32 bytes.
  pub load_daemon-IsUsable : (d : Daemon) → load_daemon env ≡ loaded d → IsUsable d
  load_daemon-IsUsable d h =
      let p = load_daemon_parts d h in
      record {
        url = ground (arith, p.url, p.has_url);
        control = ap is_abs p.control.0 ∙ p.control.1;
        helper = ap is_abs p.helper.0 ∙ p.helper.1;
        candidates = ap is_abs p.candidates.0 ∙ p.candidates.1;
        token = read_token_sound _ _ 32 4096 d.api_token p.token;
        helper_token = read_token_sound _ _ 32 4096 d.helper_token p.helper_token;
        key = read_master_key_sound d.master_key p.key;
      }

  load_helper_parts :
      (c : Helper)
      → load_helper env ≡ loaded c
      → (c.socket_path ≡ helper_socket)
        × (c.candidate_directory ≡ directory)
        × (helper_token ≡ loaded c.token)
  unfolding load_helper
  load_helper_parts c h =
      let (all, h1) =
        passed (is_abs helper_socket && is_abs directory && is_abs _ && is_abs _) not_absolute _
          h in
      let (token, read, h2) = bound helper_token _ h1 in
      let made = loaded_same h2 in rw (← made) (refl, refl, read)

  load_client_parts :
      (c : Client)
      → load_client env ≡ loaded c
      → (c.socket_path ≡ socket_path) × (api_token ≡ loaded c.api_token)
  unfolding load_client
  load_client_parts c h =
      let (control, h1) = passed (is_abs socket_path) not_absolute _ h in
      let (token, read, h2) = bound api_token _ h1 in
      let (admin_id, named, h3) = bound (read_admin_id env) _ h2 in
      let made = loaded_same h3 in rw (← made) (refl, read)

  -- Where the daemon, the helper and a client load their configurations from one environment, the
  -- client has the socket and the token of the daemon's API, and the daemon has the socket, the token
  -- and the candidate directory of the helper.
  pub load_daemon_agrees :
      (d : Daemon) (helper : Helper) (c : Client)
      → load_daemon env ≡ loaded d
      → load_helper env ≡ loaded helper
      → load_client env ≡ loaded c
      → (c.socket_path ≡ d.socket_path)
        × (c.api_token ≡ d.api_token)
        × (d.helper_socket ≡ helper.socket_path)
        × (d.helper_token ≡ helper.token)
        × (d.candidate_directory ≡ helper.candidate_directory)
  load_daemon_agrees d helper c h k l =
      let p = load_daemon_parts d h in
      let (socket, directory, token) = load_helper_parts helper k in
      let (control, api) = load_client_parts c l in
      (
        control ∙ sym p.control.0,
        loaded_same (sym api ∙ p.token),
        p.helper.0 ∙ sym socket,
        loaded_same (sym p.helper_token ∙ token),
        p.candidates.0 ∙ sym directory,
      )
