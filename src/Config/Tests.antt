-- ===== src/Config/Tests.antt =====
-- The configurations that one environment gives the three processes.
use ez_vpn_lego.Prelude.{
  ◌≡◌, refl, ℕ, String, some, List, [], ◌∷◌, ◌==◌, string_eq, nat_eq, if◌then◌else◌,
}
use ez_vpn_lego.Prelude.Text.{byte_length, trim_space}
use ez_vpn_lego.Prelude.Base64.{base64_decode}
use ez_vpn_lego.Secretbox.{parse_key}
use package.ez_vpn_lego.Config.{
  Environment, loaded, rejected, not_absolute, Client, Daemon, Helper, is_abs, read_secret,
  read_token, read_admin_id, read_master_key, load_client, load_helper, load_daemon,
}
use package.ez_vpn_lego.Config.Agreement.{IsUsable, load_daemon-IsUsable, load_daemon_agrees}

abbrev variables : String → String
variables name =
    if name == "EZVPN_DATABASE_URL"
    then "postgres://db"
    else if name == "EZVPN_API_TOKEN_FILE"
    then "/api"
    else if name == "EZVPN_HELPER_TOKEN_FILE"
    then "/helper"
    else if name == "EZVPN_MASTER_KEY_FILE"
    then " /key "
    else if name == "EZVPN_CANDIDATE_DIR"
    then "/candidates"
    else ""

abbrev token : String
token = "0123456789abcdef0123456789abcdef"

abbrev env : Environment
env = record {
  variable = variables;
  file = λ path. some (
      if path == "/key"
      then " AAAAAAAAAAAAAAAAAAAAAAAAAAAAAAAAAAAAAAAAAAA "
      else " 0123456789abcdef0123456789abcdef ");
}

abbrev zeros : List ℕ
zeros =
    0 ∷ 0 ∷ 0 ∷ 0 ∷ 0 ∷ 0 ∷ 0 ∷ 0 ∷ 0 ∷ 0 ∷ 0 ∷ 0 ∷ 0 ∷ 0 ∷ 0 ∷ 0 ∷ 0 ∷ 0 ∷ 0 ∷ 0 ∷ 0 ∷ 0 ∷ 0 ∷ 0
    ∷ 0 ∷ 0 ∷ 0 ∷ 0 ∷ 0 ∷ 0 ∷ 0 ∷ 0 ∷ []

abbrev daemon : Daemon
daemon = record {
  database_url = "postgres://db";
  socket_path = "/run/ez-vpn-lego/control.sock";
  api_token = token;
  master_key = zeros;
  helper_socket = "/run/ez-vpn-lego/helper.sock";
  helper_token = token;
  candidate_directory = "/candidates";
}

abbrev helper : Helper
helper = record {
  socket_path = "/run/ez-vpn-lego/helper.sock";
  token = token;
  candidate_directory = "/candidates";
  xray_binary = "/usr/local/bin/xray";
  xray_configuration = "/etc/xray/config.json";
  xray_unit = "xray.service";
}

abbrev client : Client
client = record { socket_path = "/run/ez-vpn-lego/control.sock"; api_token = token; admin_id = "" }

daemon_loads : load_daemon env ≡ loaded daemon
unfolding load_daemon is_abs read_token read_secret read_master_key parse_key base64_decode
    trim_space byte_length string_eq nat_eq
daemon_loads = refl

helper_loads : load_helper env ≡ loaded helper
unfolding load_helper is_abs read_token read_secret trim_space byte_length string_eq nat_eq
helper_loads = refl

client_loads : load_client env ≡ loaded client
unfolding load_client is_abs read_token read_secret read_admin_id trim_space byte_length string_eq
    nat_eq
client_loads = refl

relative_path :
    load_client
      (record env { variable = λ name. if name == "EZVPN_SOCKET_PATH" then "run" else "" })
    ≡ rejected not_absolute
unfolding load_client is_abs trim_space string_eq nat_eq
relative_path = refl

load_daemon-IsUsable_example : IsUsable daemon
load_daemon-IsUsable_example = load_daemon-IsUsable env daemon daemon_loads

load_daemon_agrees_example :
    (client.socket_path ≡ daemon.socket_path)
    × (client.api_token ≡ daemon.api_token)
    × (daemon.helper_socket ≡ helper.socket_path)
    × (daemon.helper_token ≡ helper.token)
    × (daemon.candidate_directory ≡ helper.candidate_directory)
load_daemon_agrees_example =
    load_daemon_agrees env daemon helper client daemon_loads helper_loads client_loads
