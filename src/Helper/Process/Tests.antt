-- ===== src/Helper/Process/Tests.antt =====
-- A run of the helper in which a stranger is refused and a candidate is installed.
use ez_vpn_lego.Prelude.{
  ◌≡◌, refl, inl, ℕ, String, true, false, none, some, List, [], ◌∷◌, ◌<>◌, map, string_eq, nat_eq,
  bytes_eq, ◌==◌, if◌then◌else◌,
}
use ez_vpn_lego.Prelude.Text.{byte_length, hex_decode, trim_space}
use ez_vpn_lego.Uuid.{matches_revision}
use ez_vpn_lego.Config as Config
use ez_vpn_lego.Http.{Decoded, single, trim_prefix}
use ez_vpn_lego.UnixSocket.{Files, ListenFaults, listen, bound}
use ez_vpn_lego.UnixSocket.Serving.{stopped, Run, ServeError, answer_all, listen_and_serve}
use ez_vpn_lego.Helper.Disk.{World, atomic_write}
use ez_vpn_lego.Helper.Engine.{
  Env, ApplyRequest, apply, carry_out, prepare, vet, read_candidate, check_file, open_file,
  limit_read, exceeds, is_unsafe, read_current, equal_hex, validate, settle, install,
}
use ez_vpn_lego.Helper.Engine.Sound.{AllSound}
use ez_vpn_lego.Helper.Server.{Message, Reply, serve, read_body, is_authorized, apply_xray}
use ez_vpn_lego.Services.Samples.{digest, env, is_apart}
use package.ez_vpn_lego.Helper.Process.{engine_of, handle, run}
use package.ez_vpn_lego.Helper.Process.Invariant.{run-AllSound}

abbrev configuration : Config.Helper
configuration = record {
  socket_path = "/s";
  token = "t";
  candidate_directory = "c";
  xray_binary = "/bin/xray";
  xray_configuration = "config";
  xray_unit = "xray.service";
}

abbrev faults : ListenFaults
faults = record {
  mkdir = false;
  inspect = false;
  remove = false;
  bind = false;
  chmod = false;
  first_mode = 0o755;
}

abbrev hash : String → List ℕ
hash token = if token == "t" then 1 ∷ [] else []

abbrev decode : List ℕ → Decoded ApplyRequest
decode body = single (record {
  revision_id = "00ff1122-3344-4f66-bf88-99aabbccddee";
  checksum = "0000000000000000000000000000000000000000000000000000000000000000";
})

abbrev message : String → Message
message authorization = record {
  method = "POST";
  path = "/v1/xray/apply";
  authorization = authorization;
  body = 1 ∷ [];
}

abbrev calls : List (Env × Message)
calls = (env, message "Bearer x") ∷ (env, message "Bearer t") ∷ []

abbrev files : Files
files path = none

abbrev world : World
world = record {
  disk = λ q.
      if q == "c/00ff1122-3344-4f66-bf88-99aabbccddee.json"
      then some (record { content = 7 ∷ []; mode = 0o600; regular = true })
      else none;
  unsynced = λ q. false;
  history = [];
  running = none;
}

ran : Run ServeError Reply World
unfolding run listen_and_serve answer_all handle listen bound serve read_body is_authorized
    apply_xray string_eq nat_eq bytes_eq byte_length hex_decode trim_space matches_revision apply
    carry_out prepare vet read_candidate check_file open_file limit_read exceeds is_unsafe
    read_current equal_hex validate settle install atomic_write
ran = run digest hash decode configuration faults calls (stopped true) files world

ran_statuses : map (λ (r : Reply). r.status) ran.answers ≡ 401 ∷ 200 ∷ []
unfolding ran ◌<>◌ trim_prefix
ran_statuses = refl

run-AllSound_example :
    AllSound
      (λ content. true)
      none
      (engine_of configuration)
      (run digest hash decode configuration faults calls (stopped true) files world).state
unfolding string_eq
run-AllSound_example =
    run-AllSound digest hash decode configuration (λ content. true) none faults calls (stopped true)
      files world
      (
        record { apart = is_apart; accepted = λ content valid. refl },
        (record { apart = is_apart; accepted = λ content valid. refl }, tt),
      )
      (inl refl, inl refl)
