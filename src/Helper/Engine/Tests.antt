-- ===== src/Helper/Engine/Tests.antt =====
-- `Engine.Apply` at concrete data, for a checksum that is always zero.
use ez_vpn_lego.Prelude.{
  ◌≡◌, refl, ℕ, ◌<>◌, true, false, Option, none, some, List, [], ◌∷◌, ◌==◌, string_eq, nat_eq,
  bytes_eq, if◌then◌else◌,
}
use ez_vpn_lego.Prelude.Text.{byte_length, hex_decode}
use ez_vpn_lego.Uuid.{matches_revision}
use ez_vpn_lego.Helper.Disk.{File, World, WriteFaults, atomic_write, rollback}
use ez_vpn_lego.Helper.Engine.{
  ApplyRequest, Engine, Env, ApplyError, previous_configuration_restored, limit_read, exceeds,
  is_unsafe, open_file, check_file, read_candidate, read_current, equal_hex, validate,
  candidate_path, vet, recover, settle, install, prepare, carry_out, apply,
}
use ez_vpn_lego.Helper.Engine.Vetting.{IsVetted}
use ez_vpn_lego.Helper.Engine.Recovery.{installed}
use ez_vpn_lego.Helper.Engine.Outcomes.{
  IsApart, apply_ok, apply_failed, apply_restored, apply-others,
}

abbrev zeros : List ℕ
zeros =
    0 ∷ 0 ∷ 0 ∷ 0 ∷ 0 ∷ 0 ∷ 0 ∷ 0 ∷ 0 ∷ 0 ∷ 0 ∷ 0 ∷ 0 ∷ 0 ∷ 0 ∷ 0 ∷ 0 ∷ 0 ∷ 0 ∷ 0 ∷ 0 ∷ 0 ∷ 0 ∷ 0
    ∷ 0 ∷ 0 ∷ 0 ∷ 0 ∷ 0 ∷ 0 ∷ 0 ∷ 0 ∷ []

abbrev digest : List ℕ → List ℕ
digest content = zeros

abbrev calm : WriteFaults
calm = record {
  mkdir = false;
  create = false;
  chmod = false;
  write = false;
  written = 0;
  sync = false;
  close = false;
  rename = false;
  cleanup = false;
}

abbrev env : Env
env = record {
  inspect_candidate_fails = false;
  open_candidate_fails = false;
  read_candidate_fails = false;
  accepts = λ content. true;
  inspect_current_fails = false;
  read_current_fails = false;
  install = calm;
  install_temporary = "t1";
  restore = calm;
  restore_temporary = "t2";
  remove_fails = false;
  restart_fails = false;
  recovery_fails = false;
}

abbrev engine : Engine
engine = record { candidate_directory = "c"; configuration_path = "config" }

abbrev request : ApplyRequest
request = record {
  revision_id = "00ff1122-3344-4f66-bf88-99aabbccddee";
  checksum = "0000000000000000000000000000000000000000000000000000000000000000";
}

abbrev old : File
old = record { content = 7 ∷ []; mode = 0o600; regular = true }

abbrev new : File
new = record { content = 8 ∷ 9 ∷ []; mode = 0o600; regular = true }

abbrev start : World
start = record {
  disk = λ q.
      if q == "config"
      then some old
      else if q == "c/00ff1122-3344-4f66-bf88-99aabbccddee.json"
      then some new
      else none;
  unsynced = λ q. false;
  history = [];
  running = some old;
}

is_apart : (e : Env) → e.install_temporary ≡ "t1" → e.restore_temporary ≡ "t2" → IsApart engine e
is_apart e p q = record { install_apart = λ h. cc; restore_apart = λ h. cc }

run : Env → Option ApplyError × World
unfolding apply carry_out prepare install settle recover vet validate equal_hex read_current
    read_candidate check_file open_file is_unsafe exceeds limit_read candidate_path string_eq nat_eq
    bytes_eq ◌<>◌ byte_length hex_decode matches_revision atomic_write rollback
run e = apply digest engine e request start

ran : (run env).0 ≡ none
unfolding run
ran = refl

-- The restart fails and the recovery does not.
restored : (run (record env { restart_fails = true })).0 ≡ some previous_configuration_restored
unfolding run
restored = refl

abbrev failing : Env
failing = record env { restart_fails = true }

apply_ok_example :
    (file : File) × IsVetted digest engine env request start.disk file
    × ((apply digest engine env request start).1.disk "config" ≡ some (installed file.content))
    × ((apply digest engine env request start).1.running ≡ some (installed file.content))
unfolding run
apply_ok_example = apply_ok digest engine env request start (is_apart env refl refl) ran

apply_failed_example : (apply digest engine failing request start).1.disk "config" ≡ some old
unfolding run
apply_failed_example =
    apply_failed digest engine failing request start (is_apart failing refl refl) (λ e. cc)
      (λ e. cc)

apply_restored_example :
    ((apply digest engine failing request start).1.running ≡ some old)
    × ((apply digest engine failing request start).1.disk "config" ≡ some old)
unfolding run
apply_restored_example =
    apply_restored digest engine failing request start (is_apart failing refl refl) restored

apply-others_example : (apply digest engine env request start).1.disk "other" ≡ none
unfolding string_eq
apply-others_example =
    apply-others digest engine env request start (is_apart env refl refl) "other" (λ e. cc)
      (λ e. cc) (λ e. cc)
