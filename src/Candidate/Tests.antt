-- ===== src/Candidate/Tests.antt =====
-- A candidate at concrete data, for a checksum that is always zero.
use ez_vpn_lego.Prelude.{◌≡◌, refl, ℕ, String, true, false, none, List, [], ◌∷◌, arith, string_eq}
use ez_vpn_lego.Prelude.Text.{hex_encode}
use ez_vpn_lego.Uuid.{matches_revision}
use ez_vpn_lego.Helper.Disk.{World, WriteFaults}
use ez_vpn_lego.Helper.Engine.{Engine, Env, ok, vet}
use ez_vpn_lego.Candidate.{CandidateFaults, write}
use ez_vpn_lego.Candidate.Handover.{vet-write}

abbrev digest : List ℕ → List ℕ
digest content =
    0 ∷ 0 ∷ 0 ∷ 0 ∷ 0 ∷ 0 ∷ 0 ∷ 0 ∷ 0 ∷ 0 ∷ 0 ∷ 0 ∷ 0 ∷ 0 ∷ 0 ∷ 0 ∷ 0 ∷ 0 ∷ 0 ∷ 0 ∷ 0 ∷ 0 ∷ 0 ∷ 0
    ∷ 0 ∷ 0 ∷ 0 ∷ 0 ∷ 0 ∷ 0 ∷ 0 ∷ 0 ∷ []

abbrev calm : WriteFaults
calm = record {
  mkdir = false;
  create = false;
  chmod = false;
  write = false;
  written = 0;
  sync = false;
  close = false;
  rename = false;
  cleanup = false;
}

abbrev env : Env
env = record {
  inspect_candidate_fails = false;
  open_candidate_fails = false;
  read_candidate_fails = false;
  accepts = λ content. true;
  inspect_current_fails = false;
  read_current_fails = false;
  install = calm;
  install_temporary = "t1";
  restore = calm;
  restore_temporary = "t2";
  remove_fails = false;
  restart_fails = false;
  recovery_fails = false;
}

abbrev engine : Engine
engine = record { candidate_directory = "c"; configuration_path = "config" }

abbrev revision : String
revision = "00ff1122-3344-4f66-bf88-99aabbccddee"

abbrev faults : CandidateFaults
faults = record {
  mkdir = false;
  create = false;
  write = false;
  written = 0;
  sync = false;
  close = false;
}

abbrev start : World
start = record { disk = λ q. none; unsynced = λ q. false; history = []; running = none }

named : matches_revision revision ≡ true
unfolding matches_revision
named = refl

written : (write faults "c" revision (8 ∷ 9 ∷ []) start).0 ≡ none
unfolding write
written = refl

vet-write_example :
    vet digest engine env
      (record { revision_id = revision; checksum = hex_encode (digest (8 ∷ 9 ∷ [])) })
      (write faults "c" revision (8 ∷ 9 ∷ []) start).1.disk
    ≡ ok (8 ∷ 9 ∷ [])
vet-write_example =
    vet-write digest engine env faults revision (8 ∷ 9 ∷ []) start written named (omega arith) refl
      (omega arith) refl (record { inspects = refl; opens = refl; reads = refl })
