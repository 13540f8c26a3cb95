-- ===== src/Services/Samples.antt =====
-- Samples for the services: a checksum that is always zero, a machine on which nothing fails, an
-- administrator.
use ez_vpn_lego.Prelude.{ℕ, String, Bool, true, false, List, [], ◌∷◌}
use ez_vpn_lego.Core.Status.{active}
use ez_vpn_lego.Core.Model.{Admin, owner}
use ez_vpn_lego.Store.Tx.{Link, acknowledged}
use ez_vpn_lego.Helper.Disk.{WriteFaults}
use ez_vpn_lego.Helper.Engine.{Engine, Env}
use ez_vpn_lego.Helper.Engine.Outcomes.{IsApart}

abbrev pub digest : List ℕ → List ℕ
digest content =
    0 ∷ 0 ∷ 0 ∷ 0 ∷ 0 ∷ 0 ∷ 0 ∷ 0 ∷ 0 ∷ 0 ∷ 0 ∷ 0 ∷ 0 ∷ 0 ∷ 0 ∷ 0 ∷ 0 ∷ 0 ∷ 0 ∷ 0 ∷ 0 ∷ 0 ∷ 0 ∷ 0
    ∷ 0 ∷ 0 ∷ 0 ∷ 0 ∷ 0 ∷ 0 ∷ 0 ∷ 0 ∷ []

abbrev pub calm : WriteFaults
calm = record {
  mkdir = false;
  create = false;
  chmod = false;
  write = false;
  written = 0;
  sync = false;
  close = false;
  rename = false;
  cleanup = false;
}

abbrev pub env : Env
env = record {
  inspect_candidate_fails = false;
  open_candidate_fails = false;
  read_candidate_fails = false;
  accepts = λ content. true;
  inspect_current_fails = false;
  read_current_fails = false;
  install = calm;
  install_temporary = "t1";
  restore = calm;
  restore_temporary = "t2";
  remove_fails = false;
  restart_fails = false;
  recovery_fails = false;
}

abbrev pub engine : Engine
engine = record { candidate_directory = "c"; configuration_path = "config" }

abbrev pub admin : Admin
admin = record { id = "a"; role = owner; status = active; created_at = 1; updated_at = 1 }

abbrev pub up : Link
up = record { begin_fails = false; commit_fate = acknowledged }

abbrev pub any : String → Bool
any s = true

pub is_apart : IsApart engine env
is_apart = record { install_apart = λ e. cc; restore_apart = λ e. cc }
