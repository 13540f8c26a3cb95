-- ===== src/Helper/Disk/Tests.antt =====
-- The theorems on writes at concrete data.
use ez_vpn_lego.Prelude.{
  ◌≢◌, refl, String, true, false, none, some, [], ◌∷◌, All, ◌==◌, string_eq, if◌then◌else◌,
}
use ez_vpn_lego.Helper.Disk.{File, World, moment, WriteFaults, atomic_write}
use ez_vpn_lego.Helper.Disk.Laws.{IsWhole, atomic_write-IsWhole}

abbrev calm : WriteFaults
calm = record {
  mkdir = false;
  create = false;
  chmod = false;
  write = false;
  written = 0;
  sync = false;
  close = false;
  rename = false;
  cleanup = false;
}

-- The disk is full: one byte of two is written.
abbrev full : WriteFaults
full = record calm { write = true; written = 1 }

abbrev old : File
old = record { content = 7 ∷ []; mode = 0o600; regular = true }

abbrev start : World
start = record {
  disk = λ q. if q == "config" then some old else none;
  unsynced = λ q. false;
  history = [];
  running = some old;
}

apart : ◌≢◌ {A = String} "temporary" "config"
unfolding string_eq
apart e = cc

atomic_write-IsWhole_example :
    All (IsWhole "temporary" calm "config" (1 ∷ 2 ∷ []) 0o640 start apart) (
      moment (atomic_write "temporary" calm "config" (1 ∷ 2 ∷ []) 0o640 start).1
      ∷ (atomic_write "temporary" calm "config" (1 ∷ 2 ∷ []) 0o640 start).1.history)
atomic_write-IsWhole_example =
    atomic_write-IsWhole "temporary" calm "config" (1 ∷ 2 ∷ []) 0o640 start apart refl tt
