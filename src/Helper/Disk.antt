-- ===== src/Helper/Disk.antt =====
-- The files that internal/helper/apply.go touches, and `atomicWrite` and `rollback` over them.
-- A call of the operating system fails if the field of `WriteFaults` that stands for it is true.
pub mod Laws
mod Tests
use ez_vpn_lego.Prelude.{
  ◌≡◌, ℕ, String, Bool, true, false, Option, none, some, List, [], ◌∷◌, take, Eq, ◌==◌, string_eq,
  if◌then◌else◌,
}

pub record File : Type 0 where
  pub content : List ℕ
  pub mode : ℕ
  pub regular : Bool

abbrev pub Disk : Type 0
Disk = String → Option File

-- Whether the content of the file at a path may not have reached stable storage.
abbrev pub Unsynced : Type 0
Unsynced = String → Bool

-- What a crash meets.
pub record Moment : Type 0 where
  pub disk : Disk
  pub unsynced : Unsynced

-- A crash leaves a file whose content was synced as it is, and anything of one whose was not.
abbrev pub Leaves : Moment → Disk → Type 0
Leaves m d = (q : String) → m.unsynced q ≡ false → d q ≡ m.disk q

-- `disk` and `unsynced` are the present moment; `history` holds every moment before a change, the
-- latest first. The directories themselves are not synced, so that a crash meets one of them or the
-- present one. `running` is what the Xray process has loaded, if it runs.
pub record World : Type 0 where
  pub disk : Disk
  pub unsynced : Unsynced
  pub history : List Moment
  pub running : Option File

abbrev pub moment : World → Moment
moment w = record { disk = w.disk; unsynced = w.unsynced }

abbrev pub update : Disk → String → Option File → Disk
update d p f q = if q == p then f else d q

abbrev pub mark : Unsynced → String → Bool → Unsynced
mark u p b q = if q == p then b else u q

abbrev pub change : World → Disk → Unsynced → World
change w d u = record w { disk = d; unsynced = u; history = moment w ∷ w.history }

-- The content of a file is written, and nothing says yet that it is stored.
abbrev pub held : World → String → File → World
held w path file = change w (update w.disk path (some file)) (mark w.unsynced path true)

-- `file.Sync` has succeeded.
abbrev pub synced : World → String → World
synced w path = change w w.disk (mark w.unsynced path false)

-- `os.Remove` has succeeded.
abbrev pub removed : World → String → World
removed w path = change w (update w.disk path none) (mark w.unsynced path false)

pub record WriteFaults : Type 0 where
  pub mkdir : Bool
  pub create : Bool
  pub chmod : Bool
  pub write : Bool
  pub written : ℕ  -- how much a failing write has written
  pub sync : Bool
  pub close : Bool
  pub rename : Bool
  pub cleanup : Bool  -- the deferred `os.Remove`, whose error is dropped

-- The deferred removal of the temporary file.
abbrev cleaned : WriteFaults → String → World → World
cleaned f temporary w = if f.cleanup then w else removed w temporary

-- The rename replaces the target in one change; what was not synced of the file still is not.
abbrev renamed : String → String → World → World
renamed temporary path w =
    change w (update (update w.disk temporary none) path (w.disk temporary))
      (mark (mark w.unsynced temporary false) path (w.unsynced temporary))

-- The calls after `os.CreateTemp`, from `temporary.Chmod` on. `w` holds the empty file. True means
-- that the write went through.
write_created : String → WriteFaults → String → File → World → Bool × World
write_created temporary f path file w =
    if f.chmod
    then (false, cleaned f temporary w)
    else let chmoded = held w temporary (record file { content = [] }) in
      if f.write
      then (
        false,
        cleaned f temporary
            (held chmoded temporary (record file { content = take f.written file.content })),
      )
      else let full = held chmoded temporary file in
        if f.sync
        then (false, cleaned f temporary full)
        else let stored = synced full temporary in
          if f.close
          then (false, cleaned f temporary stored)
          else if f.rename
          then (false, cleaned f temporary stored)
          else (true, renamed temporary path stored)

-- `atomicWrite`. `os.CreateTemp` makes an empty file of mode 0600 with a new name, `temporary`.
unfoldable pub atomic_write : String → WriteFaults → String → List ℕ → ℕ → World → Bool × World
unfolding write_created
atomic_write temporary f path content mode w =
    if f.mkdir
    then (false, w)
    else if f.create
    then (false, w)
    else write_created temporary f path (record { content = content; mode = mode; regular = true })
        (held w temporary (record { content = []; mode = 0o600; regular = true }))

-- `rollback`, which restores the file that `readCurrent` has read, or removes the new one.
unfoldable pub rollback :
    String → WriteFaults → Bool → String → Option (List ℕ × ℕ) → World → Bool × World
unfolding atomic_write
rollback temporary f remove_fails path (some (content, mode)) w =
    atomic_write temporary f path content mode w
rollback temporary f remove_fails path none w =
    if remove_fails then (false, w) else (true, removed w path)
