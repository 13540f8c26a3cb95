-- ===== src/Helper/Disk/Laws.antt =====
-- What `atomicWrite` and `rollback` leave on the disk, whichever calls fail, and what a crash finds.
use ez_vpn_lego.Prelude.{
  ◌≡◌, ◌≢◌, ◌⊎◌, ℕ, String, Bool, true, false, Option, none, some, List, ◌∷◌, ◌∙◌, inl, inr, arith,
  All, string_eq, if◌then◌else◌,
}
use ez_vpn_lego.Helper.Disk.{
  File, Disk, Moment, Leaves, World, moment, WriteFaults, atomic_write, rollback,
}

module _ (temporary : String) (f : WriteFaults) (path : String) (content : List ℕ) (mode : ℕ)
    (w : World) (apart : temporary ≢ path) where
  abbrev new_file : File
  new_file = record { content = content; mode = mode; regular = true }

  -- If the temporary name is another one, a write that goes through leaves the new file at the
  -- path, and one that fails leaves there what was there.
  pub atomic_write-target :
      (atomic_write temporary f path content mode w).1.disk path
      ≡ (if (atomic_write temporary f path content mode w).0 then some new_file else w.disk path)
  unfolding atomic_write
  atomic_write-target = ground arith

  -- Whether the write goes through or not, no file at another path but the temporary one changes,
  -- the temporary name being another one than the path.
  pub atomic_write-others :
      (q : String)
      → q ≢ path
      → q ≢ temporary
      → (atomic_write temporary f path content mode w).1.disk q ≡ w.disk q
  unfolding atomic_write
  atomic_write-others q h k = ground arith

  -- Writing a file does not touch the process.
  pub atomic_write-running : (atomic_write temporary f path content mode w).1.running ≡ w.running
  unfolding atomic_write
  atomic_write-running = ground arith

  -- Whatever a crash at a moment leaves, it is the old file or the new one, whole.
  abbrev pub IsWhole : Moment → Type 0
  IsWhole m = (d : Disk) → Leaves m d → (d path ≡ w.disk path) ⊎ (d path ≡ some new_file)

  -- At a moment the old file or the new one is there, and it is on stable storage.
  pub record IsSettled (m : Moment) : Type 0 where
    pub stored : m.unsynced path ≡ false
    pub whole : (m.disk path ≡ w.disk path) ⊎ (m.disk path ≡ some new_file)

  IsSettled-IsWhole : (m : Moment) → IsSettled m → IsWhole m
  IsSettled-IsWhole m settled d leaves =
      let same = leaves path settled.stored in
      elim settled.whole [ inl old ↦ inl (same ∙ old) | inr new ↦ inr (same ∙ new) ]

  settled_moments :
      (P : Moment → Type 0)
      → ((m : Moment) → IsSettled m → P m)
      → w.unsynced path ≡ false
      → All P w.history
      → P (moment (atomic_write temporary f path content mode w).1)
        × All P (atomic_write temporary f path content mode w).1.history
  unfolding atomic_write
  settled_moments P settled stored h = grind (arith, settled)

  -- If the temporary name is another one, and the file at the path is on stable storage, then
  -- whatever call of the write fails, and at whatever moment of it or after it the machine crashes,
  -- the path holds the old file or the new one, whole: if that holds of every moment up to the write,
  -- then it holds of the one that the write ends with and of every one before.
  pub atomic_write-IsWhole :
      w.unsynced path ≡ false
      → All IsWhole w.history
      → All IsWhole (
          moment (atomic_write temporary f path content mode w).1
          ∷ (atomic_write temporary f path content mode w).1.history)
  atomic_write-IsWhole stored h = settled_moments IsWhole IsSettled-IsWhole stored h

-- The file that `readCurrent` has read.
abbrev pub restored_file : Option (List ℕ × ℕ) → Option File
restored_file none = none
restored_file (some (content, mode)) =
    some (record { content = content; mode = mode; regular = true })

module _ (temporary : String) (f : WriteFaults) (remove_fails : Bool) (path : String) (w : World)
    (apart : temporary ≢ path) where
  -- A rollback that goes through restores the content and the mode that were read, or the absence.
  pub rollback-target :
      (previous : Option (List ℕ × ℕ))
      → (rollback temporary f remove_fails path previous w).0 ≡ true
      → (rollback temporary f remove_fails path previous w).1.disk path ≡ restored_file previous
  unfolding rollback
  rollback-target none h = ground arith
  rollback-target (some (content, mode)) h = ground arith

  -- One that fails leaves the path as it was, and no other file changes but the temporary one.
  pub rollback-others :
      (previous : Option (List ℕ × ℕ)) (q : String)
      → q ≢ path
      → q ≢ temporary
      → (rollback temporary f remove_fails path previous w).1.disk q ≡ w.disk q
  unfolding rollback
  rollback-others none q h k = ground arith
  rollback-others (some (content, mode)) q h k =
      atomic_write-others temporary f path content mode w apart q h k

  pub rollback_failed :
      (previous : Option (List ℕ × ℕ))
      → (rollback temporary f remove_fails path previous w).0 ≡ false
      → (rollback temporary f remove_fails path previous w).1.disk path ≡ w.disk path
  unfolding rollback
  rollback_failed none h = ground arith
  rollback_failed (some (content, mode)) h = ground arith

  pub rollback-running :
      (previous : Option (List ℕ × ℕ))
      → (rollback temporary f remove_fails path previous w).1.running ≡ w.running
  unfolding rollback
  rollback-running none = ground arith
  rollback-running (some (content, mode)) = ground arith
