-- ===== src/Helper/Engine/Sound.antt =====
-- What can stand at the path of the configuration, and run, after `Engine.Apply`, whatever it reports.
use ez_vpn_lego.Prelude.{
  ◌≡◌, ◌⊎◌, inl, inr, refl, ℕ, String, Bool, true, false, Bool-cases, Option, none, some, List,
  nat_eq, string_eq, if◌then◌else◌,
}
use ez_vpn_lego.Helper.Disk.{File, World, atomic_write, rollback}
use ez_vpn_lego.Helper.Disk.Laws.{
  restored_file, atomic_write-target, atomic_write-running, rollback-target, rollback-running,
  rollback_failed,
}
use ez_vpn_lego.Helper.Engine.{Engine, Env, ApplyRequest, restart, recover, settle, install, apply}
use ez_vpn_lego.Helper.Engine.Recovery.{installed}
use ez_vpn_lego.Helper.Engine.Outcomes.{IsApart, apply_cases}

-- A file is the first one, or one that Xray accepts.
abbrev pub IsSound : (List ℕ → Bool) → Option File → Option File → Type 0
IsSound accepts first file =
    (file ≡ first)
    ⊎ ((content : List ℕ) × (accepts content ≡ true) × (file ≡ some (installed content)))

-- Such a file stands at the path of the configuration, and Xray is down, or runs with such a file.
abbrev pub AllSound : (List ℕ → Bool) → Option File → Engine → World → Type 0
AllSound accepts first engine w =
    IsSound accepts first (w.disk engine.configuration_path)
    × ((w.running ≡ none) ⊎ IsSound accepts first w.running)

module _ (sha256 : List ℕ → List ℕ) (engine : Engine) (env : Env) (apart : IsApart engine env)
    (P : Option File → Type 0) where
  abbrev pub path : String
  path = engine.configuration_path

  -- A property of the file at the path, and of the running one if there is one.
  abbrev pub Keeps : World → Type 0
  Keeps w = P (w.disk path) × ((w.running ≡ none) ⊎ P w.running)

  rollback-Keeps :
      (previous : Option (List ℕ × ℕ)) (w : World)
      → P (restored_file previous)
      → Keeps w
      → Keeps (rollback env.restore_temporary env.restore env.remove_fails path previous w).1
  rollback-Keeps previous w old (here, runs) = (
    elim (Bool-cases
        (rollback env.restore_temporary env.restore env.remove_fails path previous w).0) [
          | inl back ↦
              rw
                (rollback-target env.restore_temporary env.restore env.remove_fails path w
                  apart.restore_apart previous back)
                old
          | inr failed ↦
              rw
                (rollback_failed env.restore_temporary env.restore env.remove_fails path w
                  apart.restore_apart previous failed)
                here
        ],
    rw
        (rollback-running env.restore_temporary env.restore env.remove_fails path w
          apart.restore_apart previous)
        runs,
  )

  restart-Keeps : (fails : Bool) (w : World) → P (w.disk path) → Keeps (restart fails path w).1
  restart-Keeps true w here = (here, inl refl)
  restart-Keeps false w here = (here, inr here)

  recover-Keeps :
      (previous : Option (List ℕ × ℕ)) (w : World)
      → P (restored_file previous)
      → Keeps w
      → Keeps (recover sha256 engine env previous w).1
  unfolding recover
  recover-Keeps previous w old kept =
      let restored = rollback-Keeps previous w old kept in
      elim (Bool-cases
        (rollback env.restore_temporary env.restore env.remove_fails path previous w).0) [
          | inl back ↦ rw back (
              restart-Keeps env.recovery_fails
                (rollback env.restore_temporary env.restore env.remove_fails path previous w).1
                restored.0)
          | inr failed ↦ rw failed restored
        ]

  settle-Keeps :
      (previous : Option (List ℕ × ℕ)) (w : World)
      → P (restored_file previous)
      → Keeps w
      → Keeps (settle sha256 engine env previous w).1
  unfolding settle
  settle-Keeps previous w old (here, runs) =
      settled (restart env.restart_fails path w) (restart-Keeps env.restart_fails w here)
    where
      settled :
          (x : Bool × World)
          → Keeps x.1
          → Keeps (if x.0 then (none, x.1) else recover sha256 engine env previous x.1).1
      settled (true, w) kept = kept
      settled (false, w) kept = recover-Keeps previous w old kept

  install-Keeps :
      (c : List ℕ) (previous : Option (List ℕ × ℕ)) (w : World)
      → P (restored_file previous)
      → P (some (installed c))
      → Keeps w
      → Keeps (install sha256 engine env c previous w).1
  unfolding install
  install-Keeps c previous w old new (here, runs) =
      let target =
        atomic_write-target env.install_temporary env.install path c 0o640 w apart.install_apart in
      let running =
        atomic_write-running env.install_temporary env.install path c 0o640 w apart.install_apart in
      elim (Bool-cases (atomic_write env.install_temporary env.install path c 0o640 w).0) [
        | inl done ↦ rw done (settle-Keeps previous _ old (rw (target, done) new, rw running runs))
        | inr failed ↦ rw failed (rw (target, failed) here, rw running runs)
      ]

  pub apply-Keeps :
      (request : ApplyRequest) (w : World)
      → ((c : List ℕ) → env.accepts c ≡ true → P (some (installed c)))
      → Keeps w
      → Keeps (apply sha256 engine env request w).1
  apply-Keeps request w accepted (here, runs) = elim (apply_cases sha256 engine env request w) [
    | inl (e, early, q) ↦ rw q (here, runs)
    | inr (file, previous, vetted, same, q) ↦ rw q (
        install-Keeps file.content previous w (rw same here) (accepted file.content vetted.valid)
          (here, runs))
  ]
