-- ===== src/Helper/Engine/Recovery.antt =====
-- What the writing half of `Engine.Apply` leaves behind: the write, the restart, the rollback.
use ez_vpn_lego.Prelude.{
  ◌≡◌, ◌≢◌, ℕ, String, Bool, true, Option, none, some, List, arith, nat_eq, string_eq,
  if◌then◌else◌,
}
use ez_vpn_lego.Helper.Disk.{File, World, atomic_write}
use ez_vpn_lego.Helper.Disk.Laws.{
  restored_file, atomic_write-target, atomic_write-others, rollback-target, rollback-others,
}
use ez_vpn_lego.Helper.Engine.{
  Engine, rollback_configuration_failed, previous_configuration_restored, Env, recover, settle,
  install,
}

-- The configuration that `atomicWrite` makes of a candidate.
abbrev pub installed : List ℕ → File
installed content = record { content = content; mode = 0o640; regular = true }

module _ (sha256 : List ℕ → List ℕ) (engine : Engine) (env : Env)
    (apart : env.install_temporary ≢ engine.configuration_path)
    (back_apart : env.restore_temporary ≢ engine.configuration_path) where
  abbrev pub path : String
  path = engine.configuration_path

  recover-outcome :
      (previous : Option (List ℕ × ℕ)) (w : World) → (recover sha256 engine env previous w).0 ≢ none
  unfolding recover
  recover-outcome previous w = ground arith

  -- Unless the rollback itself failed, the old file is back.
  recover-target :
      (previous : Option (List ℕ × ℕ)) (w : World)
      → (recover sha256 engine env previous w).0 ≢ some rollback_configuration_failed
      → (recover sha256 engine env previous w).1.disk path ≡ restored_file previous
  unfolding recover
  recover-target previous w h = ground (
    arith,
    rollback-target env.restore_temporary env.restore env.remove_fails path w back_apart previous,
  )

  recover-running :
      (previous : Option (List ℕ × ℕ)) (w : World)
      → (recover sha256 engine env previous w).0 ≡ some previous_configuration_restored
      → (recover sha256 engine env previous w).1.running ≡ restored_file previous
  unfolding recover
  recover-running previous w h = ground (
    arith,
    rollback-target env.restore_temporary env.restore env.remove_fails path w back_apart previous,
  )

  recover-others :
      (previous : Option (List ℕ × ℕ)) (w : World) (q : String)
      → q ≢ path
      → q ≢ env.restore_temporary
      → (recover sha256 engine env previous w).1.disk q ≡ w.disk q
  unfolding recover
  recover-others previous w q h k = ground (
    arith,
    rollback-others env.restore_temporary env.restore env.remove_fails path w back_apart previous q
        h k,
  )

  settle_ok :
      (previous : Option (List ℕ × ℕ)) (w : World)
      → (settle sha256 engine env previous w).0 ≡ none
      → ((settle sha256 engine env previous w).1.disk path ≡ w.disk path)
        × ((settle sha256 engine env previous w).1.running ≡ w.disk path)
  unfolding settle
  settle_ok previous w h = ground (arith, recover-outcome previous (record w { running = none }))

  settle-target :
      (previous : Option (List ℕ × ℕ)) (w : World)
      → (settle sha256 engine env previous w).0 ≢ none
      → (settle sha256 engine env previous w).0 ≢ some rollback_configuration_failed
      → (settle sha256 engine env previous w).1.disk path ≡ restored_file previous
  unfolding settle
  settle-target previous w h k =
      ground (arith, recover-target previous (record w { running = none }))

  settle-running :
      (previous : Option (List ℕ × ℕ)) (w : World)
      → (settle sha256 engine env previous w).0 ≡ some previous_configuration_restored
      → (settle sha256 engine env previous w).1.running ≡ restored_file previous
  unfolding settle
  settle-running previous w h =
      ground (arith, recover-running previous (record w { running = none }))

  settle-others :
      (previous : Option (List ℕ × ℕ)) (w : World) (q : String)
      → q ≢ path
      → q ≢ env.restore_temporary
      → (settle sha256 engine env previous w).1.disk q ≡ w.disk q
  unfolding settle
  settle-others previous w q h k =
      ground (arith, recover-others previous (record w { running = none }) q h k)

  module _ (c : List ℕ) (previous : Option (List ℕ × ℕ)) (w : World) where
    abbrev pub written : Bool × World
    written = atomic_write env.install_temporary env.install path c 0o640 w

    target : written.1.disk path ≡ (if written.0 then some (installed c) else w.disk path)
    target = atomic_write-target env.install_temporary env.install path c 0o640 w apart

    pub install_ok :
        (install sha256 engine env c previous w).0 ≡ none
        → ((install sha256 engine env c previous w).1.disk path ≡ some (installed c))
          × ((install sha256 engine env c previous w).1.running ≡ some (installed c))
    unfolding install
    install_ok h = ground (arith, target, settle_ok previous written.1)

    pub install-target :
        restored_file previous ≡ w.disk path
        → (install sha256 engine env c previous w).0 ≢ none
        → (install sha256 engine env c previous w).0 ≢ some rollback_configuration_failed
        → (install sha256 engine env c previous w).1.disk path ≡ w.disk path
    unfolding install
    install-target same h k = ground (arith, target, settle-target previous written.1)

    pub install-running :
        restored_file previous ≡ w.disk path
        → (install sha256 engine env c previous w).0 ≡ some previous_configuration_restored
        → (install sha256 engine env c previous w).1.running ≡ w.disk path
    unfolding install
    install-running same h = ground (arith, target, settle-running previous written.1)

    pub install-others :
        (q : String)
        → q ≢ path
        → q ≢ env.install_temporary
        → q ≢ env.restore_temporary
        → (install sha256 engine env c previous w).1.disk q ≡ w.disk q
    unfolding install
    install-others q h k l = ground (
      arith,
      atomic_write-others env.install_temporary env.install path c 0o640 w apart q h k,
      settle-others previous written.1 q h l,
    )
