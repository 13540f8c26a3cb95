-- ===== src/Daemon/Process/Steps.antt =====
-- What the steps of `daemon.Run` before the socket have done, by their results.
use ez_vpn_lego.Prelude.{◌≡◌, ◌⊎◌, refl, ℕ, Bool, true, false, Option, none, some, List, arith}
use ez_vpn_lego.Store.Rows.{Db}
use ez_vpn_lego.Secretbox as Secret
use ez_vpn_lego.Secretbox.{Aead, new}
use package.ez_vpn_lego.Daemon.Process.{Startup, MigrateError, up}

pub opposite : true ≡ false → ⊥
opposite h = cc

pub up_ok :
    (goose : Db → Bool × Db) (startup : Startup) (d d' : Db)
    → up goose startup d ≡ (none, d')
    → (startup.connect ≡ false)
      × (startup.migration_ping ≡ false)
      × (startup.dialect ≡ false)
      × (goose d ≡ (true, d'))
unfolding up
up_ok goose startup d d' h = split (goose d) h
  where
    split :
        (x : Bool × Db)
        → up (λ e. x) startup d ≡ (none, d')
        → (startup.connect ≡ false)
          × (startup.migration_ping ≡ false)
          × (startup.dialect ≡ false)
          × (x ≡ (true, d'))
    split (true, e) k = ground (arith, k)
    split (false, e) k = absurd (ground (arith, k))

-- Migrations that fail have changed nothing, or what `goose` has changed.
pub up_failed :
    (goose : Db → Bool × Db) (startup : Startup) (d d' : Db) (e : MigrateError)
    → up goose startup d ≡ (some e, d')
    → (d' ≡ d) ⊎ (d' ≡ (goose d).1)
unfolding up
up_failed goose startup d d' e h = split (goose d) h
  where
    split : (x : Bool × Db) → up (λ e. x) startup d ≡ (some e, d') → (d' ≡ d) ⊎ (d' ≡ x.1)
    split (true, c) k = ground (arith, k)
    split (false, c) k = ground (arith, k)

pub new_ok :
    (cipher : List ℕ → Option Aead) (key : List ℕ) (a : Aead)
    → new cipher key ≡ Secret.done a
    → cipher key ≡ some a
unfolding new
new_ok cipher key a h = split (cipher key) h
  where
    split : (x : Option Aead) → new (λ k. x) key ≡ Secret.done a → x ≡ some a
    split none k = cc
    split (some b) k = cc

pub new_keyed :
    (cipher : List ℕ → Option Aead) (key : List ℕ) (a : Aead)
    → cipher key ≡ some a
    → new cipher key ≡ Secret.done a
unfolding new
new_keyed cipher key a h = rw h refl
