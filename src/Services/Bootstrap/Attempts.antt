-- ===== src/Services/Bootstrap/Attempts.antt =====
-- The attempts of `Bootstrap` to finalize.
use ez_vpn_lego.Prelude.{
  ◌≡◌, refl, ℕ, zero, suc, ◌+◌, ◌<◌, Option, none, some, arith, ◌⊎◌, inl, inr,
}
use ez_vpn_lego.Store.Rows.{Db}
use ez_vpn_lego.Store.Tx as Store
use ez_vpn_lego.Postgres.Vpn.{FinalizeVpnParams}
use ez_vpn_lego.Services.{}
use ez_vpn_lego.Services.Bootstrap.{Repository, Attempt, after_attempt, finalize_loop}

module _ (repository : Repository) (attempts : ℕ → Attempt) (input : FinalizeVpnParams) where
  abbrev pub attempted : ℕ → Db → Store.Result (Unit {0}) × Db
  attempted i d =
      repository.finalize (attempts i).link (attempts i).audit_draw (attempts i).outbox_draw input d

  -- An attempt to finalize that the repository answers with success.
  abbrev pub Succeeds : Db → ℕ → Db → Type 0
  Succeeds d i d' = attempted i d ≡ (Store.ok tt, d')

  -- The attempts before one, from the first: each of them fails, and the next one meets what it left.
  pub data Failed (d : Db) : ℕ → Db → Type 0 where
    start : Failed d 0 d
    again :
        {i : ℕ} {e : Db} (reason : Store.Error) (d' : Db)
        → Failed d i e
        → attempted i e ≡ (Store.err reason, d')
        → Failed d (suc i) d'

  -- One of the first attempts succeeded, after those before it had failed, or all failed.
  abbrev pub LoopCases : ℕ → Db → Option Store.Error × Db → Type 0
  LoopCases bound d r =
      ((i : ℕ) × (e : Db) × (d' : Db) × (i < bound)
        × (r ≡ (none, d'))
        × Failed d i e
        × Succeeds e i d')
      ⊎ ((reason : Store.Error) × (d' : Db) × (r ≡ (some reason, d')) × Failed d bound d')

  attempt_cases :
      (bound next : ℕ) (d e : Db) (later : Store.Error → Db → Option Store.Error × Db)
      → next < bound
      → Failed d next e
      → ((reason : Store.Error) (d' : Db)
          → Failed d (suc next) d'
          → LoopCases bound d (later reason d'))
      → (r : Store.Result (Unit {0}) × Db) → attempted next e ≡ r
      → LoopCases bound d (after_attempt later r)
  attempt_cases bound next d e later within before rest (Store.ok done, d') h =
      inl (next, e, d', within, refl, before, h)
  attempt_cases bound next d e later within before rest (Store.err reason, d') h =
      rest reason d' (again reason d' before h)

  pub finalize_loop_cases :
      (bound left next : ℕ) (last : Store.Error) (d e : Db)
      → next + left ≡ bound
      → Failed d next e
      → LoopCases bound d (finalize_loop repository attempts input left next last e)
  unfolding finalize_loop
  finalize_loop_cases bound zero next last d e within before =
      let all : next ≡ bound = omega arith in inr (last, e, refl, rw (← all) before)
  finalize_loop_cases bound (suc left) next last d e within before =
      attempt_cases bound next d e
        (λ reason d'. finalize_loop repository attempts input left (next + 1) reason d')
        (omega arith) before
        (λ reason d' failed.
          let step : next + 1 ≡ suc next = omega arith in
          finalize_loop_cases bound left (next + 1) reason d d' (omega arith) (rw step failed))
        (attempted next e) refl
