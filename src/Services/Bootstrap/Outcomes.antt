-- ===== src/Services/Bootstrap/Outcomes.antt =====
-- What `Bootstrap` leaves behind, on success and on each failure.
use ez_vpn_lego.Prelude.{
  ◌≡◌, ◌⊎◌, refl, ap, sym, ◌∙◌, ℕ, ◌<◌, String, Bool, true, false, Option, none, some, arith, inl,
  inr,
}
use ez_vpn_lego.Store.Rows.{Db}
use ez_vpn_lego.Store.Tx as Store
use ez_vpn_lego.Store.Tx.{Link}
use ez_vpn_lego.Postgres.Vpn.{FinalizeVpnParams}
use ez_vpn_lego.Helper.Disk.{World}
use ez_vpn_lego.Candidate.{CandidateError, write}
use ez_vpn_lego.Services.{
  System, ServiceError, helper_failed, storage, not_finalized, Outcome, failed, got, Helper,
  Libraries,
}
use ez_vpn_lego.Services.Bootstrap.{
  BootstrapVpnRequest, BootstrapVpnResult, Repository, Randoms, Surroundings, Plan, plan,
  finalize_loop, finished, answered, placed, staged_as, carry_out, bootstrap,
}
use ez_vpn_lego.Services.Bootstrap.Attempts.{
  Failed, start, Succeeds, LoopCases, finalize_loop_cases,
}

-- The errors that `Bootstrap` returns once its rows stand.
abbrev pub is_late : ServiceError → Bool
is_late helper_failed = true
is_late (ServiceError.candidate e) = true
is_late (not_finalized e) = true
is_late _ = false

failed_injective :
    {V : Type 0} {d e : ServiceError} → Path (Outcome V) (failed d) (failed e) → d ≡ e
failed_injective h = cc

finished_got :
    (w : World) (result r : BootstrapVpnResult) (x : Option Store.Error × Db) (s : System)
    → finished w result x ≡ (got r, s)
    → (x ≡ (none, s.db)) × (s.world ≡ w) × (r ≡ result)
finished_got w result r (none, d) s h =
    let same : Path System (record { db = d; world = w }) s =
      ap (λ (o : Outcome BootstrapVpnResult × System). o.1) h in
    (ap (λ (t : System). (none, t.db)) same, sym (ap (λ (t : System). t.world) same), cc)
finished_got w result r (some e, d) s h = cc

module _ (repository : Repository) (helper : Helper) (directory : String)
    (around : Surroundings) where
  abbrev loop : FinalizeVpnParams → Db → Option Store.Error × Db
  loop input d = finalize_loop repository around.attempt input 3 0 Store.commit_failed d

  -- The steps of a `Bootstrap` that has succeeded, from one state of the system to another.
  pub record HasBootstrapped (p : Plan) (before after : System) : Type 0 where
    pub staged_db : Db
    pub staged :
        repository.stage around.stage_link around.now p.staged before.db ≡ (Store.ok tt, staged_db)
    pub written :
        (write around.faults directory p.staged.revision_id p.content before.world).0 ≡ none
    pub applied :
        helper p.staged.revision_id p.staged.revision_hash
          (write around.faults directory p.staged.revision_id p.content before.world).1
        ≡ (true, after.world)
    pub looped : loop p.finalized staged_db ≡ (none, after.db)

  answered_got :
      (p : Plan) (d : Db) (x : Bool × World) (r : BootstrapVpnResult) (s : System)
      → answered repository helper directory around p d x ≡ (got r, s)
      → (x ≡ (true, s.world)) × (loop p.finalized d ≡ (none, s.db)) × (r ≡ p.result)
  answered_got p d (false, w) r s h = cc
  answered_got p d (true, w) r s h =
      let (looped, same, result) = finished_got w p.result r (loop p.finalized d) s h in
      (ap (λ (v : World). (true, v)) (sym same), looped, result)

  placed_got :
      (p : Plan) (d : Db) (x : Option CandidateError × World) (r : BootstrapVpnResult) (s : System)
      → placed repository helper directory around p d x ≡ (got r, s)
      → (x.0 ≡ none)
        × (helper p.staged.revision_id p.staged.revision_hash x.1 ≡ (true, s.world))
        × (loop p.finalized d ≡ (none, s.db))
        × (r ≡ p.result)
  placed_got p d (some e, w) r s h = cc
  placed_got p d (none, w) r s h =
      let (applied, looped, result) =
        answered_got p d (helper p.staged.revision_id p.staged.revision_hash w) r s h in
      (refl, applied, looped, result)

  staged_got :
      (p : Plan) (before : System) (x : Store.Result (Unit {0}) × Db) (r : BootstrapVpnResult)
      (s : System)
      → repository.stage around.stage_link around.now p.staged before.db ≡ x
      → staged_as repository helper directory around p before.world x ≡ (got r, s)
      → HasBootstrapped p before s × (r ≡ p.result)
  staged_got p before (Store.err e, d) r s e' h = cc
  staged_got p before (Store.ok done, d) r s e' h =
      let (written, applied, looped, result) =
        placed_got p d (write around.faults directory p.staged.revision_id p.content before.world) r
          s h in
      (
        record {
          staged_db = d;
          staged = e';
          written = written;
          applied = applied;
          looped = looped;
        },
        result,
      )

  carry_out_got :
      (before : System) (planned : Outcome Plan) (r : BootstrapVpnResult) (s : System)
      → carry_out repository helper directory around before planned ≡ (got r, s)
      → (p : Plan) × (planned ≡ got p) × HasBootstrapped p before s × (r ≡ p.result)
  carry_out_got before (failed reason) r s h = cc
  carry_out_got before (got p) r s h =
      let (steps, result) = staged_got p before _ r s refl h in (p, refl, steps, result)

  -- One of three attempts finalized the staged rows; each before it failed, and the next one met the
  -- rows that it left.
  abbrev pub Finalizes : FinalizeVpnParams → Db → Db → Type 0
  Finalizes input staged_db d' =
      (i : ℕ) × (e : Db) × (i < 3)
      × Failed repository around.attempt input staged_db i e
      × Succeeds repository around.attempt input e i d'

  looped_Finalizes :
      (input : FinalizeVpnParams) (staged_db d' : Db)
      → loop input staged_db ≡ (none, d')
      → LoopCases repository around.attempt input 3 staged_db (loop input staged_db)
      → Finalizes input staged_db d'
  looped_Finalizes input staged_db d' h (inl (i, e, d, below, looped, before, success)) = (
    i,
    e,
    below,
    before,
    success ∙ ap (λ (x : Option Store.Error × Db). (Store.ok tt, x.1)) (sym looped ∙ h),
  )
  looped_Finalizes input staged_db d' h (inr (reason, d, looped, before)) =
      some_none (ap (λ (x : Option Store.Error × Db). x.0) (sym looped ∙ h))
    where
      some_none : {V : Type 0} {e : Store.Error} → Path (Option Store.Error) (some e) none → V
      some_none h = cc

  -- If `Bootstrap` returns a result, then it had a plan of which that is the result; the rows of the
  -- plan were staged, its content written as the candidate, the helper applied it, and one of three
  -- attempts finalized the rows, each attempt before it having failed, and the next one having met
  -- the rows that it left.
  pub bootstrap_got :
      (libraries : Libraries) (randoms : Randoms) (request : BootstrapVpnRequest)
      (before after : System) (r : BootstrapVpnResult)
      → bootstrap repository helper directory libraries randoms around request before
        ≡ (got r, after)
      → (p : Plan) × (plan libraries randoms request ≡ got p)
        × ((steps : HasBootstrapped p before after) × Finalizes p.finalized steps.staged_db
              after.db)
        × (r ≡ p.result)
  unfolding bootstrap
  bootstrap_got libraries randoms request before after r h =
      let (p, planned, steps, result) =
        carry_out_got before (plan libraries randoms request) r after h in
      (
        p,
        planned,
        (
          steps,
          looped_Finalizes p.finalized steps.staged_db after.db steps.looped (
              finalize_loop_cases repository around.attempt p.finalized 3 3 0 Store.commit_failed
                steps.staged_db steps.staged_db (omega arith) start),
        ),
        result,
      )

  finished_late :
      (w : World) (result : BootstrapVpnResult) (x : Option Store.Error × Db)
      (reason : ServiceError)
      → (finished w result x).0 ≡ failed reason
      → is_late reason ≡ true
  finished_late w result (none, d) reason h = cc
  finished_late w result (some e, d) reason h = rw (← failed_injective h) refl

  answered_late :
      (p : Plan) (d : Db) (x : Bool × World) (reason : ServiceError)
      → (answered repository helper directory around p d x).0 ≡ failed reason
      → is_late reason ≡ true
  answered_late p d (false, w) reason h = rw (← failed_injective h) refl
  answered_late p d (true, w) reason h = finished_late w p.result (loop p.finalized d) reason h

  placed_late :
      (p : Plan) (d : Db) (x : Option CandidateError × World) (reason : ServiceError)
      → (placed repository helper directory around p d x).0 ≡ failed reason
      → is_late reason ≡ true
  placed_late p d (some e, w) reason h = rw (← failed_injective h) refl
  placed_late p d (none, w) reason h =
      answered_late p d (helper p.staged.revision_id p.staged.revision_hash w) reason h

  -- What a failure before the rows stand is: the plan's, or that of the call of `Stage`.
  abbrev pub Early : Outcome Plan → System → ServiceError → System → Type 0
  Early planned before reason after =
      (after.world ≡ before.world)
      × ((after.db ≡ before.db)
          ⊎ ((p : Plan) × (e : Store.Error) × (planned ≡ got p)
              × (reason ≡ storage e)
              × (repository.stage around.stage_link around.now p.staged before.db
                  ≡ (Store.err e, after.db))))

  staged-Early :
      (p : Plan) (before : System) (x : Store.Result (Unit {0}) × Db) (reason : ServiceError)
      → repository.stage around.stage_link around.now p.staged before.db ≡ x
      → (staged_as repository helper directory around p before.world x).0 ≡ failed reason
      → is_late reason ≡ false
      → Early
          (got p)
          before
          reason
          (staged_as repository helper directory around p before.world x).1
  staged-Early p before (Store.err e, d) reason k h early =
      (refl, inr (p, e, refl, sym (failed_injective h), k))
  staged-Early p before (Store.ok done, d) reason k h early =
      let late =
        placed_late p d (write around.faults directory p.staged.revision_id p.content before.world)
          reason h in
      cc

  carry_out-Early :
      (before : System) (planned : Outcome Plan) (reason : ServiceError)
      → (carry_out repository helper directory around before planned).0 ≡ failed reason
      → is_late reason ≡ false
      → Early planned before reason (carry_out repository helper directory around before planned).1
  carry_out-Early before (failed e) reason h early = (refl, inl refl)
  carry_out-Early before (got p) reason h early =
      staged-Early p before (repository.stage around.stage_link around.now p.staged before.db)
        reason refl h early

  pub bootstrap-Early :
      (libraries : Libraries) (randoms : Randoms) (request : BootstrapVpnRequest) (before : System)
      (reason : ServiceError)
      → (bootstrap repository helper directory libraries randoms around request before).0
        ≡ failed reason
      → is_late reason ≡ false
      → Early
          (plan libraries randoms request)
          before
          reason
          (bootstrap repository helper directory libraries randoms around request before).1
  unfolding bootstrap
  bootstrap-Early libraries randoms request before reason h early =
      carry_out-Early before (plan libraries randoms request) reason h early
