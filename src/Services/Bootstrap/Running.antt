-- ===== src/Services/Bootstrap/Running.antt =====
-- `Bootstrap` with the real helper and repository: what runs when it has succeeded.
use ez_vpn_lego.Prelude.{◌≡◌, ◌⊎◌, ap, inl, inr, ◌∙◌, String, Bool, false}
use ez_vpn_lego.Store.Rows.{Db}
use ez_vpn_lego.Store.Tx as Store
use ez_vpn_lego.Postgres.Vpn.Atomic.{stage_failed}
use ez_vpn_lego.Postgres.Vpn as Vpn
use ez_vpn_lego.Helper.Engine.{Engine, Env}
use ez_vpn_lego.Helper.Engine.Outcomes.{IsApart}
use ez_vpn_lego.Helper.Client.{Delivery}
use ez_vpn_lego.Services.Running.{helper_of, Serves, written-Serves}
use ez_vpn_lego.Services.{System, ServiceError, storage, Outcome, failed, got, Libraries}
use ez_vpn_lego.Services.Bootstrap.{
  BootstrapVpnRequest, BootstrapVpnResult, Repository, Randoms, Surroundings, Plan, plan, bootstrap,
}
use ez_vpn_lego.Services.Bootstrap.Outcomes.{Early, is_late, bootstrap_got, bootstrap-Early}

-- The repository of adapters/postgres.
abbrev pub postgres : (String → Bool) → Repository
postgres is_uuid = record {
  stage = Vpn.stage is_uuid;
  finalize = Vpn.finalize is_uuid;
  fail = Vpn.fail;
}

module _ (is_uuid : String → Bool) (libraries : Libraries) (engine : Engine) (env : Env)
    (delivery : Delivery) where
  -- With the repository of adapters/postgres, and with the helper behind its socket, whose temporary
  -- files are not the configuration: if `Bootstrap` returns a result, then it had a plan, Xray runs
  -- with the plan's content, and that content is what stands at the configuration's path.
  pub bootstrap_running :
      (randoms : Randoms) (around : Surroundings) (request : BootstrapVpnRequest)
      (before after : System) (r : BootstrapVpnResult)
      → IsApart engine env
      → bootstrap
          (postgres is_uuid)
          (helper_of libraries.sha256 engine env delivery)
          engine.candidate_directory
          libraries
          randoms
          around
          request
          before
        ≡ (got r, after)
      → (p : Plan) × (plan libraries randoms request ≡ got p) × Serves engine after.world p.content
  bootstrap_running randoms around request before after r apart h =
      let (p, planned, (steps, finalizes), result) =
        bootstrap_got (postgres is_uuid) (helper_of libraries.sha256 engine env delivery)
          engine.candidate_directory around libraries randoms request before after r h in
      (
        p,
        planned,
        written-Serves libraries.sha256 engine env delivery around.faults p.staged.revision_id
            p.staged.revision_hash p.content before.world after.world apart steps.written
            steps.applied,
      )

  -- The rows are what they were, or `Stage` has written all of its rows for the plan, and the error
  -- is that of its COMMIT.
  abbrev pub IsAllOrNothing :
      Randoms → Surroundings → BootstrapVpnRequest → ServiceError → Db → Db → Type 0
  IsAllOrNothing randoms around request reason before after =
      (after ≡ before)
      ⊎ ((reason ≡ storage Store.commit_failed)
          × ((p : Plan) × (plan libraries randoms request ≡ got p)
              × (Vpn.stage_body is_uuid around.now p.staged before ≡ Store.ok (tt, after))))

  Early-IsAllOrNothing :
      (randoms : Randoms) (around : Surroundings) (request : BootstrapVpnRequest)
      (reason : ServiceError) (before after : System)
      → Early
          (postgres is_uuid)
          (helper_of libraries.sha256 engine env delivery)
          engine.candidate_directory
          around
          (plan libraries randoms request)
          before
          reason
          after
      → (after.world ≡ before.world)
        × IsAllOrNothing randoms around request reason before.db after.db
  Early-IsAllOrNothing randoms around request reason before after (same, inl kept) =
      (same, inl kept)
  Early-IsAllOrNothing randoms around request reason before after
        (same, inr (p, e, planned, named, staged)) =
      elim (stage_failed is_uuid around.stage_link around.now p.staged before.db after.db e
        staged) [
          | inl kept ↦ (same, inl kept)
          | inr lost ↦ (same, inr (named ∙ ap storage lost.error, (p, planned, lost.body)))
        ]

  -- With the repository of adapters/postgres: if `Bootstrap` fails, but for the candidate file, for
  -- the helper or for the finalization, then it has changed no file and left the Xray process alone,
  -- and its rows are all or nothing: they are what they were, or the error is a COMMIT of `Stage`
  -- without an answer and the rows are all those that `Stage` writes for the plan.
  pub bootstrap_early :
      (randoms : Randoms) (around : Surroundings) (request : BootstrapVpnRequest)
      (before after : System) (reason : ServiceError)
      → bootstrap
          (postgres is_uuid)
          (helper_of libraries.sha256 engine env delivery)
          engine.candidate_directory
          libraries
          randoms
          around
          request
          before
        ≡ (failed reason, after)
      → is_late reason ≡ false
      → (after.world ≡ before.world)
        × IsAllOrNothing randoms around request reason before.db after.db
  bootstrap_early randoms around request before after reason h early =
      Early-IsAllOrNothing randoms around request reason before after (
        rw (h) at (
          bootstrap-Early (postgres is_uuid) (helper_of libraries.sha256 engine env delivery)
            engine.candidate_directory around libraries randoms request before reason
            (ap (λ (x : Outcome BootstrapVpnResult × System). x.0) h) early))
