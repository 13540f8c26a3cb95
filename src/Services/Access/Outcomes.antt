-- ===== src/Services/Access/Outcomes.antt =====
-- What `Create` has done when it returns a result.
use ez_vpn_lego.Prelude.{◌≡◌, refl, ap, String, Bool, true, false, Option, none, some}
use ez_vpn_lego.Store.Rows.{Db}
use ez_vpn_lego.Store.Tx as Store
use ez_vpn_lego.Candidate.{CandidateError, write}
use ez_vpn_lego.Helper.Disk.{World}
use ez_vpn_lego.Services.{System, Outcome, failed, got, Helper, Libraries}
use ez_vpn_lego.Services.Access.{
  CreateAccessRequest, CreateAccessResult, Repository, Randoms, Surroundings, Plan, finished,
  answered, placed, staged_as, carry_out, prepare, create,
}

module _ (repository : Repository) (helper : Helper) (directory : String)
    (around : Surroundings) where
  -- The steps of a success.
  pub record HasCreated (p : Plan) (before after : System) : Type 0 where
    pub staged_db : Db
    pub staged :
        repository.stage around.stage_link around.now p.staged before.db ≡ (Store.ok tt, staged_db)
    pub written :
        (write around.faults directory p.staged.revision_id p.content before.world).0 ≡ none
    pub applied :
        helper p.staged.revision_id p.staged.revision_hash
          (write around.faults directory p.staged.revision_id p.content before.world).1
        ≡ (true, after.world)
    pub finalized :
        repository.finalize around.finalize_link p.finalized staged_db ≡ (Store.ok tt, after.db)

  finished_got :
      (w : World) (result r : CreateAccessResult) (x : Store.Result (Unit {0}) × Db) (s : System)
      → finished w result x ≡ (got r, s)
      → (x ≡ (Store.ok tt, s.db)) × (w ≡ s.world) × (r ≡ result)
  finished_got w result r (Store.ok done, d) s h = (cc, cc, cc)
  finished_got w result r (Store.err e, d) s h = cc

  answered_got :
      (p : Plan) (d : Db) (x : Bool × World) (r : CreateAccessResult) (s : System)
      → answered repository helper directory around p d x ≡ (got r, s)
      → (x ≡ (true, s.world))
        × (repository.finalize around.finalize_link p.finalized d ≡ (Store.ok tt, s.db))
        × (r ≡ p.result)
  answered_got p d (false, w) r s h = cc
  answered_got p d (true, w) r s h =
      let (finalized, same, result) =
        finished_got w p.result r (repository.finalize around.finalize_link p.finalized d) s h in
      (ap (λ (v : World). (true, v)) same, finalized, result)

  placed_got :
      (p : Plan) (d : Db) (x : Option CandidateError × World) (r : CreateAccessResult) (s : System)
      → placed repository helper directory around p d x ≡ (got r, s)
      → (x.0 ≡ none)
        × (helper p.staged.revision_id p.staged.revision_hash x.1 ≡ (true, s.world))
        × (repository.finalize around.finalize_link p.finalized d ≡ (Store.ok tt, s.db))
        × (r ≡ p.result)
  placed_got p d (some e, w) r s h = cc
  placed_got p d (none, w) r s h =
      let (applied, finalized, result) =
        answered_got p d (helper p.staged.revision_id p.staged.revision_hash w) r s h in
      (refl, applied, finalized, result)

  staged_got :
      (p : Plan) (before : System) (x : Store.Result (Unit {0}) × Db) (r : CreateAccessResult)
      (s : System)
      → repository.stage around.stage_link around.now p.staged before.db ≡ x
      → staged_as repository helper directory around p before.world x ≡ (got r, s)
      → HasCreated p before s × (r ≡ p.result)
  staged_got p before (Store.err e, d) r s e' h = cc
  staged_got p before (Store.ok done, d) r s e' h =
      let (written, applied, finalized, result) =
        placed_got p d (write around.faults directory p.staged.revision_id p.content before.world) r
          s h in
      (
        record {
          staged_db = d;
          staged = e';
          written = written;
          applied = applied;
          finalized = finalized;
        },
        result,
      )

  carry_out_got :
      (before : System) (planned : Outcome Plan) (r : CreateAccessResult) (s : System)
      → carry_out repository helper directory around before planned ≡ (got r, s)
      → (p : Plan) × (planned ≡ got p) × HasCreated p before s × (r ≡ p.result)
  carry_out_got before (failed reason) r s h = cc
  carry_out_got before (got p) r s h =
      let (steps, result) = staged_got p before _ r s refl h in (p, refl, steps, result)

  pub create_got :
      (libraries : Libraries) (randoms : Randoms) (request : CreateAccessRequest)
      (before after : System) (r : CreateAccessResult)
      → create repository helper directory around libraries randoms request before ≡ (got r, after)
      → (p : Plan) × (prepare repository libraries randoms request before.db ≡ got p)
        × HasCreated p before after
        × (r ≡ p.result)
  unfolding create
  create_got libraries randoms request before after r h =
      carry_out_got before (prepare repository libraries randoms request before.db) r after h
