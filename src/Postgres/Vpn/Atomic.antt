-- ===== src/Postgres/Vpn/Atomic.antt =====
-- A call of the repository that fails has changed nothing, or has written all its rows and lost the
-- acknowledgement of its COMMIT.
use ez_vpn_lego.Prelude.{◌≡◌, ◌⊎◌, ℕ, String, Bool}
use ez_vpn_lego.Store.Rows.{Db}
use ez_vpn_lego.Store.Tx.{Error, err, Link}
use ez_vpn_lego.Store.Tx.Laws.{IsLost, transact_failed}
use ez_vpn_lego.Postgres.Vpn.{StageVpnParams, stage, stage_body}

pub stage_failed :
    (is_uuid : String → Bool) (link : Link) (now : ℕ) (input : StageVpnParams) (d d' : Db)
    (e : Error)
    → stage is_uuid link now input d ≡ (err e, d')
    → (d' ≡ d) ⊎ IsLost link (stage_body is_uuid now input) d e d'
unfolding stage
stage_failed is_uuid link now input d d' e h =
    transact_failed link (stage_body is_uuid now input) d e d' h
