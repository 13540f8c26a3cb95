-- ===== src/Postgres/Admins/Owner.antt =====
-- adapters/postgres/admins.go: `BootstrapOwner`, which makes the first administrator.
pub mod Elections
mod Tests
use ez_vpn_lego.Prelude.{
  ◌≡◌, ◌≢◌, ◌⊎◌, refl, ap, sym, ◌∙◌, ℕ, suc, ◌≤◌, String, Bool, true, false, Option, none, some,
  List, [], ◌∷◌, ◌==◌, nat_eq, string_eq, length, if◌then◌else◌, not, Bool-cases, inl, inr, arith,
}
use ez_vpn_lego.Core.Status.{active}
use ez_vpn_lego.Core.Model.{Admin, owner}
use ez_vpn_lego.Store.Rows.{Db}
use ez_vpn_lego.Store.Table.{exists, insert}
use ez_vpn_lego.Store.Tx.{
  Error, Result, ok, err, Tx, ◌>>=◌, ◌>>◌, pure, require, or_fail, Link, transact, entropy_failed,
  invalid_uuid, already_bootstrapped, commit_rolled_back, commit_failed, begin_failed, raise,
}
use ez_vpn_lego.Store.Tx.Laws.{
  >>=-eq-ok, require_ok, or_fail_ok, transact_ok, transact_failed, IsUp, transact-IsUp,
}
use ez_vpn_lego.Store.Queries.Admins.{count_admins, create_owner, new_owner}
use ez_vpn_lego.Store.Queries.Events.{create_audit_event, create_outbox_event}

-- The three draws of `id.NewUUID`.
pub record OwnerDraws : Type 0 where
  pub admin_id : Option String
  pub audit_id : Option String
  pub outbox_id : Option String

-- `if errors.Is(err, pgx.ErrTxCommitRollback) { return …, ports.ErrAlreadyBootstrapped }`
abbrev pub rolled_back : Result Admin × Db → Result Admin × Db
rolled_back (err commit_rolled_back, d) = (err already_bootstrapped, d)
rolled_back r = r

module _ (is_uuid : String → Bool) where
  -- The audit and outbox rows.
  unfoldable pub record_owner : OwnerDraws → String → Tx (Unit {0})
  record_owner draws admin_id = do
    audit_id ← or_fail draws.audit_id entropy_failed
    outbox_id ← or_fail draws.outbox_id entropy_failed
    require (is_uuid admin_id) invalid_uuid
    create_audit_event (record {
      id = audit_id;
      actor_admin_id = none;
      action = "admin.owner.bootstrap";
      resource_type = "admin";
      resource_id = admin_id;
    })
    create_outbox_event (record {
      id = outbox_id;
      topic = "admin.owner.bootstrapped";
      aggregate_type = "admin";
      aggregate_id = admin_id;
    })

  -- The body of the transaction, under its lock.
  unfoldable pub owner_body : OwnerDraws → ℕ → Tx Admin
  owner_body draws now = do
    count ← count_admins
    require (count == 0) already_bootstrapped
    admin_id ← or_fail draws.admin_id entropy_failed
    created ← create_owner admin_id now
    record_owner draws admin_id
    pure created

  -- `BootstrapOwner`
  unfoldable pub bootstrap_owner : Link → OwnerDraws → ℕ → Db → Result Admin × Db
  bootstrap_owner link draws now d = rolled_back (transact link (owner_body draws now) d)
