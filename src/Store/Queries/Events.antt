-- ===== src/Store/Queries/Events.antt =====
-- db/queries/events.sql
use ez_vpn_lego.Prelude.{String, Bool, true, not, Option, none, some, ◌==◌, string_eq}
use ez_vpn_lego.Store.Table.{exists, insert}
use ez_vpn_lego.Store.Rows.{Db, AuditEvent, OutboxEvent}
use ez_vpn_lego.Store.Tx.{Tx, unique_violation, foreign_key_violation, ◌>>◌, require, pure}

abbrev actor_exists : Db → Option String → Bool
actor_exists d none = true
actor_exists d (some id) = exists (λ a. a.id == id) d.admins

unfoldable pub create_audit_event : AuditEvent → Tx (Unit {0})
create_audit_event event d =
    (do
      require (not (exists (λ e. e.id == event.id) d.audit)) unique_violation
      require (actor_exists d event.actor_admin_id) foreign_key_violation
      λ d. pure tt (record d { audit = insert event d.audit }))
      d

unfoldable pub create_outbox_event : OutboxEvent → Tx (Unit {0})
create_outbox_event event d =
    (do
      require (not (exists (λ e. e.id == event.id) d.outbox)) unique_violation
      λ d. pure tt (record d { outbox = insert event d.outbox }))
      d
