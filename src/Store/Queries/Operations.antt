-- ===== src/Store/Queries/Operations.antt =====
-- db/queries/operations.sql
use ez_vpn_lego.Prelude.{ℕ, String, Bool, ◌&&◌, ◌||◌, not, some, leb, ◌==◌, string_eq}
use ez_vpn_lego.Prelude.Text.{rune_count}
use ez_vpn_lego.Core.Status.{queued, running, succeeded, failed, rolling_back, status_eq}
use ez_vpn_lego.Store.Table.{find, exists, update, insert}
use ez_vpn_lego.Store.Rows.{Operation}
use ez_vpn_lego.Store.Tx.{
  Tx, no_rows, unique_violation, foreign_key_violation, check_violation, ◌>>=◌, ◌>>◌, require,
  or_fail, pure,
}

abbrev pub within : ℕ → ℕ → String → Bool
within lo hi s = leb lo (rune_count s) && leb (rune_count s) hi

abbrev pub has_key : String → String → Operation → Bool
has_key admin_id key o = o.requested_by == admin_id && o.idempotency_key == key

-- `CreateOperation`: where the admin has used the key already, no row is made and none returned.
unfoldable pub create_operation : Operation → Tx Operation
create_operation o d =
    (do
      require (within 1 120 o.kind && within 16 128 o.idempotency_key) check_violation
      require (not (exists (has_key o.requested_by o.idempotency_key) d.operations)) no_rows
      require (not (exists (λ p. p.id == o.id) d.operations)) unique_violation
      require (exists (λ a. a.id == o.requested_by) d.admins) foreign_key_violation
      λ d. pure o (record d { operations = insert o d.operations }))
      d

abbrev pub can_complete : String → Operation → Bool
can_complete id o = o.id == id && (o.status == queued || o.status == running)

abbrev pub completed : Operation → Operation
completed o = record o { status = succeeded }

-- `CompleteOperation`; the stored result is the caller's and is never read again.
unfoldable pub complete_operation : String → Tx Operation
complete_operation id d =
    (do
      o ← or_fail (find (can_complete id) d.operations) no_rows
      λ d.
          pure (completed o)
            (record d { operations = update (can_complete id) completed d.operations }))
      d

abbrev pub can_fail : String → Operation → Bool
can_fail id o =
    o.id == id && (o.status == queued || o.status == running || o.status == rolling_back)

abbrev pub failed_with : String → Operation → Operation
failed_with code o = record o { status = failed; error_code = some code }

-- `FailOperation`
unfoldable pub fail_operation : String → String → Tx (Unit {0})
fail_operation id code d =
    pure tt (record d { operations = update (can_fail id) (failed_with code) d.operations })

-- `GetOperationByIdempotencyKey`
unfoldable pub get_operation : String → String → Tx Operation
get_operation admin_id key d = or_fail (find (has_key admin_id key) d.operations) no_rows d
