-- ===== src/Store/Tx.antt =====
-- Queries and transactions. A query reads the database and returns a new one with its rows, or an
-- error; a transaction keeps the new database only if its body succeeds and its COMMIT is carried out,
-- which is what `tx.Commit` and the deferred `tx.Rollback` do. A COMMIT whose acknowledgement is lost
-- is an error to the program and may have been carried out. A connection that breaks before it has the
-- effect of one whose COMMIT does not arrive: nothing is stored.
pub mod Laws
use ez_vpn_lego.Prelude.{Bool, Option, none, some, if◌then◌else◌}
use ez_vpn_lego.Store.Rows.{Db}

-- The errors of core/ports and of the database. `no_rows` is `pgx.ErrNoRows`, `unique_violation` is
-- SQLSTATE 23505, `commit_rolled_back` is `pgx.ErrTxCommitRollback`.
pub data Error : Type 0 where
  no_rows unique_violation foreign_key_violation check_violation invalid_uuid : Error
  begin_failed commit_failed commit_rolled_back entropy_failed : Error
  already_bootstrapped pairing_token_invalid identity_already_bound : Error
  idempotency_conflict invalid_argument unauthorized_actor vpn_already_bootstrapped : Error

pub data Result {ℓ} (A : Type ℓ) : Type ℓ where
  ok : A → Result A
  err : Error → Result A

abbrev pub Tx : Type 0 → Type 0
Tx A = Db → Result (A × Db)

abbrev pub and_then : {A B : Type 0} → Result (A × Db) → (A → Tx B) → Result (B × Db)
and_then (ok (a, d)) f = f a d
and_then (err e) f = err e

infixl 5 ◌>>=◌ ◌>>◌
abbrev pub ◌>>=◌ : {A B : Type 0} → Tx A → (A → Tx B) → Tx B
◌>>=◌ m f d = and_then (m d) f

abbrev pub ◌>>◌ : {B : Type 0} → Tx (Unit {0}) → Tx B → Tx B
m >> k = m >>= λ _. k

abbrev pub pure : {A : Type 0} → A → Tx A
pure a d = ok (a, d)

abbrev pub raise : {A : Type 0} → Error → Tx A
raise e d = err e

abbrev pub require : Bool → Error → Tx (Unit {0})
require b e d = if b then ok (tt, d) else err e

abbrev pub or_fail : {A : Type 0} → Option A → Error → Tx A
or_fail none e d = err e
or_fail (some a) e d = ok (a, d)

-- `if errors.Is(err, pgx.ErrNoRows) { return …, instead }`
abbrev no_rows_as : {A : Type 0} → Error → Result (A × Db) → Result (A × Db)
no_rows_as instead (err no_rows) = err instead
no_rows_as instead r = r

abbrev pub on_no_rows : {A : Type 0} → Error → Tx A → Tx A
on_no_rows instead m d = no_rows_as instead (m d)

-- What becomes of a COMMIT: it is carried out and acknowledged; the database answers it with a
-- rollback; or it gets no answer, and was lost on the way to the database or on the way back.
pub data CommitFate : Type 0 where
  acknowledged refused lost_before lost_after : CommitFate

-- Whether the database answers `BEGIN`, and what becomes of the `COMMIT`.
pub record Link : Type 0 where
  pub begin_fails : Bool
  pub commit_fate : CommitFate

-- `tx.Commit` in a transaction that has turned the last database into the first one.
abbrev pub committed_by : {A : Type 0} → CommitFate → A → Db → Db → Result A × Db
committed_by acknowledged a d' d = (ok a, d')
committed_by refused a d' d = (err commit_rolled_back, d)
committed_by lost_before a d' d = (err commit_failed, d)
committed_by lost_after a d' d = (err commit_failed, d')

abbrev pub commit : {A : Type 0} → CommitFate → Result (A × Db) → Db → Result A × Db
commit fate (ok (a, d')) d = committed_by fate a d' d
commit fate (err e) d = (err e, d)

abbrev pub transact : {A : Type 0} → Link → Tx A → Db → Result A × Db
transact link body d =
    if link.begin_fails then (err begin_failed, d) else commit link.commit_fate (body d) d
