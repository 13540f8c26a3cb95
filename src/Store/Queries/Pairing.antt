-- ===== src/Store/Queries/Pairing.antt =====
-- db/queries/pairing.sql
use ez_vpn_lego.Prelude.{
  ℕ, String, Bool, true, false, ◌&&◌, not, Option, none, some, List, ltb, ◌==◌, string_eq, bytes_eq,
  if◌then◌else◌,
}
use ez_vpn_lego.Core.Status.{lifecycle_eq}
use ez_vpn_lego.Core.Model.{Admin}
use ez_vpn_lego.Store.Table.{find, exists, update, insert}
use ez_vpn_lego.Store.Rows.{Db, AdminPairingToken, AdminIdentity}
use ez_vpn_lego.Store.Queries.Admins.{is_active_admin}
use ez_vpn_lego.Store.Tx.{
  Tx, no_rows, unique_violation, foreign_key_violation, ◌>>=◌, ◌>>◌, require, or_fail, pure,
}

-- `CreateTelegramPairingToken`: `INSERT … SELECT` from the active admin. True if it made a row.
unfoldable pub create_token : AdminPairingToken → Tx Bool
create_token token d =
    if exists (is_active_admin token.admin_id) d.admins
    then (do
      require (not (exists (λ t. t.token_hash == token.token_hash) d.tokens)) unique_violation
      λ d. pure true (record d { tokens = insert token d.tokens }))
        d
    else pure false d

abbrev pub is_unconsumed : Option ℕ → Bool
is_unconsumed none = true
is_unconsumed (some at) = false

-- The rows that `ConsumeTelegramPairingToken` updates at a time.
abbrev pub is_usable : List ℕ → ℕ → AdminPairingToken → Bool
is_usable hash now t = t.token_hash == hash && is_unconsumed t.consumed_at && ltb now t.expires_at

abbrev pub consumed : ℕ → AdminPairingToken → AdminPairingToken
consumed now t = record t { consumed_at = some now }

unfoldable pub consume_token : List ℕ → ℕ → Tx String
consume_token hash now d =
    (do
      token ← or_fail (find (is_usable hash now) d.tokens) no_rows
      λ d.
          pure token.admin_id
            (record d { tokens = update (is_usable hash now) (consumed now) d.tokens }))
      d

-- `CreateTelegramIdentity`, under `UNIQUE (provider, subject)` and `UNIQUE (admin_id, provider)`.
unfoldable pub create_identity : String → String → String → Tx (Unit {0})
create_identity id admin_id subject d =
    (do
      require (not (exists (λ i. i.id == id) d.identities)) unique_violation
      require (not (exists (λ i. i.provider == "telegram" && i.subject == subject) d.identities))
          unique_violation
      require (not (exists (λ i. i.admin_id == admin_id && i.provider == "telegram") d.identities))
          unique_violation
      require (exists (λ a. a.id == admin_id) d.admins) foreign_key_violation
      λ d. pure tt (record d {
        identities =
            insert
              (record { id = id; admin_id = admin_id; provider = "telegram"; subject = subject })
              d.identities;
      }))
      d

abbrev pub is_identity : String → AdminIdentity → Bool
is_identity subject i = i.provider == "telegram" && i.subject == subject

-- `ResolveTelegramIdentity`; a subject has at most one identity, by the unique constraint.
abbrev resolved : Db → Option AdminIdentity → Tx Admin
resolved d none = or_fail none no_rows
resolved d (some i) = or_fail (find (is_active_admin i.admin_id) d.admins) no_rows

unfoldable pub resolve_identity : String → Tx Admin
resolve_identity subject d = resolved d (find (is_identity subject) d.identities) d
