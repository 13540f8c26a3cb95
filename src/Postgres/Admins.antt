-- ===== src/Postgres/Admins.antt =====
-- adapters/postgres/admins.go: the pairing of an administrator with a Telegram account. A single
-- statement outside a transaction is a transaction of its own.
pub mod Once
pub mod Owner
mod Tests
use ez_vpn_lego.Prelude.{ℕ, ◌+◌, String, Bool, ◌||◌, Option, List, ltb, if◌then◌else◌}
use ez_vpn_lego.Prelude.Text.{byte_length, is_empty}
use ez_vpn_lego.Core.Model.{Admin}
use ez_vpn_lego.Store.Rows.{Db}
use ez_vpn_lego.Store.Tx.{
  Error, Result, ok, err, Tx, ◌>>=◌, ◌>>◌, pure, require, or_fail, on_no_rows, Link, transact,
  unique_violation, entropy_failed, pairing_token_invalid, identity_already_bound,
  unauthorized_actor,
}
use ez_vpn_lego.Store.Queries.Pairing.{
  create_token, consume_token, create_identity, resolve_identity,
}

pub record PairingToken : Type 0 where
  pub token : String
  pub expires_at : ℕ

-- `errors.As(err, &pgErr) && pgErr.Code == "23505"`
abbrev pub bound_already : {A : Type 0} → Result A → Result A
bound_already (err unique_violation) = err identity_already_bound
bound_already r = r

-- `ResolveTelegram`
unfoldable pub resolve_telegram : String → Tx Admin
resolve_telegram subject = on_no_rows unauthorized_actor (resolve_identity subject)

module _ (is_uuid : String → Bool) (encode : List ℕ → String) (hash : String → List ℕ) where
  -- The body of `CreateTelegramPairing` once the ID is a UUID. `raw` is what `rand.Read` gives.
  pairing_body : Option (List ℕ) → ℕ → String → Tx PairingToken
  pairing_body draw now admin_id = do
    raw ← or_fail draw entropy_failed
    stored ← create_token (record {
      token_hash = hash (encode raw);
      admin_id = admin_id;
      expires_at = now + 900;
      consumed_at = Option.none;
    })
    require stored unauthorized_actor
    pure (record { token = encode raw; expires_at = now + 900 })

  -- `CreateTelegramPairing`
  pub create_pairing : Link → Option (List ℕ) → ℕ → String → Db → Result PairingToken × Db
  create_pairing link draw now admin_id d =
      if is_uuid admin_id
      then transact link (pairing_body draw now admin_id) d
      else (err unauthorized_actor, d)

-- `return r.ResolveTelegram(ctx, subject)`, which is read after the commit.
pub answer : Link → String → Result (Unit {0}) × Db → Result Admin × Db
answer reading subject (err e, d) = (err e, d)
answer reading subject (ok done, d) = transact reading (resolve_telegram subject) d

module _ (hash : String → List ℕ) where
  -- The transaction of `ClaimTelegramPairing`.
  pub claim_body : Option String → ℕ → String → String → Tx (Unit {0})
  claim_body draw now token subject = do
    admin_id ← on_no_rows pairing_token_invalid (consume_token (hash token) now)
    identity_id ← or_fail draw entropy_failed
    λ d. bound_already (create_identity identity_id admin_id subject d)

  -- `ClaimTelegramPairing`; the second link is that of the read after the commit.
  pub claim_pairing : Link → Link → Option String → ℕ → String → String → Db → Result Admin × Db
  claim_pairing link reading draw now token subject d =
      if ltb (byte_length token) 32 || is_empty subject
      then (err pairing_token_invalid, d)
      else answer reading subject (transact link (claim_body draw now token subject) d)
