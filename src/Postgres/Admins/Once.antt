-- ===== src/Postgres/Admins/Once.antt =====
-- A pairing token can be claimed once.
use mathlib.Core.Path.{◌≡◌, refl}
use ez_vpn_lego.Prelude.{
  Option-cases, ap, sym, ◌∙◌, inl, inr, if◌then◌else◌, ℕ, ◌≤◌, String, Bool, false, ◌&&◌, ◌||◌,
  Option, none, List, [], ◌∷◌, ltb, ◌==◌, bytes_eq, Bool-cases, arith,
}
use ez_vpn_lego.Core.Model.{Admin}
use ez_vpn_lego.Prelude.Text.{byte_length, is_empty}
use ez_vpn_lego.Store.Table.{find, update}
use ez_vpn_lego.Store.Rows.{Db, AdminPairingToken}
use ez_vpn_lego.Store.Queries.Pairing.{
  resolve_identity, is_unconsumed, is_usable, consumed, consume_token, create_identity,
}
use ez_vpn_lego.Store.Tx.{Result, entropy_failed, on_no_rows, ok, err, Link, pairing_token_invalid}
use ez_vpn_lego.Store.Tx.Laws.{>>=-eq-ok, or_fail_ok, transact_ok}
use package.ez_vpn_lego.Postgres.Admins.{
  claim_body, bound_already, resolve_telegram, claim_pairing, answer,
}

spent_cases :
    (same unused : Bool) (now now' expires : ℕ)
    → now ≤ now'
    → (same && unused && ltb now expires) ≡ false
    → (same && unused && ltb now' expires) ≡ false
spent_cases same unused now now' expires le h = ground arith

spent :
    (hash : List ℕ) (now now' : ℕ) (t : AdminPairingToken)
    → now ≤ now'
    → is_usable hash now' (if is_usable hash now t then consumed now t else t) ≡ false
spent hash now now' t le = elim (Bool-cases (is_usable hash now t)) [
  | inl usable ↦ rw usable (ground arith)
  | inr idle ↦ rw idle (
      ground (
        arith,
        spent_cases (t.token_hash == hash) (is_unconsumed t.consumed_at) now now' t.expires_at le
            idle,
      ))
]

used_up :
    (hash : List ℕ) (now now' : ℕ) (ts : List AdminPairingToken)
    → now ≤ now'
    → find (is_usable hash now') (update (is_usable hash now) (consumed now) ts) ≡ none
unfolding find update
used_up hash now now' [] le = refl
used_up hash now now' (t ∷ ts) le = rw (spent hash now now' t le, used_up hash now now' ts le) refl

create_identity-tokens :
    (id admin_id subject : String) (d d' : Db)
    → create_identity id admin_id subject d ≡ ok (tt, d')
    → d'.tokens ≡ d.tokens
unfolding create_identity
create_identity-tokens id admin_id subject d d' h = ground arith

consume_token-tokens :
    (hashed : List ℕ) (now : ℕ) (d d' : Db) (admin_id : String)
    → on_no_rows pairing_token_invalid (consume_token hashed now) d ≡ ok (admin_id, d')
    → d'.tokens ≡ update (is_usable hashed now) (consumed now) d.tokens
unfolding consume_token
consume_token-tokens hashed now d d' admin_id h =
    elim (Option-cases (find (is_usable hashed now) d.tokens)) [
      | inl unknown ↦ absurd (ground (arith, (rw unknown at h)))
      | inr (t, known) ↦ (let h' = rw known at h in cc)
    ]

bound_ok : (r : Result (Unit {0} × Db)) (d' : Db) → bound_already r ≡ ok (tt, d') → r ≡ ok (tt, d')
bound_ok (ok x) d' h = h
bound_ok (err e) d' h = absurd (ground (arith, h))

module _ (hash : String → List ℕ) (draw : Option String) (now : ℕ) (token subject : String) where
  claim_body-tokens :
      (d d' : Db)
      → claim_body hash draw now token subject d ≡ ok (tt, d')
      → d'.tokens ≡ update (is_usable (hash token) now) (consumed now) d.tokens
  unfolding claim_body
  claim_body-tokens d d' h =
      let (admin_id, d1, h1, k1) =
        >>=-eq-ok (on_no_rows pairing_token_invalid (consume_token (hash token) now)) _ h in
      let (identity_id, drawn, k2) = or_fail_ok draw entropy_failed _ k1 in
      let kept = create_identity-tokens identity_id admin_id subject d1 d' (bound_ok _ d' k2) in
      kept ∙ consume_token-tokens (hash token) now d d1 admin_id h1

  claim_body_refused :
      (d : Db)
      → find (is_usable (hash token) now) d.tokens ≡ none
      → claim_body hash draw now token subject d ≡ err pairing_token_invalid
  unfolding claim_body consume_token
  claim_body_refused d h = rw h refl

resolve_telegram-same :
    (subject : String) (d d' : Db) (a : Admin) → resolve_telegram subject d ≡ ok (a, d') → d' ≡ d
unfolding resolve_telegram resolve_identity
resolve_telegram-same subject d d' a h = ground arith

answer_ok :
    (reading : Link) (subject : String) (r : Result (Unit {0}) × Db) (a : Admin) (d' : Db)
    → answer reading subject r ≡ (ok a, d')
    → r ≡ (ok tt, d')
unfolding answer
answer_ok reading subject (ok done, d) a d' h =
    ap (λ e. (ok tt, e))
      (sym (
        resolve_telegram-same subject d d' a
          (transact_ok reading (resolve_telegram subject) d a d' h)))
answer_ok reading subject (err e, d) a d' h = absurd (ground (arith, h))

module _ (hash : String → List ℕ) (link reading link' reading' : Link) (draw draw' : Option String)
    (now now' : ℕ) (token subject subject' : String) (d d' : Db) (a : Admin) where
  -- If a claim of a pairing token succeeds, then a claim of the same token on the database that it
  -- leaves, no earlier, for any subject and over a link that lets it begin, is refused as invalid
  -- and changes nothing.
  pub claim_once :
      claim_pairing hash link reading draw now token subject d ≡ (ok a, d')
      → now ≤ now'
      → link'.begin_fails ≡ false
      → claim_pairing hash link' reading' draw' now' token subject' d'
        ≡ (err pairing_token_invalid, d')
  unfolding claim_pairing answer
  claim_once h le up = elim (Bool-cases (ltb (byte_length token) 32 || is_empty subject)) [
    | inl bad ↦ absurd (ground (arith, (rw bad at h)))
    | inr good ↦
        let claimed = answer_ok reading subject _ a d' (rw good at h) in
        let body = transact_ok link (claim_body hash draw now token subject) d tt d' claimed in
        let tokens = claim_body-tokens hash draw now token subject d d' body in
        refuse (rw tokens (used_up (hash token) now now' d.tokens le))
  ]
    where
      refuse :
          find (is_usable (hash token) now') d'.tokens ≡ none
          → claim_pairing hash link' reading' draw' now' token subject' d'
            ≡ (err pairing_token_invalid, d')
      refuse unknown = elim (Bool-cases (ltb (byte_length token) 32 || is_empty subject')) [
        | inl bad ↦ rw bad refl
        | inr good ↦
            rw (good, up, claim_body_refused hash draw' now' token subject' d' unknown) refl
      ]
