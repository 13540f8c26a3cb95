-- ===== src/Postgres/Admins/Tests.antt =====
-- The pairing of an administrator at concrete data, for a hash that takes the codes of the text.
use ez_vpn_lego.Prelude.{bytes_eq, string_eq, ◌≡◌, refl, String, false, some, none, [], ◌∷◌, arith}
use ez_vpn_lego.Prelude.Text.{codes, byte_length}
use ez_vpn_lego.Core.Status.{active, lifecycle_eq}
use ez_vpn_lego.Core.Model.{Admin, owner}
use ez_vpn_lego.Store.Table.{find, exists, update}
use ez_vpn_lego.Store.Rows.{Db, empty}
use ez_vpn_lego.Store.Tx.{Link, acknowledged, ok, err, pairing_token_invalid}
use ez_vpn_lego.Store.Queries.Pairing.{consume_token, create_identity, resolve_identity}
use package.ez_vpn_lego.Postgres.Admins.{claim_pairing, answer, resolve_telegram, claim_body}
use package.ez_vpn_lego.Postgres.Admins.Once.{claim_once}

abbrev link : Link
link = record { begin_fails = false; commit_fate = acknowledged }

abbrev boss : Admin
boss = record { id = "admin"; role = owner; status = active; created_at = 5; updated_at = 5 }

abbrev token : String
token = "0123456789abcdef0123456789abcdef"

abbrev start : Db
start = record empty {
  admins = boss ∷ [];
  tokens =
      record { token_hash = codes token; admin_id = "admin"; expires_at = 900; consumed_at = none }
      ∷ [];
}

abbrev paired : Db
paired = record start {
  tokens =
      record {
        token_hash = codes token;
        admin_id = "admin";
        expires_at = 900;
        consumed_at = some 10;
      }
      ∷ [];
  identities =
      record { id = "identity"; admin_id = "admin"; provider = "telegram"; subject = "42" } ∷ [];
}

claimed : claim_pairing codes link link (some "identity") 10 token "42" start ≡ (ok boss, paired)
unfolding claim_pairing claim_body consume_token create_identity resolve_telegram resolve_identity
    find exists update byte_length answer bytes_eq string_eq lifecycle_eq
claimed = refl

claim_once_example :
    claim_pairing codes link link (some "other") 20 token "43" paired
    ≡ (err pairing_token_invalid, paired)
claim_once_example =
    claim_once codes link link link link (some "identity") (some "other") 10 20 token "42" "43"
      start paired boss claimed (omega arith) refl
