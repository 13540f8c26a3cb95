-- ===== src/Store/Queries/Users.antt =====
-- db/queries/users.sql

use Prim.Native.String.{compare}
use text.Mathlib.Text.{is_le}
use ez_vpn_lego.Prelude.{
  ℕ, String, Bool, true, false, ◌&&◌, ◌||◌, not, none, some, List, [], ◌∷◌, leb, ltb, ◌==◌,
  string_eq, nat_eq, if◌then◌else◌,
}
use ez_vpn_lego.Core.Status.{active}
use ez_vpn_lego.Store.Table.{find, exists, select, insert}
use ez_vpn_lego.Store.Rows.{UserRow}
use ez_vpn_lego.Store.Queries.Operations.{within}
use ez_vpn_lego.Store.Tx.{
  Tx, no_rows, unique_violation, check_violation, ◌>>◌, require, or_fail, pure,
}

abbrev pub new_user : String → String → ℕ → UserRow
new_user id name now = record {
  id = id;
  name = name;
  status = active;
  created_at = now;
  updated_at = now;
  deleted_at = none;
}

-- `CreateUser`
unfoldable pub create_user : String → String → ℕ → Tx UserRow
create_user id name now d =
    (do
      require (within 1 80 name) check_violation
      require (not (exists (λ u. u.id == id) d.users)) unique_violation
      λ d. pure (new_user id name now) (record d { users = insert (new_user id name now) d.users }))
      d

abbrev is_live : UserRow → Bool
is_live u = elim u.deleted_at [ none ↦ true | some at ↦ false ]

abbrev pub is_user : String → UserRow → Bool
is_user id u = u.id == id && is_live u

-- `GetUser`
unfoldable pub get_user : String → Tx UserRow
get_user id d = or_fail (find (is_user id) d.users) no_rows d

-- `ORDER BY created_at, id`; for canonical texts the order of UUIDs is that of their texts.
abbrev precedes : UserRow → UserRow → Bool
precedes u v =
    ltb u.created_at v.created_at || (leb u.created_at v.created_at && is_le (compare u.id v.id))

place : UserRow → List UserRow → List UserRow
place u [] = u ∷ []
place u (v ∷ vs) = if precedes u v then u ∷ v ∷ vs else v ∷ place u vs

order_users : List UserRow → List UserRow
order_users [] = []
order_users (u ∷ us) = place u (order_users us)

-- `ListUsers`
unfoldable pub list_users : Tx (List UserRow)
unfolding order_users place
list_users d = pure (order_users (select is_live d.users)) d
