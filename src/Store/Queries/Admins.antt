-- ===== src/Store/Queries/Admins.antt =====
-- db/queries/admins.sql
use ez_vpn_lego.Prelude.{ℕ, String, Bool, ◌&&◌, not, ◌==◌, string_eq, length}
use ez_vpn_lego.Core.Status.{active, lifecycle_eq}
use ez_vpn_lego.Core.Model.{Admin, owner}
use ez_vpn_lego.Store.Table.{find, exists, insert}
use ez_vpn_lego.Store.Tx.{Tx, no_rows, unique_violation, invalid_uuid, ◌>>◌, require, or_fail, pure}

unfoldable pub count_admins : Tx ℕ
count_admins d = pure (length d.admins) d

abbrev pub new_owner : String → ℕ → Admin
new_owner id now = record {
  id = id;
  role = owner;
  status = active;
  created_at = now;
  updated_at = now;
}

-- `CreateOwner`; the unique index `one_active_owner` is of use only where admins stand already.
unfoldable pub create_owner : String → ℕ → Tx Admin
create_owner id now d =
    (do
      require (not (exists (λ a. a.id == id) d.admins)) unique_violation
      λ d. pure (new_owner id now) (record d { admins = insert (new_owner id now) d.admins }))
      d

abbrev pub is_active_admin : String → Admin → Bool
is_active_admin id a = a.id == id && a.status == active

-- `GetActiveAdmin`. A text that is no UUID is refused before any row is read.
unfoldable pub get_active_admin : (String → Bool) → String → Tx Admin
get_active_admin is_uuid id d =
    (do require (is_uuid id) invalid_uuid; or_fail (find (is_active_admin id) d.admins) no_rows) d
