-- ===== src/Postgres/Admins/Owner/Tests.antt =====
-- The first administrator at concrete data.
use ez_vpn_lego.Prelude.{
  ◌≡◌, refl, String, Bool, true, false, some, List, [], ◌∷◌, string_eq, nat_eq,
}
use ez_vpn_lego.Store.Rows.{Db, empty}
use ez_vpn_lego.Store.Table.{exists}
use ez_vpn_lego.Store.Tx.{Link, acknowledged, refused, lost_after, ok}
use ez_vpn_lego.Store.Queries.Admins.{new_owner, count_admins, create_owner}
use ez_vpn_lego.Store.Queries.Events.{create_audit_event, create_outbox_event}
use package.ez_vpn_lego.Postgres.Admins.Owner.{
  OwnerDraws, bootstrap_owner, owner_body, record_owner,
}
use package.ez_vpn_lego.Postgres.Admins.Owner.Elections.{
  OwnerCall, bootstrap_owners, Elects, HasOwner, bootstrap_owners_once, bootstrap_owner_first,
}

abbrev up : Link
up = record { begin_fails = false; commit_fate = acknowledged }

abbrev down : Link
down = record { begin_fails = false; commit_fate = refused }

abbrev lossy : Link
lossy = record { begin_fails = false; commit_fate = lost_after }

abbrev any_uuid : String → Bool
any_uuid s = true

abbrev draws : OwnerDraws
draws = record { admin_id = some "a"; audit_id = some "b"; outbox_id = some "c" }

abbrev call : Link → OwnerCall
call link = record { link = link; draws = draws; now = 3 }

-- A call whose COMMIT is answered with a rollback, one that makes the owner, and one that is refused.
abbrev history : List OwnerCall
history = call down ∷ call up ∷ call up ∷ []

one_success : (bootstrap_owners any_uuid history empty).0 ≡ 1
unfolding bootstrap_owners bootstrap_owner owner_body record_owner count_admins create_owner
    create_audit_event create_outbox_event exists nat_eq string_eq
one_success = refl

-- If the acknowledgement of the first one is lost, then there is an owner whom no call has returned.
abbrev lossy_history : List OwnerCall
lossy_history = call lossy ∷ call up ∷ []

no_success : (bootstrap_owners any_uuid lossy_history empty).0 ≡ 0
unfolding bootstrap_owners bootstrap_owner owner_body record_owner count_admins create_owner
    create_audit_event create_outbox_event exists nat_eq string_eq
no_success = refl

bootstrap_owners_once_example : Elects history empty (bootstrap_owners any_uuid history empty)
bootstrap_owners_once_example = bootstrap_owners_once any_uuid history empty

bootstrap_owner_first_example :
    (d' : Db) × (bootstrap_owner any_uuid up draws 3 empty ≡ (ok (new_owner "a" 3), d'))
    × HasOwner (new_owner "a" 3) d'
unfolding exists
bootstrap_owner_first_example =
    bootstrap_owner_first any_uuid up 3 empty "a" "b" "c" (record { begins = refl; commits = refl })
      refl refl refl refl
