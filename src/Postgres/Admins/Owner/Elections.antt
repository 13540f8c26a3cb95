-- ===== src/Postgres/Admins/Owner/Elections.antt =====
-- At most one call of `BootstrapOwner` makes an owner, and the first one that can does.
use ez_vpn_lego.Prelude.{
  ◌≡◌, ◌⊎◌, refl, ap, sym, ◌∙◌, ℕ, suc, String, Bool, true, false, none, some, List, [], ◌∷◌, ◌==◌,
  nat_eq, string_eq, length, inl, inr, arith,
}
use ez_vpn_lego.Core.Status.{active}
use ez_vpn_lego.Core.Model.{Admin, owner}
use ez_vpn_lego.Store.Rows.{Db}
use ez_vpn_lego.Store.Table.{exists, insert}
use ez_vpn_lego.Store.Tx.{
  Error, Result, ok, err, Link, entropy_failed, already_bootstrapped, commit_rolled_back,
  lost_after,
}
use ez_vpn_lego.Store.Tx.Laws.{
  >>=-eq-ok, require_ok, or_fail_ok, transact_ok, transact_failed, IsUp,
}
use ez_vpn_lego.Store.Queries.Admins.{count_admins, create_owner, new_owner}
use ez_vpn_lego.Store.Queries.Events.{create_audit_event, create_outbox_event}
use package.ez_vpn_lego.Postgres.Admins.Owner.{
  OwnerDraws, rolled_back, record_owner, owner_body, bootstrap_owner,
}

-- One call of `BootstrapOwner`.
pub record OwnerCall : Type 0 where
  pub link : Link
  pub draws : OwnerDraws
  pub now : ℕ

length_zero : {A : Type 0} (xs : List A) → (length xs == 0) ≡ true → xs ≡ []
length_zero [] h = refl
length_zero (x ∷ xs) h = absurd (ground (arith, h))

rolled_back_ok :
    (r : Result Admin × Db) (a : Admin) (d : Db) → rolled_back r ≡ (ok a, d) → r ≡ (ok a, d)
rolled_back_ok (ok x, y) a d h = h
rolled_back_ok (err e, y) a d h = absurd (ground (arith, h))

rolled_back_err :
    (r : Result Admin × Db) (e : Error) (d : Db)
    → rolled_back r ≡ (err e, d)
    → (c : Error) × (r ≡ (err c, d))
rolled_back_err (ok x, y) e d h = absurd (ground (arith, h))
rolled_back_err (err commit_rolled_back, y) e d h = (commit_rolled_back, cc)
rolled_back_err (err c, y) e d h = (c, ground arith)

-- An owner stands alone in the table.
abbrev pub HasOwner : Admin → Db → Type 0
HasOwner a d = (d.admins ≡ a ∷ []) × (a.role ≡ owner) × (a.status ≡ active)

abbrev pub tally : Result Admin → ℕ → ℕ
tally (ok a) n = suc n
tally (err e) n = n

abbrev pub after_call : (Db → ℕ × Db) → Result Admin × Db → ℕ × Db
after_call later (r, d) = (tally r (later d).0, (later d).1)

-- One of the calls has a COMMIT that is carried out and whose acknowledgement is lost.
abbrev pub HasLost : List OwnerCall → Type 0
HasLost [] = ⊥
HasLost (c ∷ cs) = (c.link.commit_fate ≡ lost_after) ⊎ HasLost cs

-- What a history comes to: nothing, or one owner in a table that was empty, whom one call or, if an
-- acknowledgement was lost, no call has returned.
abbrev pub Elects : List OwnerCall → Db → ℕ × Db → Type 0
Elects cs d (n, d') =
    ((n ≡ 0) × (d' ≡ d))
    ⊎ (((n ≡ 1) ⊎ ((n ≡ 0) × HasLost cs)) × (d.admins ≡ []) × ((a : Admin) × HasOwner a d'))

module _ (is_uuid : String → Bool) where
  record_owner-admins :
      (draws : OwnerDraws) (id : String) (d d' : Db)
      → record_owner is_uuid draws id d ≡ ok (tt, d')
      → d'.admins ≡ d.admins
  unfolding record_owner create_audit_event create_outbox_event
  record_owner-admins draws id d d' h = ground (arith, h)

  create_owner-admins :
      (id : String) (now : ℕ) (d d' : Db) (a : Admin)
      → create_owner id now d ≡ ok (a, d')
      → (a ≡ new_owner id now) × (d'.admins ≡ insert (new_owner id now) d.admins)
  unfolding create_owner
  create_owner-admins id now d d' a h = ground (arith, h)

  owner_stands :
      (id : String) (now : ℕ) (d d1 d2 d' : Db) (created a : Admin)
      → d.admins ≡ []
      → (created ≡ new_owner id now) × (d1.admins ≡ insert (new_owner id now) d.admins)
      → d2.admins ≡ d1.admins
      → ◌≡◌ {A = Result (Admin × Db)} (ok (created, d2)) (ok (a, d'))
      → (d.admins ≡ []) × HasOwner a d'
  owner_stands id now d d1 d2 d' created a none_yet (named, one) kept h =
      let same : created ≡ a = cc in
      let store : d2 ≡ d' = cc in
      let is_owner : a ≡ new_owner id now = sym same ∙ named in
      (
        none_yet,
        (
          sym (ap (λ e. e.admins) store)
              ∙ kept
              ∙ one
              ∙ ap (insert (new_owner id now)) none_yet
              ∙ ap (λ o. o ∷ []) (sym is_owner),
          ap (λ o. o.role) is_owner,
          ap (λ o. o.status) is_owner,
        ),
      )

  owner_body_ok :
      (draws : OwnerDraws) (now : ℕ) (d d' : Db) (a : Admin)
      → owner_body is_uuid draws now d ≡ ok (a, d')
      → (d.admins ≡ []) × HasOwner a d'
  unfolding owner_body count_admins
  owner_body_ok draws now d d' a h =
      let (free, h1) = require_ok (length d.admins == 0) already_bootstrapped _ h in
      let (id, drawn, h2) = or_fail_ok draws.admin_id entropy_failed _ h1 in
      let (created, d1, made, h3) = >>=-eq-ok (create_owner id now) _ h2 in
      let (recorded, d2, kept, h4) = >>=-eq-ok (record_owner is_uuid draws id) _ h3 in
      owner_stands id now d d1 d2 d' created a (length_zero d.admins free)
        (create_owner-admins id now d d1 created made) (record_owner-admins draws id d1 d2 kept) h4

  bootstrap_owner_ok :
      (link : Link) (draws : OwnerDraws) (now : ℕ) (d d' : Db) (a : Admin)
      → bootstrap_owner is_uuid link draws now d ≡ (ok a, d')
      → (d.admins ≡ []) × HasOwner a d'
  unfolding bootstrap_owner
  bootstrap_owner_ok link draws now d d' a h =
      owner_body_ok draws now d d' a
        (transact_ok link (owner_body is_uuid draws now) d a d' (rolled_back_ok _ a d' h))

  -- A failure has changed nothing, or has made an owner and lost the acknowledgement.
  abbrev Fails : Link → Db → Db → Type 0
  Fails link d d' =
      (d' ≡ d) ⊎ ((link.commit_fate ≡ lost_after) × (d.admins ≡ []) × ((a : Admin) × HasOwner a d'))

  bootstrap_owner_failed :
      (link : Link) (draws : OwnerDraws) (now : ℕ) (d d' : Db) (e : Error)
      → bootstrap_owner is_uuid link draws now d ≡ (err e, d')
      → Fails link d d'
  unfolding bootstrap_owner
  bootstrap_owner_failed link draws now d d' e h =
      let (c, failure) = rolled_back_err _ e d' h in
      elim (transact_failed link (owner_body is_uuid draws now) d c d' failure) [
        | inl same ↦ inl same
        | inr lost ↦
            let (none_yet, stands) = owner_body_ok draws now d d' lost.value lost.body in
            inr (lost.fate, none_yet, (lost.value, stands))
      ]

  -- A history of calls: how many of them returned an administrator, and what they leave.
  unfoldable pub bootstrap_owners : List OwnerCall → Db → ℕ × Db
  bootstrap_owners [] d = (0, d)
  bootstrap_owners (c ∷ cs) d =
      after_call (bootstrap_owners cs) (bootstrap_owner is_uuid c.link c.draws c.now d)

  occupied_call :
      (later : Db → ℕ × Db) (c : OwnerCall) (d : Db) (a : Admin)
      → d.admins ≡ a ∷ []
      → later d ≡ (0, d)
      → (r : Result Admin × Db) → bootstrap_owner is_uuid c.link c.draws c.now d ≡ r
      → after_call later r ≡ (0, d)
  occupied_call later c d a full rest (ok b, d') h =
      let (free, made) = bootstrap_owner_ok c.link c.draws c.now d d' b h in cc
  occupied_call later c d a full rest (err e, d') h =
      elim (bootstrap_owner_failed c.link c.draws c.now d d' e h) [
        | inl same ↦ rw (same, rest)
        | inr (fate, free, stands) ↦ cc
      ]

  occupied :
      (cs : List OwnerCall) (d : Db) (a : Admin)
      → d.admins ≡ a ∷ []
      → bootstrap_owners cs d ≡ (0, d)
  unfolding bootstrap_owners
  occupied [] d a h = refl
  occupied (c ∷ cs) d a h =
      occupied_call (bootstrap_owners cs) c d a h (occupied cs d a h)
        (bootstrap_owner is_uuid c.link c.draws c.now d) refl

  later_Elects :
      (c : OwnerCall) (cs : List OwnerCall) (d : Db) (x : ℕ × Db)
      → Elects cs d x
      → Elects (c ∷ cs) d x
  later_Elects c cs d (n, d') (inl kept) = inl kept
  later_Elects c cs d (n, d') (inr (inl one, free, stands)) = inr (inl one, free, stands)
  later_Elects c cs d (n, d') (inr (inr (none_made, lost), free, stands)) =
      inr (inr (none_made, inr lost), free, stands)

  call_Elects :
      (c : OwnerCall) (cs : List OwnerCall) (d : Db) (r : Result Admin × Db)
      → bootstrap_owner is_uuid c.link c.draws c.now d ≡ r
      → Elects cs d (bootstrap_owners cs d)
      → Elects (c ∷ cs) d (after_call (bootstrap_owners cs) r)
  call_Elects c cs d (ok a, d') h rest =
      let (free, stands) = bootstrap_owner_ok c.link c.draws c.now d d' a h in
      rw (occupied cs d' a stands.0) (inr (inl refl, free, (a, stands)))
  call_Elects c cs d (err e, d') h rest =
      elim (bootstrap_owner_failed c.link c.draws c.now d d' e h) [
        | inl same ↦ rw same (later_Elects c cs d (bootstrap_owners cs d) rest)
        | inr (fate, free, (a, stands)) ↦
            rw (occupied cs d' a stands.0) (inr (inr (refl, inl fate), free, (a, stands)))
      ]

  -- In every history of calls of `BootstrapOwner`, over any links, either none returns an
  -- administrator and the database stays as it was, or the table of administrators was empty and in
  -- the end holds one row, an active owner; in that case exactly one call returns an administrator,
  -- or none does and one of the calls has a COMMIT whose acknowledgement is lost.
  pub bootstrap_owners_once : (cs : List OwnerCall) (d : Db) → Elects cs d (bootstrap_owners cs d)
  unfolding bootstrap_owners
  bootstrap_owners_once [] d = inl (refl, refl)
  bootstrap_owners_once (c ∷ cs) d =
      call_Elects c cs d (bootstrap_owner is_uuid c.link c.draws c.now d) refl
        (bootstrap_owners_once cs d)

  -- On a database without administrators, over a link that holds and with three UUIDs of which the
  -- last two are new to the audit and the outbox, `BootstrapOwner` returns an administrator, the
  -- active owner that then stands alone in the table.
  pub bootstrap_owner_first :
      (link : Link) (now : ℕ) (d : Db) (id audit_id outbox_id : String)
      → IsUp link
      → d.admins ≡ []
      → is_uuid id ≡ true
      → exists (λ e. e.id == audit_id) d.audit ≡ false
      → exists (λ e. e.id == outbox_id) d.outbox ≡ false
      → (d' : Db) × (bootstrap_owner is_uuid link
            (record { admin_id = some id; audit_id = some audit_id; outbox_id = some outbox_id })
            now
            d
          ≡ (ok (new_owner id now), d'))
        × HasOwner (new_owner id now) d'
  unfolding bootstrap_owner owner_body record_owner count_admins create_owner create_audit_event
      create_outbox_event exists nat_eq
  bootstrap_owner_first link now d id audit_id outbox_id up free valid new_audit new_event = (
    record d {
      admins = new_owner id now ∷ [];
      audit =
          insert
            (record {
              id = audit_id;
              actor_admin_id = none;
              action = "admin.owner.bootstrap";
              resource_type = "admin";
              resource_id = id;
            })
            d.audit;
      outbox =
          insert
            (record {
              id = outbox_id;
              topic = "admin.owner.bootstrapped";
              aggregate_type = "admin";
              aggregate_id = id;
            })
            d.outbox;
    },
    simp (up.begins, up.commits, free, valid, new_audit, new_event),
    (refl, refl, refl),
  )
