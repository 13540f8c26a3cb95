-- ===== src/Postgres/Access/Stored.antt =====
-- The row of the new credential, from `Stage` to `Finalize`.
use ez_vpn_lego.Prelude.{
  ◌≡◌, refl, ap, ◌∙◌, ℕ, String, Bool, false, some, List, ◌==◌, eq_self, string_eq, arith,
}
use ez_vpn_lego.Core.Status.{active}
use ez_vpn_lego.Store.Rows.{Db, Credential, Operation, AuditEvent}
use ez_vpn_lego.Store.Table.{find, exists, insert, update, touched, find-insert, find-update}
use ez_vpn_lego.Store.Tx.{ok, Link}
use ez_vpn_lego.Store.Tx.Laws.{>>=-eq-ok, transact_ok}
use ez_vpn_lego.Store.Queries.Admins.{get_active_admin}
use ez_vpn_lego.Store.Queries.Events.{create_audit_event}
use ez_vpn_lego.Store.Queries.Operations.{create_operation, complete_operation}
use ez_vpn_lego.Store.Queries.Users.{create_user}
use ez_vpn_lego.Store.Queries.Vpn.{
  create_device, create_credential, new_credential, create_revision, supersede_revisions,
  activate_device, activate_credential, verify_revision,
}
use package.ez_vpn_lego.Postgres.Access.{
  StageAccessParams, FinalizeAccessParams, access_operation, stage_body, finalize_body, stage,
  finalize,
}

create_credential_ok :
    (id device_id node_id driver : String) (version : ℕ) (secret : List ℕ) (d d' : Db)
    → create_credential id device_id node_id driver version secret d ≡ ok (tt, d')
    → (exists (λ c. c.id == id) d.credentials ≡ false)
      × (d'.credentials
          ≡ insert (new_credential id device_id node_id driver version secret) d.credentials)
unfolding create_credential
create_credential_ok id device_id node_id driver version secret d d' h = ground (arith, h)

create_revision-credentials :
    (id node_id hash : String) (content : List ℕ) (d d' : Db)
    → create_revision id node_id hash content d ≡ ok (tt, d')
    → d'.credentials ≡ d.credentials
unfolding create_revision
create_revision-credentials id node_id hash content d d' h = ground (arith, h)

-- The row that `Stage` inserts.
abbrev pub staged_row : StageAccessParams → Credential
staged_row input =
    new_credential input.credential_id input.device_id input.node_id input.driver 1
      input.credential_secret

pub find-stage_body :
    (is_uuid : String → Bool) (now : ℕ) (input : StageAccessParams) (d d' : Db)
    → stage_body is_uuid now input d ≡ ok (tt, d')
    → find (λ c. c.id == input.credential_id) d'.credentials ≡ some (staged_row input)
unfolding stage_body
find-stage_body is_uuid now input d d' h =
    let (admin, d1, h1, k1) = >>=-eq-ok (get_active_admin is_uuid input.admin_id) _ h in
    let (operation, d2, h2, k2) =
      >>=-eq-ok (create_operation (access_operation is_uuid input)) _ k1 in
    let (user, d3, h3, k3) = >>=-eq-ok (create_user input.user_id input.name now) _ k2 in
    let (device, d4, h4, k4) =
      >>=-eq-ok (create_device input.device_id input.user_id input.name) _ k3 in
    let (credential, d5, h5, k5) =
      >>=-eq-ok
        (create_credential input.credential_id input.device_id input.node_id input.driver 1
          input.credential_secret)
        _ k4 in
    let (fresh, inserted) =
      create_credential_ok input.credential_id input.device_id input.node_id input.driver 1
        input.credential_secret d4 d5 h5 in
    let kept =
      create_revision-credentials input.revision_id input.node_id input.revision_hash
        input.revision_content d5 d' k5 in
    ap (find (λ c. c.id == input.credential_id)) (kept ∙ inserted)
    ∙ find-insert (λ c. c.id == input.credential_id) (staged_row input) d4.credentials fresh
        (eq_self input.credential_id)

complete_operation-credentials :
    (id : String) (d d' : Db) (o : Operation)
    → complete_operation id d ≡ ok (o, d')
    → d'.credentials ≡ d.credentials
unfolding complete_operation
complete_operation-credentials id d d' o h = ground (arith, h)

verify_revision-credentials :
    (id : String) (d d' : Db) → verify_revision id d ≡ ok (tt, d') → d'.credentials ≡ d.credentials
unfolding verify_revision
verify_revision-credentials id d d' h = ground (arith, h)

create_audit_event-credentials :
    (event : AuditEvent) (d d' : Db)
    → create_audit_event event d ≡ ok (tt, d')
    → d'.credentials ≡ d.credentials
unfolding create_audit_event
create_audit_event-credentials event d d' h = ground (arith, h)

supersede_revisions-credentials :
    (id : String) (d d' : Db)
    → supersede_revisions id d ≡ ok (tt, d')
    → d'.credentials ≡ d.credentials
unfolding supersede_revisions
supersede_revisions-credentials id d d' h = ground (arith, h)

activate_device-credentials :
    (id : String) (d d' : Db) → activate_device id d ≡ ok (tt, d') → d'.credentials ≡ d.credentials
unfolding activate_device
activate_device-credentials id d d' h = ground (arith, h)

-- What `Finalize` makes of a credential.
abbrev pub activated : Credential → Credential
activated c = record c { status = active }

activate_credential-credentials :
    (id : String) (d d' : Db)
    → activate_credential id d ≡ ok (tt, d')
    → d'.credentials ≡ update (λ c. c.id == id) activated d.credentials
unfolding activate_credential
activate_credential-credentials id d d' h = ground (arith, h)

finalize_body-credentials :
    (is_uuid : String → Bool) (input : FinalizeAccessParams) (d d' : Db)
    → finalize_body is_uuid input d ≡ ok (tt, d')
    → d'.credentials ≡ update (λ c. c.id == input.credential_id) activated d.credentials
unfolding finalize_body
finalize_body-credentials is_uuid input d d' h =
    let (superseded, d1, h1, k1) = >>=-eq-ok (supersede_revisions input.node_id) _ h in
    let (device, d2, h2, k2) = >>=-eq-ok (activate_device input.device_id) _ k1 in
    let (credential, d3, h3, k3) = >>=-eq-ok (activate_credential input.credential_id) _ k2 in
    let (verified, d4, h4, k4) = >>=-eq-ok (verify_revision input.revision_id) _ k3 in
    let (operation, d5, h5, k5) = >>=-eq-ok (complete_operation input.operation_id) _ k4 in
    create_audit_event-credentials _ d5 d' k5
    ∙ complete_operation-credentials input.operation_id d4 d5 operation h5
    ∙ verify_revision-credentials input.revision_id d3 d4 h4
    ∙ activate_credential-credentials input.credential_id d2 d3 h3
    ∙ ap (update (λ c. c.id == input.credential_id) activated) (
        activate_device-credentials input.device_id d1 d2 h2
        ∙ supersede_revisions-credentials input.node_id d d1 h1)

-- A `Stage` and a `Finalize` of its credential that succeed leave the row that was staged, active.
pub find-finalize :
    (is_uuid : String → Bool) (link link' : Link) (now : ℕ) (staged : StageAccessParams)
    (input : FinalizeAccessParams) (d d' d'' : Db)
    → input.credential_id ≡ staged.credential_id
    → stage is_uuid link now staged d ≡ (ok tt, d')
    → finalize is_uuid link' input d' ≡ (ok tt, d'')
    → find (λ c. c.id == staged.credential_id) d''.credentials
      ≡ some (activated (staged_row staged))
unfolding stage finalize
find-finalize is_uuid link link' now staged input d d' d'' same h k =
    let table =
      finalize_body-credentials is_uuid input d' d''
        (transact_ok link' (finalize_body is_uuid input) d' tt d'' k) in
    ap (find (λ c. c.id == staged.credential_id)) table
    ∙ find-update (λ c. c.id == staged.credential_id) (λ c. c.id == input.credential_id) activated
        d'.credentials (λ c. refl)
    ∙ ap (touched (λ c. c.id == input.credential_id) activated) (
        find-stage_body is_uuid now staged d d'
          (transact_ok link (stage_body is_uuid now staged) d tt d' h))
    ∙ rw (same, eq_self staged.credential_id) refl
