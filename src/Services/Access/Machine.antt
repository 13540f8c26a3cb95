-- ===== src/Services/Access/Machine.antt =====
-- An access created with the real repository and helper, where one credential is stored already.
use ez_vpn_lego.Prelude.{◌≡◌, refl, ap, ◌<>◌, string_eq, nat_eq, bytes_eq}
use ez_vpn_lego.Prelude.Text.{hex_decode, hex_encode, byte_length, trim_space}
use ez_vpn_lego.Core.Status.{status_eq, lifecycle_eq}
use ez_vpn_lego.Store.Rows.{Db}
use ez_vpn_lego.Store.Tx as Store
use ez_vpn_lego.Uuid.{matches_revision}
use ez_vpn_lego.Helper.Disk.{atomic_write}
use ez_vpn_lego.Helper.Engine.{
  apply, carry_out, prepare, vet, read_candidate, check_file, open_file, limit_read, exceeds,
  is_unsafe, read_current, equal_hex, validate, settle, recover, install,
}
use ez_vpn_lego.Helper.Client.{answered, apply_xray}
use ez_vpn_lego.Store.Table.{find, exists, update}
use ez_vpn_lego.Store.Queries.Admins.{get_active_admin}
use ez_vpn_lego.Store.Queries.Events.{create_audit_event}
use ez_vpn_lego.Store.Queries.Operations.{create_operation, complete_operation}
use ez_vpn_lego.Store.Queries.Users.{create_user}
use ez_vpn_lego.Store.Queries.Vpn.{
  create_device, create_credential, create_revision, activate_device, activate_credential,
  verify_revision, supersede_revisions, get_instance, active_rows, list_credentials, state_eq,
}
use ez_vpn_lego.Postgres.Access as Access
use ez_vpn_lego.Postgres.Access.{AccessState}
use ez_vpn_lego.Candidate.{write}
use ez_vpn_lego.Secretbox.{seal, open_secret}
use ez_vpn_lego.Reality.{
  generate_short_id, validate_credential, validate_credentials, validate_state, render, share_uri,
  itoa, join_host_port, encode_query,
}
use ez_vpn_lego.Services.{System, Outcome, got}
use ez_vpn_lego.Services.Samples.{digest, env, engine, any, is_apart}
use ez_vpn_lego.Services.Running.{helper_of, Serves}
use ez_vpn_lego.Services.Access as Service
use ez_vpn_lego.Services.Access.Samples.{libraries, request, randoms, around, stored_db, start}
use ez_vpn_lego.Services.Access.{
  CreateAccessRequest, CreateAccessResult, Randoms, Surroundings, Plan, generate_ids,
  is_valid_request, open_credentials, publish, draft, create,
}
use ez_vpn_lego.Services.Access.Outcomes.{HasCreated}
use ez_vpn_lego.Services.Access.Running.{postgres, IsExtended, HasRow, create_running}

ran : Outcome CreateAccessResult × System
unfolding create Service.prepare Service.plan draft publish open_credentials is_valid_request
    generate_ids generate_short_id render validate_state validate_credentials validate_credential
    hex_decode hex_encode share_uri itoa join_host_port encode_query seal open_secret write
    byte_length trim_space string_eq nat_eq bytes_eq status_eq lifecycle_eq state_eq apply_xray
    apply carry_out prepare vet matches_revision read_candidate check_file open_file limit_read
    exceeds is_unsafe read_current equal_hex validate settle recover install atomic_write
    get_active_admin create_operation create_user create_device create_credential create_revision
    activate_device activate_credential verify_revision supersede_revisions get_instance active_rows
    list_credentials complete_operation create_audit_event find exists update Access.load
    Access.stage Access.finalize Access.stage_body Access.finalize_body
ran =
    create (postgres any) (helper_of digest engine env answered) "c" around libraries randoms
      request start

abbrev result : CreateAccessResult
result = record {
  operation_id = "o";
  user_id = "u";
  device_id = "d";
  uri =
      "vless://v@192.0.2.1:443?encryption=none&flow=xtls-rprx-vision&fp=chrome&pbk=p&security=reality&sid=0001020304050607&sni=example.org&type=tcp#Phone";
}

ran_got : ran.0 ≡ got result
unfolding ran ◌<>◌
ran_got = refl

create_running_example :
    (p : Plan) × (state : AccessState) × (d : Db) × (Service.prepare
        (postgres any)
        libraries
        randoms
        request
        stored_db
      ≡ got p)
    × (Access.load stored_db ≡ Store.ok (state, d))
    × IsExtended libraries randoms request state p
    × HasCreated (postgres any) (helper_of digest engine env answered) "c" around p start ran.1
    × HasRow p ran.1.db
    × (result ≡ p.result)
    × Serves engine ran.1.world p.content
unfolding ran
create_running_example =
    create_running any libraries engine env answered randoms around request start ran.1 result
      is_apart (ap (λ (o : Outcome CreateAccessResult). (o, ran.1)) ran_got)
