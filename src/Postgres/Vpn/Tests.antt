-- ===== src/Postgres/Vpn/Tests.antt =====
-- A failed bootstrap at concrete data.
use ez_vpn_lego.Prelude.{◌≡◌, refl, String, Bool, true, false, [], ◌∷◌, string_eq, nat_eq}
use ez_vpn_lego.Core.Status.{active, status_eq, lifecycle_eq}
use ez_vpn_lego.Core.Model.{Admin, owner}
use ez_vpn_lego.Store.Rows.{Db, empty}
use ez_vpn_lego.Store.Table.{find, exists, update}
use ez_vpn_lego.Store.Tx.{vpn_already_bootstrapped, Result, ok, err, Link, acknowledged}
use ez_vpn_lego.Store.Queries.Admins.{get_active_admin}
use ez_vpn_lego.Store.Queries.Operations.{create_operation, fail_operation}
use ez_vpn_lego.Store.Queries.Users.{create_user}
use ez_vpn_lego.Store.Queries.Vpn.{
  count_nodes, create_node, create_device, create_instance, create_credential, create_revision,
  fail_revision, state_eq, driver_name,
}
use ez_vpn_lego.Postgres.Vpn.{StageVpnParams, stage_rows, stage_body, stage, fail_body, fail}
use ez_vpn_lego.Postgres.Vpn.Blocked.{stage-fail_blocks}

abbrev admin : Admin
admin = record { id = "a"; role = owner; status = active; created_at = 1; updated_at = 1 }

abbrev start : Db
start = record empty { admins = admin ∷ [] }

abbrev up : Link
up = record { begin_fails = false; commit_fate = acknowledged }

abbrev input : StageVpnParams
input = record {
  admin_id = "a";
  idempotency_key = "0123456789abcdef";
  operation_id = "o";
  user_id = "u";
  device_id = "e";
  node_id = "n";
  instance_id = "i";
  credential_id = "c";
  revision_id = "r";
  public_address = "192.0.2.1";
  driver = driver_name;
  instance_settings = [];
  credential_secret = [];
  revision_content = [];
  revision_hash = "0000000000000000000000000000000000000000000000000000000000000000";
}

abbrev any : String → Bool
any s = true

staged : Result (Unit {0}) × Db
unfolding stage stage_body stage_rows fail fail_body get_active_admin create_operation
    fail_operation create_user count_nodes create_node create_device create_instance
    create_credential create_revision fail_revision find exists update string_eq nat_eq status_eq
    lifecycle_eq state_eq
staged = stage any up 5 input start

staged_ok : staged.0 ≡ ok tt
unfolding staged
staged_ok = refl

stage-fail_blocks_example :
    let failed_db = (fail up "o" "r" "xray_apply_failed" staged.1).1 in
    stage any up 6 input failed_db ≡ (err vpn_already_bootstrapped, failed_db)
unfolding staged
stage-fail_blocks_example =
    stage-fail_blocks any 5 6 input input up up up start staged.1 "xray_apply_failed" admin refl
      refl refl refl
