-- ===== src/Daemon/Process.antt =====
-- `daemon.Run`: what is started before the socket is opened, what is served, and what is left.
mod Steps
pub mod Stages
use ez_vpn_lego.Prelude.{
  ◌≡◌, ◌⊎◌, inl, inr, refl, ℕ, String, Bool, true, false, Option, none, some, List, [],
  if◌then◌else◌,
}
use ez_vpn_lego.Config as Config
use ez_vpn_lego.Store.Rows.{Db}
use ez_vpn_lego.Secretbox as Secret
use ez_vpn_lego.Secretbox.{SecretError, Aead, new}
use ez_vpn_lego.UnixSocket.{Files, ListenFaults}
use ez_vpn_lego.UnixSocket.Serving.{
  Ending, ServeError, Run, answer_all, end_error, listen_and_serve,
}
use ez_vpn_lego.Services.{System}
use ez_vpn_lego.Http.{Request, Response}
use package.ez_vpn_lego.Daemon.{Conditions, Parts, serve_daemon}

-- The calls before the socket that fail, each by its place in the code.
pub record Startup : Type 0 where
  pub connect : Bool
  pub migration_ping : Bool
  pub dialect : Bool
  pub pool : Bool
  pub ping : Bool
  pub listen : ListenFaults

pub data MigrateError : Type 0 where
  open_failed ping_failed dialect_failed apply_failed : MigrateError

pub data RunError : Type 0 where
  migration : MigrateError → RunError
  pool_failed unreachable : RunError
  secret : SecretError → RunError
  serving : ServeError → RunError

abbrev applied : Bool × Db → Option MigrateError × Db
applied (true, d) = (none, d)
applied (false, d) = (some apply_failed, d)

-- `migrate.Up`, for what `goose.UpContext` does, and whether it succeeds.
unfoldable pub up : (Db → Bool × Db) → Startup → Db → Option MigrateError × Db
up goose startup d =
    if startup.connect
    then (some open_failed, d)
    else if startup.migration_ping
    then (some ping_failed, d)
    else if startup.dialect
    then (some dialect_failed, d)
    else applied (goose d)

abbrev pub serving_error : Option ServeError → Option RunError
serving_error none = none
serving_error (some e) = some (serving e)

abbrev pub as_run : Run ServeError Response System → Run RunError Response System
as_run r = record {
  error = serving_error r.error;
  answers = r.answers;
  files = r.files;
  state = r.state;
}

abbrev pub refused : RunError → Files → System → Run RunError Response System
refused e files s = record { error = some e; answers = []; files = files; state = s }

-- `goose` runs the migrations, and `cipher` makes the cipher of a key.
module _ (parts : Parts) (goose : Db → Bool × Db) (cipher : List ℕ → Option Aead)
    (configuration : Config.Daemon) where
  -- The daemon's parts with the cipher of its key.
  abbrev pub keyed : Aead → Parts
  keyed a = record parts { libraries = record parts.libraries { aead = a } }

  -- The handler behind the socket.
  abbrev pub handle : Aead → Conditions × Request → System → Response × System
  handle a (c, request) =
      serve_daemon (keyed a) configuration.candidate_directory configuration.api_token c request

  module _ (startup : Startup) (calls : List (Conditions × Request)) (ending : Ending)
      (files : Files) where
    abbrev pub with_key : System → Secret.Result Aead → Run RunError Response System
    with_key s (Secret.sealed_out e) = refused (secret e) files s
    with_key s (Secret.done a) =
        as_run (
          listen_and_serve (handle a) startup.listen configuration.socket_path calls ending files s)

    abbrev pub migrated : System → Option MigrateError × Db → Run RunError Response System
    migrated s (some e, d) = refused (migration e) files (record s { db = d })
    migrated s (none, d) =
        if startup.pool
        then refused pool_failed files (record s { db = d })
        else if startup.ping
        then refused unreachable files (record s { db = d })
        else with_key (record s { db = d }) (new cipher configuration.master_key)

    -- `Run`
    unfoldable pub run : System → Run RunError Response System
    run s = migrated s (up goose startup s.db)
