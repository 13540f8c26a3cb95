-- ===== src/Daemon.antt =====
-- internal/daemon/run.go: the services that the daemon puts behind its API, and how it starts and
-- stops.
pub mod Served
pub mod Process
mod Tests
use ez_vpn_lego.Prelude.{ℕ, String, Bool, Option, List}
use ez_vpn_lego.Core.Model.{Admin, User}
use ez_vpn_lego.Store.Rows.{Db}
use ez_vpn_lego.Store.Tx as Store
use ez_vpn_lego.Store.Tx.{Link, Tx, transact}
use ez_vpn_lego.Postgres.Users as Users
use ez_vpn_lego.Postgres.Users.{Draws}
use ez_vpn_lego.Postgres.Admins as Admins
use ez_vpn_lego.Postgres.Admins.Owner as Owner
use ez_vpn_lego.Postgres.Admins.Owner.{OwnerDraws}
use ez_vpn_lego.Helper.Engine.{Engine, Env}
use ez_vpn_lego.Helper.Client.{Delivery}
use ez_vpn_lego.Services.{System, ServiceError, index_out_of_range, Outcome, failed, got, Libraries}
use ez_vpn_lego.Services.Running.{helper_of}
use ez_vpn_lego.Services.Bootstrap as Bootstrap
use ez_vpn_lego.Services.Bootstrap.Running as OverVpn
use ez_vpn_lego.Services.Access as Access
use ez_vpn_lego.Services.Access.Running as OverAccess
use ez_vpn_lego.Http.{Request, Response, Answer, value, error, panic, Ports, Decoders}
use ez_vpn_lego.Http.Server as Server

-- What a request meets: the clock, the links of its transactions, the results of the sources of
-- randomness, and the fates of the files, of the helper and of the call to it.
pub record Conditions : Type 0 where
  pub ping : Bool
  pub now : ℕ
  pub link : Link
  pub reading : Link
  pub user_draws : Draws
  pub owner_draws : OwnerDraws
  pub token_bytes : Option (List ℕ)
  pub identity_draw : Option String
  pub vpn_randoms : Bootstrap.Randoms
  pub vpn_around : Bootstrap.Surroundings
  pub access_randoms : Access.Randoms
  pub access_around : Access.Surroundings
  pub env : Env
  pub delivery : Delivery

-- What the daemon is made with: the database's reading of a UUID, the text and the hash of a pairing
-- token, the libraries, the helper's engine, and the decoders of bodies.
pub record Parts : Type 0 where
  pub is_uuid : String → Bool
  pub encode : List ℕ → String
  pub hash : String → List ℕ
  pub libraries : Libraries
  pub engine : Engine
  pub decoders : Decoders

abbrev pub rows_answer : {V : Type 0} → Store.Result V × Db → System → Answer Store.Error V × System
rows_answer (Store.ok v, d) s = (value v, record s { db = d })
rows_answer (Store.err e, d) s = (error e, record s { db = d })

-- A call of a repository, as a handler sees it.
abbrev pub on_rows :
    {V : Type 0} → (Db → Store.Result V × Db) → System → Answer Store.Error V × System
on_rows call s = rows_answer (call s.db) s

-- The outcome of a service, as a handler sees it.
abbrev pub outcome_answer : {V : Type 0} → Outcome V × System → Answer ServiceError V × System
outcome_answer (got v, s) = (value v, s)
outcome_answer (failed index_out_of_range, s) = (panic, s)
outcome_answer (failed e, s) = (error e, s)

module _ (parts : Parts) (directory : String) where
  open parts use {is_uuid, encode, hash, libraries, engine, decoders}

  -- The arguments of `httpapi.New`.
  unfoldable pub ports_of : Conditions → Ports System
  ports_of c = record {
    ping = λ s. c.ping;
    list_users = on_rows (transact c.link Users.list);
    create_user = λ request. on_rows (Users.create is_uuid c.link c.user_draws c.now request);
    bootstrap_owner = on_rows (Owner.bootstrap_owner is_uuid c.link c.owner_draws c.now);
    create_pairing = λ admin_id.
        on_rows (Admins.create_pairing is_uuid encode hash c.link c.token_bytes c.now admin_id);
    claim_pairing = λ token subject.
        on_rows (Admins.claim_pairing hash c.link c.reading c.identity_draw c.now token subject);
    resolve_telegram = λ subject. on_rows (transact c.link (Admins.resolve_telegram subject));
    bootstrap_vpn = λ request s. outcome_answer (
        Bootstrap.bootstrap (OverVpn.postgres is_uuid)
          (helper_of libraries.sha256 engine c.env c.delivery) directory libraries c.vpn_randoms
          c.vpn_around request s);
    create_access = λ request s. outcome_answer (
        Access.create (OverAccess.postgres is_uuid)
          (helper_of libraries.sha256 engine c.env c.delivery) directory c.access_around libraries
          c.access_randoms request s);
  }

  -- The handler of the daemon, for its token.
  unfoldable pub serve_daemon : String → Conditions → Request → System → Response × System
  serve_daemon token c = Server.serve hash (hash token) (ports_of c) decoders
