-- ===== src/Lib.antt =====
-- Verification of the control plane, a Go program that manages one VPN node that runs Xray.
--
-- The parts and how they meet. The daemon (cmd/lego-vpnd) serves an HTTP API (adapters/httpapi). It
-- reads and writes PostgreSQL by the repositories of adapters/postgres, which run the queries that
-- internal/dbgen generates from db/queries. To bootstrap the node or to create an access, a service
-- stages rows by a repository, writes a candidate configuration to a directory, and asks the
-- privileged helper (internal/helper) to apply it, under a revision ID that internal/id has made; it
-- then finalizes the rows, or marks them as failed. The helper checks the candidate, replaces the
-- configuration of Xray by a rename, restarts the service, and puts the old file back if that fails.
-- core/domain has the statuses and the records that all of them exchange.
--
-- Which file models what:
-- - Core/Status, Core/Model: core/domain/status.go (`Validate`, `Terminal`, `CanTransitionTo`) and
--   core/domain/model.go. Core/Transitions is about the state machine.
-- - Uuid: internal/id/uuid.go (`NewUUID`) and the regular expression `revisionPattern` of
--   internal/helper/apply.go, one test for each character.
-- - Helper/Disk: `atomicWrite` and `rollback` of internal/helper/apply.go over a disk that is a
--   function from paths to files, with the paths whose content is not synced. `World.history` keeps every
--   moment that there was; a crash meets one of these or the present one, and leaves anything of what was
--   not synced then. The program does not read it. Helper/Engine: `Engine.Apply`, `readCandidate`,
--   `readCurrent`, `equalHex`, and the validator and the service of internal/helper/system.go.
-- - Store/Rows, Store/Table: the tables of internal/dbgen/models.go as lists of rows. Store/Tx: queries
--   and transactions. Store/Queries: a module for each file of db/queries.
-- - Postgres/Users, Postgres/Vpn, Postgres/Access: the repositories of the same name in
--   adapters/postgres. Postgres/Access/Stored follows the row of a credential through them.
-- - Postgres/Admins: the pairing of adapters/postgres/admins.go; Postgres/Admins/Owner: its
--   `BootstrapOwner`.
-- - Reality: drivers/xray/reality/driver.go. Reality/Checked is about `validateState`, Reality/Order
--   about `Render`.
-- - Secretbox: internal/secretbox/secretbox.go over a cipher `Aead` with the laws `IsAead` and a source
--   of bytes with the laws `FillsBuffer`.
-- - Candidate: internal/candidate/write.go; Candidate/Handover is about what the helper makes of it.
-- - UnixSocket: internal/unixsocket/listen.go; UnixSocket/Serving is what internal/daemon/run.go and
--   internal/helper/run.go do with the socket. Helper/Process: the rest of internal/helper/run.go.
-- - Daemon: internal/daemon/run.go, the services behind the API; Daemon/Process its `Run`, with
--   internal/migrate/migrate.go. Daemon/Served follows a request for an access down to Xray.
-- - Services: the errors and interfaces of services. Services/Bootstrap: services/vpnbootstrap/service.go,
--   as a plan that writes nothing and its execution, over the interfaces `Repository` and `Helper`;
--   Services/Bootstrap/Running fills these with Postgres/Vpn and with Helper/Client, which is
--   adapters/helperclient/client.go, and Helper/Engine.
-- - Services/Access: services/access/service.go in the same manner, without its lock;
--   Services/Access/Running fills its interfaces, and Services/Running has what both services share.
-- - Http: adapters/httpapi/server.go, over the interface `Ports` of the services: the authentication and
--   the decoding of bodies; Http/Handlers the handlers, Http/Server the routes.
-- - Helper/Server: internal/helper/server.go. Helper/Client/Wire: the message of adapters/helperclient
--   and what that server makes of it.
-- - Control: adapters/controlclient/client.go; Control/Served puts it before Http.
-- - Bot: internal/telegrambot/app.go over that client; Bot/Effects and Bot/Dialogue are about its handlers.
-- - Ctl: cmd/lego-vpnctl/main.go over the client and the configuration.
-- - Config: internal/config, over an environment of variables and files; Config/Agreement is about what
--   the processes share.
-- - Prelude: the names, tests and lemmas that the others share; Prelude/Text has `strings.TrimSpace`,
--   lengths in runes and bytes, and encoding/hex; Prelude/Base64 has `base64.RawURLEncoding`;
--   Prelude/Order has `strings.Compare` and sorting by it.
--
-- What stands for code that is not in the repository: SHA-256 is a parameter `sha256`; `is_uuid` is
-- what the database driver accepts as the text of a UUID; `hash` and `encode` are the SHA-256 and the
-- base64 text of a pairing token. `Env` and `WriteFaults` hold the answers of the operating system, of
-- `xray run -test` and of systemctl to one `Apply`, any of which may be a failure; `Link` says whether
-- BEGIN is answered, and whether COMMIT is acknowledged, answered with a rollback, or not answered, and
-- then carried out or not; `Draws` holds the results of `id.NewUUID`, and `Randoms` those of every
-- source of randomness of a bootstrap. `Libraries` and `Decoders` are what the services call of crypto,
-- encoding/json, net and net/url. `Delivery` says what becomes of a call to the helper. `goose`
-- is what the migration library does to the database, and `cipher` what crypto/aes makes of a key.
--
-- Conventions and bounds. Numbers are natural numbers; a byte is one below 256; a time is a number of
-- seconds. Strings are valid UTF-8. IDs are canonical texts, so that comparing texts is comparing
-- UUIDs. The digits of a port are at most five; every other loop is structural, without fuel. A
-- transaction whose connection breaks before its COMMIT stores nothing, and transactions run one after
-- another, as the advisory locks make those run that take them. The JSON that a repository stores for
-- itself is a value of `Input`. The candidate directory and the path of the configuration are clean absolute paths, a symbolic link is a
-- file that is not regular, and no other process writes while `Apply` runs.
--
-- Not modelled: the columns that no query reads (results, attempts, most times); the JSON of requests,
-- answers and configurations; the pauses between attempts; the SQL of migrations; logging,
-- the timeouts of the HTTP servers, and the main functions, which are input and output only. The
-- requests of a process are served one after another.
pub mod Prelude
pub mod Config
pub mod Core
pub mod Uuid
pub mod Helper
pub mod Store
pub mod Postgres
pub mod Candidate
pub mod UnixSocket
pub mod Reality
pub mod Secretbox
pub mod Services
pub mod Http
pub mod Control
pub mod Daemon
pub mod Bot
pub mod Ctl
