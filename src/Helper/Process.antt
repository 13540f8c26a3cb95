-- ===== src/Helper/Process.antt =====
-- internal/helper/run.go: the privileged process.
pub mod Invariant
mod Tests
use ez_vpn_lego.Prelude.{ℕ, String, Option, List}
use ez_vpn_lego.Config as Config
use ez_vpn_lego.Http.{Decoded}
use ez_vpn_lego.UnixSocket.{Files, ListenFaults}
use ez_vpn_lego.UnixSocket.Serving.{Ending, ServeError, Run, listen_and_serve}
use ez_vpn_lego.Helper.Disk.{World}
use ez_vpn_lego.Helper.Engine.{Engine, Env, ApplyRequest, apply}
use ez_vpn_lego.Helper.Server.{Message, Reply, serve}

-- The arguments of `NewEngine`; the validator and the service are in each `Env`.
abbrev pub engine_of : Config.Helper → Engine
engine_of configuration = record {
  candidate_directory = configuration.candidate_directory;
  configuration_path = configuration.xray_configuration;
}

module _ (sha256 : List ℕ → List ℕ) (hash : String → List ℕ)
    (decode : List ℕ → Decoded ApplyRequest) (configuration : Config.Helper) where
  -- The handler of the server, for what a request meets on the machine.
  unfoldable pub handle : Env × Message → World → Reply × World
  handle (env, message) =
      serve hash (hash configuration.token) decode (apply sha256 (engine_of configuration) env)
        message

  -- `Run`
  unfoldable pub run :
      ListenFaults → List (Env × Message) → Ending → Files → World → Run ServeError Reply World
  run faults calls ending files w =
      listen_and_serve handle faults configuration.socket_path calls ending files w
