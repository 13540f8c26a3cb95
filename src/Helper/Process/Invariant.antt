-- ===== src/Helper/Process/Invariant.antt =====
-- What holds of the configuration while the helper's process runs.
use ez_vpn_lego.Prelude.{◌≡◌, inl, inr, refl, ℕ, String, Bool, true, Option, none, some, List, All}
use ez_vpn_lego.Config as Config
use ez_vpn_lego.Http.{Decoded}
use ez_vpn_lego.UnixSocket.{Files, ListenFaults}
use ez_vpn_lego.UnixSocket.Serving.{Ending, listen_and_serve-keeps}
use ez_vpn_lego.Helper.Disk.{File, World}
use ez_vpn_lego.Helper.Engine.{Engine, Env, ApplyRequest, ApplyError, apply}
use ez_vpn_lego.Helper.Engine.Outcomes.{IsApart}
use ez_vpn_lego.Helper.Engine.Sound.{IsSound, AllSound, apply-Keeps}
use ez_vpn_lego.Helper.Server.{Message, written}
use ez_vpn_lego.Helper.Server.Guarded.{serve-Cases}
use package.ez_vpn_lego.Helper.Process.{engine_of, handle, run}

-- What Xray accepts, it accepts under every request; the temporary files are not the configuration.
pub record IsMachine (accepts : List ℕ → Bool) (engine : Engine) (call : Env × Message)
    : Type 0 where
  pub apart : IsApart engine call.0
  pub accepted : (content : List ℕ) → call.0.accepts content ≡ true → accepts content ≡ true

written-world : (x : Option ApplyError × World) → (written x).1 ≡ x.1
written-world (none, w) = refl
written-world (some e, w) = refl

module _ (sha256 : List ℕ → List ℕ) (hash : String → List ℕ)
    (decode : List ℕ → Decoded ApplyRequest) (configuration : Config.Helper)
    (accepts : List ℕ → Bool) (first : Option File) where
  abbrev engine : Engine
  engine = engine_of configuration

  handle-AllSound :
      (call : Env × Message) (w : World)
      → IsMachine accepts engine call
      → AllSound accepts first engine w
      → AllSound accepts first engine (handle sha256 hash decode configuration call w).1
  unfolding handle
  handle-AllSound (env, message) w machine sound =
      elim (serve-Cases hash (hash configuration.token) decode (apply sha256 engine env) message
        w) [
          | inl (same, refused) ↦ rw same sound
          | inr (r, asks, ran) ↦
              rw (ran, written-world (apply sha256 engine env r w))
                (apply-Keeps sha256 engine env machine.apart (IsSound accepts first) r w
                  (λ c valid. inr (c, machine.accepted c valid, refl)) sound)
        ]

  -- Whatever requests the process answers, and however its run ends: if the file at the configuration's
  -- path is the first one or one that Xray accepts, and Xray is down or runs with such a file, then so
  -- it is after the run. The temporary files are not the configuration.
  pub run-AllSound :
      (faults : ListenFaults) (calls : List (Env × Message)) (ending : Ending) (files : Files)
      (w : World)
      → All (IsMachine accepts engine) calls
      → AllSound accepts first engine w
      → AllSound accepts first engine
          (run sha256 hash decode configuration faults calls ending files w).state
  unfolding run
  run-AllSound faults calls ending files w machines sound =
      listen_and_serve-keeps (handle sha256 hash decode configuration)
        (AllSound accepts first engine) (IsMachine accepts engine) handle-AllSound faults
        configuration.socket_path calls ending files w machines sound
