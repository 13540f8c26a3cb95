-- ===== src/Services/Running.antt =====
-- What both services end with: a candidate that is written, and a helper that reports success.
use ez_vpn_lego.Prelude.{◌≡◌, ap, sym, ◌∙◌, ℕ, String, Bool, true, Option, none, some, List, arith}
use ez_vpn_lego.Helper.Disk.{World, File}
use ez_vpn_lego.Helper.Engine.{Engine, Env, ApplyRequest, ApplyError, apply}
use ez_vpn_lego.Helper.Engine.Outcomes.{IsApart, apply_ok}
use ez_vpn_lego.Helper.Engine.Recovery.{installed}
use ez_vpn_lego.Helper.Client.{Delivery, status_ok, apply_xray}
use ez_vpn_lego.Candidate.{CandidateFaults, private_file, write}
use ez_vpn_lego.Candidate.Handover.{write_ok}
use package.ez_vpn_lego.Services.{Helper}

-- The helper behind its socket.
abbrev pub helper_of : (List ℕ → List ℕ) → Engine → Env → Delivery → Helper
helper_of sha256 engine env delivery = apply_xray (apply sha256 engine env) delivery

apply_xray_ok :
    (run : ApplyRequest → World → Option ApplyError × World) (delivery : Delivery)
    (revision_id checksum : String) (w w' : World)
    → apply_xray run delivery revision_id checksum w ≡ (true, w')
    → run (record { revision_id = revision_id; checksum = checksum }) w ≡ (none, w')
unfolding apply_xray
apply_xray_ok run Delivery.unreachable revision_id checksum w w' h = cc
apply_xray_ok run Delivery.answer_lost revision_id checksum w w' h = absurd (ground (arith, h))
apply_xray_ok run Delivery.answered revision_id checksum w w' h =
    read (run (record { revision_id = revision_id; checksum = checksum }) w) h
  where
    read :
        (r : Option ApplyError × World)
        → Path (Bool × World) (status_ok r.0, r.1) (true, w')
        → r ≡ (none, w')
    read (none, v) k = ap (λ (x : Bool × World). (none, x.1)) k
    read (some e, v) k = cc

some_injective : {f g : File} → Path (Option File) (some f) (some g) → f ≡ g
some_injective h = cc

-- Xray runs with a content, which stands at the configuration's path.
abbrev pub Serves : Engine → World → List ℕ → Type 0
Serves engine w content =
    (w.running ≡ some (installed content))
    × (w.disk engine.configuration_path ≡ some (installed content))

-- A helper that reports success for a candidate that was written serves its content.
pub written-Serves :
    (sha256 : List ℕ → List ℕ) (engine : Engine) (env : Env) (delivery : Delivery)
    (faults : CandidateFaults) (revision_id hash : String) (content : List ℕ) (w w' : World)
    → IsApart engine env
    → (write faults engine.candidate_directory revision_id content w).0 ≡ none
    → helper_of sha256 engine env delivery revision_id hash
        (write faults engine.candidate_directory revision_id content w).1
      ≡ (true, w')
    → Serves engine w' content
written-Serves sha256 engine env delivery faults revision_id hash content w w' apart written h =
    let placed = write faults engine.candidate_directory revision_id content w in
    let asked : ApplyRequest = record { revision_id = revision_id; checksum = hash } in
    let applied = apply_xray_ok (apply sha256 engine env) delivery revision_id hash placed.1 w' h in
    let (file, vetted, disk, running) =
      apply_ok sha256 engine env asked placed.1 apart
        (ap (λ (x : Option ApplyError × World). x.0) applied) in
    let (fresh, there) = write_ok faults engine.candidate_directory revision_id content w written in
    let same : file ≡ private_file content = some_injective (sym vetted.found ∙ there) in
    let state = ap (λ (x : Option ApplyError × World). x.1) applied in
    let kept = ap (λ (f : File). some (installed f.content)) same in
    (
      sym (ap (λ (w : World). w.running) state) ∙ running ∙ kept,
      sym (ap (λ (w : World). w.disk engine.configuration_path) state) ∙ disk ∙ kept,
    )
