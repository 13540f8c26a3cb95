-- ===== src/Helper/Client.antt =====
-- adapters/helperclient/client.go: how the daemon asks the helper to apply a revision.
pub mod Wire
use ez_vpn_lego.Prelude.{String, Bool, true, false, Option, none, some}
use ez_vpn_lego.Helper.Disk.{World}
use ez_vpn_lego.Helper.Engine.{ApplyRequest, ApplyError}

-- What becomes of the call over the socket: it does not get through, or the answer is lost, after
-- 45 seconds for example, or it is read.
pub data Delivery : Type 0 where
  unreachable answer_lost answered : Delivery

abbrev pub status_ok : Option ApplyError → Bool
status_ok none = true
status_ok (some e) = false

-- `ApplyXray`, for what the helper does with a request; true is success.
unfoldable pub apply_xray :
    (ApplyRequest → World → Option ApplyError × World)
    → Delivery
    → String
    → String
    → World
    → Bool × World
apply_xray engine unreachable revision_id checksum w = (false, w)
apply_xray engine answer_lost revision_id checksum w =
    let (e, w') = engine (record { revision_id = revision_id; checksum = checksum }) w in
    (false, w')
apply_xray engine answered revision_id checksum w =
    let (e, w') = engine (record { revision_id = revision_id; checksum = checksum }) w in
    (status_ok e, w')
