-- ===== src/Helper/Client/Wire/Tests.antt =====
-- A call of the helper over its server, for a hash that takes the codes of the text.
use ez_vpn_lego.Prelude.{◌≡◌, refl, ℕ, false, Option, none, List, [], ◌∷◌, arith}
use ez_vpn_lego.Prelude.Text.{codes}
use ez_vpn_lego.Http.{Decoded, single}
use ez_vpn_lego.Helper.Disk.{World}
use ez_vpn_lego.Helper.Engine.{ApplyRequest, ApplyError}
use ez_vpn_lego.Helper.Client as Direct
use ez_vpn_lego.Helper.Client.{answered}
use package.ez_vpn_lego.Helper.Client.Wire.{call, server, call-serve}

abbrev encode : ApplyRequest → List ℕ
encode r = 1 ∷ []

abbrev decode : List ℕ → Decoded ApplyRequest
decode body = single (record { revision_id = "r"; checksum = "c" })

abbrev engine : ApplyRequest → World → Option ApplyError × World
engine r w = (none, w)

abbrev world : World
world = record { disk = λ q. none; unsynced = λ q. false; history = []; running = none }

call-serve_example :
    call "token" encode (server codes "token" encode decode engine) answered "r" "c" world
    ≡ Direct.apply_xray engine answered "r" "c" world
call-serve_example =
    call-serve codes "token" encode decode engine answered "r" "c" world refl refl (omega arith)
