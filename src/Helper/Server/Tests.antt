-- ===== src/Helper/Server/Tests.antt =====
-- The helper's server at concrete messages, for a hash that takes the codes of the text.
use ez_vpn_lego.Prelude.{
  false, ◌≡◌, refl, ℕ, String, Option, none, some, List, [], ◌∷◌, string_eq, nat_eq, bytes_eq,
}
use ez_vpn_lego.Prelude.Text.{codes}
use ez_vpn_lego.Http.{Decoded, single, trim_prefix}
use ez_vpn_lego.Helper.Disk.{World}
use ez_vpn_lego.Helper.Engine.{ApplyRequest, ApplyError, checksum_mismatch}
use package.ez_vpn_lego.Helper.Server.{
  Message, engine_error, read_body, apply_xray, is_authorized, serve,
}
use package.ez_vpn_lego.Helper.Server.Guarded.{Cases, serve-Cases}

abbrev request : ApplyRequest
request = record { revision_id = "r"; checksum = "c" }

abbrev decode : List ℕ → Decoded ApplyRequest
decode body = single request

abbrev engine : ApplyRequest → World → Option ApplyError × World
engine r w = (some checksum_mismatch, w)

abbrev world : World
world = record { disk = λ q. none; unsynced = λ q. false; history = []; running = none }

abbrev message : String → Message
message authorization = record {
  method = "POST";
  path = "/v1/xray/apply";
  authorization = authorization;
  body = 1 ∷ [];
}

rejected :
    serve codes (codes "token") decode engine (message "Bearer token") world
    ≡ (record { status = 422; text = engine_error checksum_mismatch }, world)
unfolding serve apply_xray read_body is_authorized trim_prefix string_eq nat_eq bytes_eq
rejected = refl

unauthorized :
    (serve codes (codes "token") decode engine (message "Bearer other") world).0.status ≡ 401
unfolding serve apply_xray read_body is_authorized trim_prefix string_eq nat_eq bytes_eq
unauthorized = refl

serve-Cases_example :
    Cases codes
      (codes "token")
      decode
      engine
      (message "Bearer token")
      world
      (serve codes (codes "token") decode engine (message "Bearer token") world)
serve-Cases_example = serve-Cases codes (codes "token") decode engine (message "Bearer token") world
