-- ===== src/Helper/Server.antt =====
-- internal/helper/server.go: the HTTP server in front of the engine. A header is read as it was
-- set; `Decoded` is what encoding/json makes of a body.
pub mod Guarded
mod Tests
use ez_vpn_lego.Prelude.{
  ℕ, String, Bool, true, false, not, ◌&&◌, Option, none, some, List, length, ltb, ◌==◌, nat_eq,
  bytes_eq, string_eq, if◌then◌else◌,
}
use ez_vpn_lego.Prelude.Text.{is_empty}
use ez_vpn_lego.Http.{Decoded, invalid, trailing, single, trim_prefix}
use ez_vpn_lego.Helper.Disk.{World}
use ez_vpn_lego.Helper.Engine.{ApplyRequest, ApplyError}

pub record Message : Type 0 where
  pub method : String
  pub path : String
  pub authorization : String
  pub body : List ℕ

pub data Text : Type 0 where
  applied refusal : Text
  engine_error : ApplyError → Text

pub record Reply : Type 0 where
  pub status : ℕ
  pub text : Text

-- `writeHelperError`; the words of a refusal are left out.
abbrev pub write_helper_error : ℕ → Text → Reply
write_helper_error status text = record { status = status; text = text }

abbrev pub max_apply_body : ℕ
max_apply_body = 16384

-- What the two calls of the decoder come to; an error here is a body beyond the limit too.
abbrev decoded : Decoded ApplyRequest → Bool → Decoded ApplyRequest
decoded body true = invalid
decoded body false = body

unfoldable pub read_body : (List ℕ → Decoded ApplyRequest) → List ℕ → Decoded ApplyRequest
read_body decode body = decoded (decode body) (ltb max_apply_body (length body))

-- What is written once the engine has run.
abbrev pub written : Option ApplyError × World → Reply × World
written (none, w) = (record { status = 200; text = applied }, w)
written (some e, w) = (write_helper_error 422 (engine_error e), w)

module _ (sha256 : String → List ℕ) (token_hash : List ℕ) (decode : List ℕ → Decoded ApplyRequest)
    (engine : ApplyRequest → World → Option ApplyError × World) where
  abbrev pub carried_out : Decoded ApplyRequest → World → Reply × World
  carried_out invalid w = (write_helper_error 400 refusal, w)
  carried_out trailing w = (write_helper_error 400 refusal, w)
  carried_out (single request) w = written (engine request w)

  -- `applyXray`
  unfoldable pub apply_xray : Message → World → Reply × World
  apply_xray message w = carried_out (read_body decode message.body) w

  -- The test of `authenticate`.
  unfoldable pub is_authorized : Message → Bool
  is_authorized message =
      let provided = trim_prefix message.authorization "Bearer " in
      not (is_empty provided) && sha256 provided == token_hash

  -- `authenticate`
  abbrev pub authenticate : (Message → World → Reply × World) → Message → World → Reply × World
  authenticate next message w =
      if is_authorized message then next message w else (write_helper_error 401 refusal, w)

  -- `Handler`, with the answers of `http.ServeMux` to what is not its only route.
  unfoldable pub serve : Message → World → Reply × World
  serve message w =
      if message.path == "/v1/xray/apply"
      then (if message.method == "POST"
          then authenticate apply_xray message w
          else (write_helper_error 405 refusal, w))
      else (write_helper_error 404 refusal, w)
