-- ===== src/Helper/Client/Wire.antt =====
-- adapters/helperclient/client.go against internal/helper/server.go: the call over the socket is the
-- call of the engine.
mod Tests
use ez_vpn_lego.Prelude.{
  ◌≡◌, refl, sym, ap, ◌∙◌, ℕ, ◌≤◌, ◌<>◌, String, Bool, true, false, not, ◌&&◌, Option, none, some,
  List, length, ltb, ◌==◌, eq_self, nat_eq, bytes_eq, string_eq, if◌then◌else◌, arith,
}
use ez_vpn_lego.Prelude.Text.{is_empty}
use ez_vpn_lego.Http.{Decoded, single, trim_prefix}
use ez_vpn_lego.Http.Tokens.{trim_prefix-append}
use ez_vpn_lego.Helper.Disk.{World}
use ez_vpn_lego.Helper.Engine.{ApplyRequest, ApplyError}
use ez_vpn_lego.Helper.Server.{
  Message, Reply, max_apply_body, read_body, written, apply_xray, is_authorized, serve,
}
use ez_vpn_lego.Helper.Client as Direct
use ez_vpn_lego.Helper.Client.{Delivery, unreachable, answer_lost, answered, status_ok}

-- The request that `ApplyXray` builds.
abbrev pub apply_message : String → (ApplyRequest → List ℕ) → String → String → Message
apply_message token encode revision_id checksum = record {
  method = "POST";
  path = "/v1/xray/apply";
  authorization = "Bearer " <> token;
  body = encode (record { revision_id = revision_id; checksum = checksum });
}

-- What `ApplyXray` makes of the answer; true is success.
abbrev pub accepted : Reply × World → Bool × World
accepted (reply, w) = (reply.status == 200, w)

abbrev unheard : Reply × World → Bool × World
unheard (reply, w) = (false, w)

-- `ApplyXray`, for what the server does with a message.
unfoldable pub call :
    String
    → (ApplyRequest → List ℕ)
    → (Message → World → Reply × World)
    → Delivery
    → String
    → String
    → World
    → Bool × World
call token encode server unreachable revision_id checksum w = (false, w)
call token encode server answer_lost revision_id checksum w =
    unheard (server (apply_message token encode revision_id checksum) w)
call token encode server answered revision_id checksum w =
    accepted (server (apply_message token encode revision_id checksum) w)

accepted-written : (r : Option ApplyError × World) → accepted (written r) ≡ (status_ok r.0, r.1)
unfolding nat_eq
accepted-written (none, w) = refl
accepted-written (some e, w) = refl

unheard-written : (r : Option ApplyError × World) → unheard (written r) ≡ (false, r.1)
unheard-written (none, w) = refl
unheard-written (some e, w) = refl

read_body_within :
    (decode : List ℕ → Decoded ApplyRequest) (body : List ℕ) (r : ApplyRequest)
    → decode body ≡ single r
    → length body ≤ max_apply_body
    → read_body decode body ≡ single r
unfolding read_body
read_body_within decode body r read small = ground (arith, read, small)

module _ (sha256 : String → List ℕ) (token : String) (encode : ApplyRequest → List ℕ)
    (decode : List ℕ → Decoded ApplyRequest)
    (engine : ApplyRequest → World → Option ApplyError × World) where
  -- A server that was made with the client's token.
  abbrev pub server : Message → World → Reply × World
  server = serve sha256 (sha256 token) decode engine

  token_known :
      (revision_id checksum : String)
      → is_empty token ≡ false
      → is_authorized sha256
          (sha256 token)
          decode
          engine
          (apply_message token encode revision_id checksum)
        ≡ true
  unfolding is_authorized
  token_known revision_id checksum named =
      rw (trim_prefix-append "Bearer " token, named, eq_self (sha256 token)) refl

  server_runs :
      (revision_id checksum : String) (w : World)
      → let r : ApplyRequest = record { revision_id = revision_id; checksum = checksum } in
        is_empty token ≡ false
        → decode (encode r) ≡ single r
        → length (encode r) ≤ max_apply_body
        → server (apply_message token encode revision_id checksum) w ≡ written (engine r w)
  unfolding serve apply_xray string_eq
  server_runs revision_id checksum w named read small =
      rw (token_known revision_id checksum named, read_body_within decode _ _ read small) refl

  -- With a token that is not empty, an encoding that the server's decoder reads back, and a request of
  -- at most 16384 bytes, `ApplyXray` over the server that has the same token is `ApplyXray` of the
  -- engine itself, for every fate of the call.
  pub call-serve :
      (delivery : Delivery) (revision_id checksum : String) (w : World)
      → is_empty token ≡ false
      → decode (encode (record { revision_id = revision_id; checksum = checksum }))
        ≡ single (record { revision_id = revision_id; checksum = checksum })
      → length (encode (record { revision_id = revision_id; checksum = checksum })) ≤ max_apply_body
      → call token encode server delivery revision_id checksum w
        ≡ Direct.apply_xray engine delivery revision_id checksum w
  unfolding call Direct.apply_xray
  call-serve unreachable revision_id checksum w named read small = refl
  call-serve answer_lost revision_id checksum w named read small =
      ap unheard (server_runs revision_id checksum w named read small) ∙ unheard-written _
  call-serve answered revision_id checksum w named read small =
      ap accepted (server_runs revision_id checksum w named read small) ∙ accepted-written _
