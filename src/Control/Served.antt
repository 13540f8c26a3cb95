-- ===== src/Control/Served.antt =====
-- The client over the API of adapters/httpapi: a call of the client is a call of the service.
use ez_vpn_lego.Prelude.{
  ◌≡◌, refl, ℕ, ◌≤◌, String, true, false, Option, some, List, length, eq_self, nat_eq, bytes_eq,
  string_eq, arith,
}
use ez_vpn_lego.Prelude.Text.{is_empty}
use ez_vpn_lego.Http.{
  Request, Response, Payload, VpnBody, Ports, Decoders, Decoded, single, decode_json,
  max_request_body, is_authentic,
}
use ez_vpn_lego.Http.Tokens.{trim_prefix-append}
use ez_vpn_lego.Http.Handlers.{
  access_response, create_access, vpn_response, bootstrap_vpn, user_response, create_user,
}
use ez_vpn_lego.Http.Server.{dispatch, serve}
use package.ez_vpn_lego.Control as Client
use package.ez_vpn_lego.Control.{
  Json, Network, Reply, Client, reply_of, request_api, bearer, with_admin,
}

-- What the client makes of a handler's answer to the outcome of a service.
abbrev pub served : {A V S : Type 0} → (Payload → Option V) → (A → Response) → A × S → Reply V × S
served read write (outcome, s) = (reply_of read (write outcome), s)

decode_json_within :
    {V : Type 0} (decode : List ℕ → Decoded V) (body : List ℕ) (v : V)
    → decode body ≡ single v
    → length body ≤ max_request_body
    → decode_json decode body ≡ some v
unfolding decode_json
decode_json_within decode body v read small = ground (arith, read, small)

module _ {S : Type 0} (sha256 : String → List ℕ) (ports : Ports S) (decoders : Decoders)
    (json : Json) (client : Client) where
  -- An API that was made with the client's token and whose every answer arrives.
  abbrev pub api : Network S
  api request s =
      let (response, s') = serve sha256 (sha256 client.token) ports decoders request s in
      (some response, s')

  token_known :
      (request : Request)
      → is_empty client.token ≡ false
      → request.authorization ≡ bearer client.token
      → is_authentic sha256 (sha256 client.token) request ≡ true
  unfolding is_authentic
  token_known request named header =
      rw
        (
          header,
          named,
          trim_prefix-append "Bearer " client.token,
          named,
          eq_self (sha256 client.token),
        )
        refl

  abbrev message : String → String → String → List ℕ → Request
  message path admin_id key body = record {
    method = "POST";
    path = path;
    authorization = bearer client.token;
    admin_id = admin_id;
    idempotency_key = key;
    subject = "";
    body = body;
  }

  create_access-serve :
      (name key admin_id : String) (s : S)
      → is_empty client.token ≡ false
      → is_empty admin_id ≡ false
      → decoders.name_body (json.write_name name) ≡ single name
      → length (json.write_name name) ≤ max_request_body
      → Client.create_access json api client name key admin_id s
        ≡ served json.read_access access_response (
            ports.create_access
              (record { admin_id = admin_id; name = name; idempotency_key = key })
              s)
  unfolding Client.create_access request_api serve dispatch create_access string_eq
  create_access-serve name key admin_id s named known read small =
      rw
        (
          known,
          token_known (message "/v1/access" admin_id key (json.write_name name)) named refl,
          decode_json_within decoders.name_body (json.write_name name) name read small,
        )
        refl

  pub create_user-serve :
      (name key : String) (s : S)
      → is_empty client.token ≡ false
      → is_empty client.admin_id ≡ false
      → decoders.name_body (json.write_name name) ≡ single name
      → length (json.write_name name) ≤ max_request_body
      → Client.create_user json api client name key s
        ≡ served json.read_user user_response (
            ports.create_user
              (record { admin_id = client.admin_id; name = name; idempotency_key = key })
              s)
  unfolding Client.create_user request_api serve dispatch create_user string_eq
  create_user-serve name key s named known read small =
      rw
        (
          known,
          token_known (message "/v1/users" client.admin_id key (json.write_name name)) named refl,
          decode_json_within decoders.name_body (json.write_name name) name read small,
        )
        refl

  bootstrap_vpn-serve :
      (body : VpnBody) (key : String) (s : S)
      → is_empty client.token ≡ false
      → is_empty client.admin_id ≡ false
      → decoders.vpn_body (json.write_vpn body) ≡ single body
      → length (json.write_vpn body) ≤ max_request_body
      → Client.bootstrap_vpn json api client body key s
        ≡ served json.read_vpn vpn_response (
            ports.bootstrap_vpn
              (record {
                admin_id = client.admin_id;
                public_address = body.public_address;
                port = body.port;
                target = body.target;
                server_name = body.server_name;
                idempotency_key = key;
              })
              s)
  unfolding Client.bootstrap_vpn request_api serve dispatch bootstrap_vpn string_eq
  bootstrap_vpn-serve body key s named known read small =
      rw
        (
          known,
          token_known (message "/v1/bootstrap/vpn" client.admin_id key (json.write_vpn body)) named
              refl,
          decode_json_within decoders.vpn_body (json.write_vpn body) body read small,
        )
        refl

  -- With a token, over an API that was made with the same one, and with encodings of at most 65536
  -- bytes that the API's decoders read back: `CreateAccess`, `CreateUser` and `BootstrapVPN` for an
  -- administrator are each one call of the service, with that administrator, that body and that key,
  -- and come to what the client makes of the handler's answer to its outcome.
  pub calls-serve :
      (name key admin_id : String) (body : VpnBody) (s : S)
      → is_empty client.token ≡ false
      → is_empty admin_id ≡ false
      → is_empty client.admin_id ≡ false
      → decoders.name_body (json.write_name name) ≡ single name
      → length (json.write_name name) ≤ max_request_body
      → decoders.vpn_body (json.write_vpn body) ≡ single body
      → length (json.write_vpn body) ≤ max_request_body
      → (Client.create_access json api client name key admin_id s
          ≡ served json.read_access access_response (
              ports.create_access
                (record { admin_id = admin_id; name = name; idempotency_key = key })
                s))
        × (Client.create_user json api client name key s
            ≡ served json.read_user user_response (
                ports.create_user
                  (record { admin_id = client.admin_id; name = name; idempotency_key = key })
                  s))
        × (Client.bootstrap_vpn json api client body key s
            ≡ served json.read_vpn vpn_response (
                ports.bootstrap_vpn
                  (record {
                    admin_id = client.admin_id;
                    public_address = body.public_address;
                    port = body.port;
                    target = body.target;
                    server_name = body.server_name;
                    idempotency_key = key;
                  })
                  s))
  calls-serve name key admin_id body s named given known read small read_vpn small_vpn = (
    create_access-serve name key admin_id s named given read small,
    create_user-serve name key s named known read small,
    bootstrap_vpn-serve body key s named known read_vpn small_vpn,
  )
