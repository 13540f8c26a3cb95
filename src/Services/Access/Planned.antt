-- ===== src/Services/Access/Planned.antt =====
-- What a plan of `Create` is made of.
use ez_vpn_lego.Prelude.{
  ◌≡◌, refl, ap, sym, ◌∙◌, ℕ, String, Option, none, some, List, [], ◌∷◌, ◌++◌, ◌<>◌, map,
}
use ez_vpn_lego.Prelude.Text.{trim_space}
use ez_vpn_lego.Store.Rows.{Db}
use ez_vpn_lego.Store.Tx as Store
use ez_vpn_lego.Postgres.Access.{AccessState, EncryptedCredential}
use ez_vpn_lego.Reality as Driver
use ez_vpn_lego.Reality.{render, share_uri, generate_short_id}
use ez_vpn_lego.Secretbox as Secret
use ez_vpn_lego.Secretbox.{seal, open_secret}
use ez_vpn_lego.Services.{
  invalid_argument, got, drawn, by_driver, by_secrets, stepped, required, Libraries, InstanceSecret,
  CredentialSecret,
}
use ez_vpn_lego.Services.Access.{
  CreateAccessRequest, Repository, Ids, Randoms, generate_ids, Plan, decoded, first_name,
  is_valid_request, open_credentials, settings_of, plan_of, publish, draft, plan, loaded, prepare,
}

driver_got : {V : Type 0} {v : V} (r : Driver.Result V) → by_driver r ≡ got v → r ≡ Driver.made v
driver_got (Driver.refused e) h = cc
driver_got (Driver.made w) h = cc

secrets_got : {V : Type 0} {v : V} (r : Secret.Result V) → by_secrets r ≡ got v → r ≡ Secret.done v
secrets_got (Secret.sealed_out e) h = cc
secrets_got (Secret.done w) h = cc

drawn_got : {V : Type 0} {v : V} (o : Option V) → drawn o ≡ got v → o ≡ some v
drawn_got none h = cc
drawn_got (some w) h = cc

decoded_got : {V : Type 0} {v : V} (o : Option V) → decoded o ≡ got v → o ≡ some v
decoded_got none h = cc
decoded_got (some w) h = cc

loaded_got :
    {V : Type 0} {v : V} (r : Store.Result (V × Db))
    → loaded r ≡ got v
    → (d : Db) × (r ≡ Store.ok (v, d))
loaded_got (Store.ok (v, d)) h = (d, cc)
loaded_got (Store.err e) h = cc

-- The identifier and the name of a credential, opened and as it is stored.
abbrev pub shown : Driver.Credential → String × String
shown c = (c.id, c.label)

abbrev pub stored : EncryptedCredential → String × String
stored c = (c.id, c.name)

module _ (libraries : Libraries) where
  open libraries use {
    aead, valid_target, is_ip, query_escape, path_escape, encode_config, encode_credential,
    decode_instance, decode_credential,
  }

  -- What is sealed of a credential.
  abbrev pub secret_of : Driver.Credential → CredentialSecret
  secret_of c = record { uuid = c.uuid; short_id = c.short_id }

  -- What a plan is made of: the stored credentials, opened, and a new one with the UUID, the short ID
  -- and the name of the request. The rendered configuration, the URI of the result and the sealed
  -- secret of the rows are all about that one credential.
  pub record IsPlanned (randoms : Randoms) (request : CreateAccessRequest) (state : AccessState)
      (p : Plan) : Type 0 where
    pub plaintext : List ℕ
    pub instance' : InstanceSecret
    pub credentials : List Driver.Credential
    pub fresh : Driver.Credential
    pub server_name : String
    pub settings_opened :
        open_secret aead state.instance_settings ("protocol_instances:" <> state.instance_id)
        ≡ Secret.done plaintext
    pub settings_decoded : decode_instance plaintext ≡ some instance'
    pub opened : open_credentials libraries state.credentials ≡ got credentials
    pub named : fresh.id ≡ p.staged.credential_id
    pub finalized_id : p.finalized.credential_id ≡ p.staged.credential_id
    pub labelled : fresh.label ≡ trim_space request.name
    pub uuid_drawn : randoms.vless_uuid ≡ some fresh.uuid
    pub short_id_drawn : generate_short_id randoms.short_id ≡ Driver.made fresh.short_id
    pub rendered :
        render valid_target encode_config (record {
          settings = settings_of libraries instance';
          credentials = credentials ++ (fresh ∷ []);
        })
        ≡ Driver.made p.content
    pub shared :
        share_uri is_ip query_escape path_escape state.public_address instance'.port
          instance'.public_key server_name fresh
        ≡ Driver.made p.result.uri
    pub sealed :
        seal aead randoms.credential_nonce
          (encode_credential (secret_of fresh))
          ("credentials:" <> fresh.id)
        ≡ Secret.done p.staged.credential_secret

  -- What `publish` adds to a configuration.
  record IsPublished (randoms : Randoms) (state : AccessState) (i : InstanceSecret) (ids : Ids)
      (credential : Driver.Credential) (content : List ℕ) (p : Plan) : Type 0 where
    pub server_name : String
    pub content_kept : p.content ≡ content
    pub named : p.staged.credential_id ≡ ids.credential
    pub finalized_id : p.finalized.credential_id ≡ ids.credential
    pub shared :
        share_uri is_ip query_escape path_escape state.public_address i.port i.public_key
          server_name credential
        ≡ Driver.made p.result.uri
    pub sealed :
        seal aead randoms.credential_nonce
          (encode_credential (secret_of credential))
          ("credentials:" <> ids.credential)
        ≡ Secret.done p.staged.credential_secret

  publish_got :
      (randoms : Randoms) (request : CreateAccessRequest) (name : String) (state : AccessState)
      (i : InstanceSecret) (ids : Ids) (credential : Driver.Credential) (content : List ℕ)
      (p : Plan)
      → publish libraries randoms request name state i ids credential content ≡ got p
      → IsPublished randoms state i ids credential content p
  unfolding publish
  publish_got randoms request name state i ids credential content p h =
      let (server_name, h0, h1) = stepped (first_name i.server_names) _ h in
      let (uri, h2, h3) =
        stepped
          (by_driver (
            share_uri is_ip query_escape path_escape state.public_address i.port i.public_key
              server_name credential))
          _ h1 in
      let (box, h4, h5) =
        stepped
          (by_secrets (
            seal aead randoms.credential_nonce (encode_credential (secret_of credential))
              ("credentials:" <> ids.credential)))
          _ h3 in
      let (revision, h6, h7) =
        stepped (by_secrets (seal aead randoms.revision_nonce content _)) _ h5 in
      let same : plan_of libraries request name state ids content uri box revision ≡ p = cc in
      record {
        server_name = server_name;
        content_kept = ap (λ (q : Plan). q.content) (sym same);
        named = ap (λ (q : Plan). q.staged.credential_id) (sym same);
        finalized_id = ap (λ (q : Plan). q.finalized.credential_id) (sym same);
        shared = driver_got _ h2 ∙ ap (λ (q : Plan). Driver.made q.result.uri) same;
        sealed = secrets_got _ h4 ∙ ap (λ (q : Plan). Secret.done q.staged.credential_secret) same;
      }

  draft_got :
      (randoms : Randoms) (request : CreateAccessRequest) (state : AccessState) (plaintext : List ℕ)
      (i : InstanceSecret) (p : Plan)
      → open_secret aead state.instance_settings ("protocol_instances:" <> state.instance_id)
        ≡ Secret.done plaintext
      → decode_instance plaintext ≡ some i
      → draft libraries randoms request (trim_space request.name) state i ≡ got p
      → IsPlanned randoms request state p
  unfolding draft
  draft_got randoms request state plaintext i p settings_opened settings_decoded h =
      let (credentials, opened, h1) = stepped (open_credentials libraries state.credentials) _ h in
      let (ids, h2, h3) = stepped (generate_ids randoms.uuids) _ h1 in
      let (uuid, h4, h5) = stepped (drawn randoms.vless_uuid) _ h3 in
      let (short_id, h6, h7) = stepped (by_driver (generate_short_id randoms.short_id)) _ h5 in
      let fresh : Driver.Credential = record {
        id = ids.credential;
        uuid = uuid;
        short_id = short_id;
        label = trim_space request.name;
      } in
      let (content, made, h8) =
        stepped
          (by_driver (
            render valid_target encode_config (record {
              settings = settings_of libraries i;
              credentials = credentials ++ (fresh ∷ []);
            })))
          _ h7 in
      let published =
        publish_got randoms request (trim_space request.name) state i ids fresh content p h8 in
      record {
        plaintext = plaintext;
        instance' = i;
        credentials = credentials;
        fresh = fresh;
        server_name = published.server_name;
        settings_opened = settings_opened;
        settings_decoded = settings_decoded;
        opened = opened;
        named = sym published.named;
        finalized_id = published.finalized_id ∙ sym published.named;
        labelled = refl;
        uuid_drawn = drawn_got _ h4;
        short_id_drawn = driver_got _ h6;
        rendered = driver_got _ made ∙ ap Driver.made (sym published.content_kept);
        shared = published.shared;
        sealed = published.sealed;
      }

  -- A plan is made from what the repository loads.
  pub prepare_got :
      (repository : Repository) (randoms : Randoms) (request : CreateAccessRequest) (d : Db)
      (p : Plan)
      → prepare repository libraries randoms request d ≡ got p
      → (state : AccessState) × (d' : Db) × (repository.load d ≡ Store.ok (state, d'))
        × IsPlanned randoms request state p
  unfolding prepare plan
  prepare_got repository randoms request d p h =
      let (valid, h1) =
        required (is_valid_request libraries request (trim_space request.name)) invalid_argument _
          h in
      let (state, kept, h2) = stepped (loaded (repository.load d)) _ h1 in
      let (d', read) = loaded_got (repository.load d) kept in
      let (plaintext, h3, h4) =
        stepped
          (by_secrets
            (open_secret aead state.instance_settings ("protocol_instances:" <> state.instance_id)))
          _ h2 in
      let (i, h5, h6) = stepped (decoded (decode_instance plaintext)) _ h4 in
      (
        state,
        d',
        read,
        draft_got randoms request state plaintext i p (secrets_got _ h3) (decoded_got _ h5) h6,
      )

  -- Opening keeps the identifiers and the names, in order.
  pub open_credentials_names :
      (cs : List EncryptedCredential) (ds : List Driver.Credential)
      → open_credentials libraries cs ≡ got ds
      → map shown ds ≡ map stored cs
  unfolding open_credentials
  open_credentials_names [] ds h = let same : [] ≡ ds = cc in rw (← same) refl
  open_credentials_names (c ∷ cs) ds h =
      let (plaintext, h1, h2) =
        stepped (by_secrets (open_secret aead c.secret ("credentials:" <> c.id))) _ h in
      let (secret, h3, h4) = stepped (decoded (decode_credential plaintext)) _ h2 in
      let (rest, opened, h5) = stepped (open_credentials libraries cs) _ h4 in
      let first : Driver.Credential = record {
        id = c.id;
        uuid = secret.uuid;
        short_id = secret.short_id;
        label = c.name;
      } in
      let same : first ∷ rest ≡ ds = cc in
      rw (← same) (ap (λ ns. stored c ∷ ns) (open_credentials_names cs rest opened))
