-- ===== src/Services/Access/Panics.antt =====
-- services/access/service.go: the index `instance.ServerNames[0]` of `Create`.
use ez_vpn_lego.Prelude.{
  ◌≡◌, ◌≢◌, refl, ap, ℕ, String, Bool, true, false, Option, none, some, List, [], ◌∷◌, arith,
}
use ez_vpn_lego.Prelude.Text.{trim_space}
use ez_vpn_lego.Store.Rows.{Db}
use ez_vpn_lego.Store.Tx as Store
use ez_vpn_lego.Postgres.Access.{AccessState, EncryptedCredential}
use ez_vpn_lego.Reality as Driver
use ez_vpn_lego.Reality.{is_nil, made, render, share_uri, generate_short_id}
use ez_vpn_lego.Reality.Order.{render_made}
use ez_vpn_lego.Secretbox as Secret
use ez_vpn_lego.Secretbox.{seal, open_secret}
use ez_vpn_lego.Candidate.{CandidateError}
use ez_vpn_lego.Helper.Disk.{World}
use ez_vpn_lego.Services.{
  System, ServiceError, index_out_of_range, Outcome, failed, got, ◌>>=◌, ◌>>◌, require, drawn,
  by_driver, by_secrets, Helper, Libraries, InstanceSecret, invalid_argument,
}
use ez_vpn_lego.Services.Access.{
  CreateAccessRequest, CreateAccessResult, Repository, Ids, Randoms, Surroundings, generate_ids,
  Plan, decoded, first_name, is_valid_request, open_credentials, settings_of, publish, draft, plan,
  finished, answered, placed, staged_as, carry_out, loaded, prepare, create,
}

abbrev is_panic : {V : Type 0} → Outcome V → Bool
is_panic (failed index_out_of_range) = true
is_panic _ = false

bind_calm :
    {V W : Type 0} (step : Outcome V) (next : V → Outcome W)
    → is_panic step ≡ false
    → ((v : V) → step ≡ got v → is_panic (next v) ≡ false)
    → is_panic (step >>= next) ≡ false
bind_calm (failed index_out_of_range) next h k = cc
bind_calm (failed invalid_argument) next h k = refl
bind_calm (failed ServiceError.entropy_failed) next h k = refl
bind_calm (failed ServiceError.helper_failed) next h k = refl
bind_calm (failed ServiceError.undecodable) next h k = refl
bind_calm (failed (ServiceError.driver e)) next h k = refl
bind_calm (failed (ServiceError.secret e)) next h k = refl
bind_calm (failed (ServiceError.storage e)) next h k = refl
bind_calm (failed (ServiceError.candidate e)) next h k = refl
bind_calm (failed (ServiceError.not_finalized e)) next h k = refl
bind_calm (got v) next h k = k v refl

driver_calm : {V : Type 0} (r : Driver.Result V) → is_panic (by_driver r) ≡ false
driver_calm (Driver.refused e) = refl
driver_calm (Driver.made v) = refl

secrets_calm : {V : Type 0} (r : Secret.Result V) → is_panic (by_secrets r) ≡ false
secrets_calm (Secret.sealed_out e) = refl
secrets_calm (Secret.done v) = refl

drawn_calm : {V : Type 0} (v : Option V) → is_panic (drawn v) ≡ false
drawn_calm none = refl
drawn_calm (some v) = refl

decoded_calm : {V : Type 0} (v : Option V) → is_panic (decoded v) ≡ false
decoded_calm none = refl
decoded_calm (some v) = refl

loaded_calm : {V : Type 0} (r : Store.Result (V × Db)) → is_panic (loaded r) ≡ false
loaded_calm (Store.ok (v, d)) = refl
loaded_calm (Store.err e) = refl

ids_calm : (uuids : List (Option String)) → is_panic (generate_ids uuids) ≡ false
unfolding generate_ids
ids_calm uuids = ground arith

name_calm : (names : List String) → is_nil names ≡ false → is_panic (first_name names) ≡ false
name_calm [] h = cc
name_calm (n ∷ ns) h = refl

driver_made : {V : Type 0} (r : Driver.Result V) (v : V) → by_driver r ≡ got v → r ≡ Driver.made v
driver_made (Driver.refused e) v h = cc
driver_made (Driver.made w) v h = cc

module _ (libraries : Libraries) where
  open libraries use {
    aead, valid_target, is_ip, query_escape, path_escape, encode_config, encode_credential,
    decode_instance, decode_credential,
  }

  credentials_calm :
      (cs : List EncryptedCredential) → is_panic (open_credentials libraries cs) ≡ false
  unfolding open_credentials
  credentials_calm [] = refl
  credentials_calm (c ∷ cs) =
      bind_calm (by_secrets (open_secret aead c.secret _)) _ (secrets_calm _) (λ plaintext _.
        bind_calm (decoded (decode_credential plaintext)) _ (decoded_calm _) (λ secret _.
          bind_calm (open_credentials libraries cs) _ (credentials_calm cs) (λ rest _. refl)))

  publish_calm :
      (randoms : Randoms) (request : CreateAccessRequest) (name : String) (state : AccessState)
      (i : InstanceSecret) (ids : Ids) (credential : Driver.Credential) (content : List ℕ)
      → is_nil i.server_names ≡ false
      → is_panic (publish libraries randoms request name state i ids credential content) ≡ false
  unfolding publish
  publish_calm randoms request name state i ids credential content h =
      bind_calm (first_name i.server_names) _ (name_calm i.server_names h) (λ server_name _.
        bind_calm
          (by_driver (
            share_uri is_ip query_escape path_escape state.public_address i.port i.public_key
              server_name credential))
          _ (driver_calm _)
          (λ uri _.
            bind_calm (by_secrets (seal aead randoms.credential_nonce _ _)) _ (secrets_calm _)
              (λ box _.
                bind_calm (by_secrets (seal aead randoms.revision_nonce content _)) _
                  (secrets_calm _) (λ r _. refl))))

  draft_calm :
      (randoms : Randoms) (request : CreateAccessRequest) (name : String) (state : AccessState)
      (i : InstanceSecret)
      → is_panic (draft libraries randoms request name state i) ≡ false
  unfolding draft
  draft_calm randoms request name state i =
      bind_calm (open_credentials libraries state.credentials) _
        (credentials_calm state.credentials)
        (λ cs _. bind_calm (generate_ids randoms.uuids) _ (ids_calm randoms.uuids) (λ ids _.
          bind_calm (drawn randoms.vless_uuid) _ (drawn_calm _) (λ uuid _.
            bind_calm (by_driver (generate_short_id randoms.short_id)) _ (driver_calm _)
              (λ short_id _.
                bind_calm (by_driver (render valid_target encode_config _)) _ (driver_calm _)
                  (λ content h.
                    publish_calm randoms request name state i ids _ content
                      (render_made valid_target encode_config (settings_of libraries i) _
                        (driver_made _ content h)).0.names)))))

  prepare_calm :
      (repository : Repository) (randoms : Randoms) (request : CreateAccessRequest) (d : Db)
      → is_panic (prepare repository libraries randoms request d) ≡ false
  unfolding prepare plan
  prepare_calm repository randoms request d = required_calm (is_valid_request libraries request _)
    where
      required_calm :
          (test : Bool)
          → is_panic (
              require test invalid_argument
              >> (loaded (repository.load d) >>= λ state.
                  plan libraries randoms request (trim_space request.name) state))
            ≡ false
      required_calm false = refl
      required_calm true = bind_calm (loaded (repository.load d)) _ (loaded_calm _) (λ state _.
          bind_calm (by_secrets (open_secret aead state.instance_settings _)) _ (secrets_calm _)
            (λ plaintext _.
              bind_calm (decoded (decode_instance plaintext)) _ (decoded_calm _)
                (λ i _. draft_calm randoms request _ state i)))

module _ (repository : Repository) (helper : Helper) (directory : String)
    (around : Surroundings) where
  finished_calm :
      (w : World) (result : CreateAccessResult) (r : Store.Result (Unit {0}) × Db)
      → is_panic (finished w result r).0 ≡ false
  finished_calm w result (Store.ok done, d) = refl
  finished_calm w result (Store.err e, d) = refl

  answered_calm :
      (p : Plan) (d : Db) (r : Bool × World)
      → is_panic (answered repository helper directory around p d r).0 ≡ false
  answered_calm p d (false, w) = refl
  answered_calm p d (true, w) = finished_calm w p.result _

  placed_calm :
      (p : Plan) (d : Db) (r : Option CandidateError × World)
      → is_panic (placed repository helper directory around p d r).0 ≡ false
  placed_calm p d (some e, w) = refl
  placed_calm p d (none, w) = answered_calm p d _

  staged_calm :
      (p : Plan) (w : World) (r : Store.Result (Unit {0}) × Db)
      → is_panic (staged_as repository helper directory around p w r).0 ≡ false
  staged_calm p w (Store.err e, d) = refl
  staged_calm p w (Store.ok done, d) = placed_calm p d _

  carry_out_calm :
      (system : System) (step : Outcome Plan)
      → is_panic step ≡ false
      → is_panic (carry_out repository helper directory around system step).0 ≡ false
  carry_out_calm system (failed reason) h =
      bind_calm {V = Plan} {W = CreateAccessResult} (failed reason) (λ p. failed reason) h
        (λ p _. h)
  carry_out_calm system (got p) h = staged_calm p system.world _

  -- Whatever its arguments and the libraries are, `Create` does not index `instance.ServerNames`
  -- out of range, though it does not check the decoded instance itself.
  pub create_in_range :
      (libraries : Libraries) (randoms : Randoms) (request : CreateAccessRequest) (system : System)
      → (create repository helper directory around libraries randoms request system).0
        ≢ failed index_out_of_range
  unfolding create
  create_in_range libraries randoms request system h = absurd (
      ground (
        arith,
        ap is_panic h,
        carry_out_calm system (prepare repository libraries randoms request system.db)
            (prepare_calm libraries repository randoms request system.db),
      ))
