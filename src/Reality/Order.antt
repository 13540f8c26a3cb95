-- ===== src/Reality/Order.antt =====
-- `Render` and the order of the credentials.
use ez_vpn_lego.Prelude.{
  ℕ, ◌≡◌, ◌≢◌, refl, ap, sym, String, Bool, true, false, Option, none, some, List, [], ◌∷◌, ◌++◌,
  map, arith, All, nat_eq,
}
use ez_vpn_lego.Prelude.Text.{codes, is_empty}
use ez_vpn_lego.Prelude.Order.{
  AreDistinct, IsSorted, Reordered, Reordered-map, sort_by-Reordered, sort_by-IsSorted,
  sort_by-reorders,
}
use ez_vpn_lego.Reality.{
  Credential, Settings, State, RealityError, Config, client_of, clients_of, client_key,
  configuration, made, validate_credentials, validate_state, is_nil, finish, encoded, render,
}
use ez_vpn_lego.Reality.Checked.{
  AreChecked, AreChecked-Reordered, validate_credentials_iff, uuid_key, short_id_key,
}

-- The settings are complete.
pub record AreComplete (valid_target : String → Bool) (s : Settings) : Type 0 where
  pub listens : is_empty s.listen ≡ false
  pub has_port : s.port ≢ 0
  pub targets : valid_target s.target ≡ true
  pub names : is_nil s.server_names ≡ false
  pub has_key : is_empty s.private_key ≡ false

module _ (valid_target : String → Bool) where
  validate_state_sound :
      (state : State)
      → validate_state valid_target state ≡ none
      → AreComplete valid_target state.settings × AreChecked state.credentials
  unfolding validate_state
  validate_state_sound state h =
      let (complete, checked) = parts state.settings state.credentials h in
      (complete, (validate_credentials_iff state.credentials).0 checked)
    where
      parts :
          (s : Settings) (cs : List Credential)
          → validate_state valid_target (record { settings = s; credentials = cs }) ≡ none
          → AreComplete valid_target s × (validate_credentials [] [] cs ≡ none)
      parts s cs h = ground arith

  validate_state_complete :
      (state : State)
      → AreComplete valid_target state.settings
      → AreChecked state.credentials
      → validate_state valid_target state ≡ none
  unfolding validate_state
  validate_state_complete state c v =
      ground (arith, c.has_port, (validate_credentials_iff state.credentials).1 v)

-- The sorted lists of `Render` are the same for every order of the credentials.
AreDistinct-clients :
    (cs : List Credential) → AreDistinct uuid_key cs → AreDistinct client_key (map client_of cs)
AreDistinct-clients [] d = tt
AreDistinct-clients (c ∷ cs) (d, ds) = (others c cs d, AreDistinct-clients cs ds)
  where
    others :
        (c : Credential) (cs : List Credential)
        → All (λ e. uuid_key c ≢ uuid_key e) cs
        → All (λ e. client_key (client_of c) ≢ client_key e) (map client_of cs)
    others c [] h = tt
    others c (e ∷ es) (h, hs) = (h, others c es hs)

AreDistinct-short_ids :
    (cs : List Credential)
    → AreDistinct short_id_key cs
    → AreDistinct codes (map (λ (c : Credential). c.short_id) cs)
AreDistinct-short_ids [] d = tt
AreDistinct-short_ids (c ∷ cs) (d, ds) = (others c cs d, AreDistinct-short_ids cs ds)
  where
    others :
        (c : Credential) (cs : List Credential)
        → All (λ e. short_id_key c ≢ short_id_key e) cs
        → All (λ e. codes c.short_id ≢ codes e) (map (λ (c : Credential). c.short_id) cs)
    others c [] h = tt
    others c (e ∷ es) (h, hs) = (h, others c es hs)

configuration-Reordered :
    (s : Settings) {cs ds : List Credential}
    → Reordered cs ds
    → AreChecked cs
    → configuration (record { settings = s; credentials = cs })
      ≡ configuration (record { settings = s; credentials = ds })
unfolding configuration
configuration-Reordered s {cs} {ds} r v =
    let clients =
      sort_by-Reordered client_key (Reordered-map client_of r) (AreDistinct-clients cs v.uuids) in
    let short_ids =
      sort_by-Reordered codes (Reordered-map (λ (c : Credential). c.short_id) r)
        (AreDistinct-short_ids cs v.short_ids) in
    rw (clients, short_ids) refl

finish_made :
    (encode : Config → Option (List ℕ)) (state : State) (e : Option RealityError) {content : List ℕ}
    → finish encode state e ≡ made content
    → (e ≡ none)
      × ((bytes : List ℕ) × (encode (configuration state) ≡ some bytes)
          × (content ≡ bytes ++ (10 ∷ [])))
finish_made encode state (some e) h = cc
finish_made encode state none h = (refl, encoded_made (encode (configuration state)) h)
  where
    encoded_made :
        (o : Option (List ℕ)) {content : List ℕ}
        → encoded o ≡ made content
        → (bytes : List ℕ) × (o ≡ some bytes) × (content ≡ bytes ++ (10 ∷ []))
    encoded_made none h = cc
    encoded_made (some bytes) h = (bytes, refl, cc)

module _ (valid_target : String → Bool) (encode : Config → Option (List ℕ)) (s : Settings) where
  -- `Render` accepts the same credentials in every order, and makes the same bytes of them.
  pub render-Reordered :
      (cs ds : List Credential)
      → Reordered cs ds
      → validate_state valid_target (record { settings = s; credentials = cs }) ≡ none
      → render valid_target encode (record { settings = s; credentials = ds })
        ≡ render valid_target encode (record { settings = s; credentials = cs })
  unfolding render
  render-Reordered cs ds r h =
      let (complete, checked) = validate_state_sound valid_target _ h in
      rw
        (
          h,
          validate_state_complete valid_target (record { settings = s; credentials = ds }) complete
              (AreChecked-Reordered r checked),
        )
        (ap (λ c. encoded (encode c)) (sym (configuration-Reordered s r checked)))

  -- If `Render` makes bytes, then the settings are complete, every credential is well formed and no
  -- two share a UUID or a short ID; the bytes are the encoding of the configuration and a line's
  -- end, and its clients are those of the credentials, each once, in ascending order.
  pub render_made :
      (cs : List Credential) {content : List ℕ}
      → render valid_target encode (record { settings = s; credentials = cs }) ≡ made content
      → AreComplete valid_target s
        × AreChecked cs
        × ((bytes : List ℕ) × (encode (configuration (record { settings = s; credentials = cs }))
              ≡ some bytes)
            × (content ≡ bytes ++ (10 ∷ [])))
        × IsSorted client_key (clients_of cs)
        × Reordered (map client_of cs) (clients_of cs)
  unfolding render
  render_made cs h =
      let (valid, rest) = finish_made encode (record { settings = s; credentials = cs }) _ h in
      let (complete, checked) = validate_state_sound valid_target _ valid in
      (
        complete,
        checked,
        rest,
        sort_by-IsSorted client_key (map client_of cs),
        sort_by-reorders client_key (map client_of cs),
      )
