-- ===== src/Reality/Checked.antt =====
-- What `validateState` establishes, and that it does not depend on the order of the credentials.
use ez_vpn_lego.Prelude.{
  ℕ, if◌then◌else◌, sym, ◌≡◌, refl, ap, ◌≢◌, ◌↔◌, String, false, Option, none, some, List, [], ◌∷◌,
  arith, All, contains, ◌==◌, string_eq, eq_self, eq_sound, Bool-cases, inl, inr,
}
use ez_vpn_lego.Prelude.Text.{codes}
use ez_vpn_lego.Prelude.Order.{
  AreDistinct, AreDistinct-Reordered, All-Reordered, Reordered, codes_injective,
}
use ez_vpn_lego.Reality.{
  Credential, RealityError, duplicate_uuid, duplicate_short_id, validate_credential,
  validate_credentials, after,
}

abbrev pub uuid_key : Credential → List ℕ
uuid_key c = codes c.uuid

abbrev pub short_id_key : Credential → List ℕ
short_id_key c = codes c.short_id

-- No credential is malformed, and no two share a UUID or a short ID.
pub record AreChecked (cs : List Credential) : Type 0 where
  pub well_formed : All (λ c. validate_credential c ≡ none) cs
  pub uuids : AreDistinct uuid_key cs
  pub short_ids : AreDistinct short_id_key cs

pub AreChecked-Reordered :
    {cs ds : List Credential} → Reordered cs ds → AreChecked cs → AreChecked ds
AreChecked-Reordered r v = record {
  well_formed = All-Reordered (λ c. validate_credential c ≡ none) r v.well_formed;
  uuids = AreDistinct-Reordered uuid_key r v.uuids;
  short_ids = AreDistinct-Reordered short_id_key r v.short_ids;
}

abbrev IsFresh : (Credential → String) → List String → Credential → Type 0
IsFresh field seen c = contains seen (field c) ≡ false

abbrev uuid_of : Credential → String
uuid_of c = c.uuid

abbrev short_id_of : Credential → String
short_id_of c = c.short_id

-- One turn of the loop.
turn :
    (us ss : List String) (c : Credential) (rest : Option RealityError)
    → after (validate_credential c) (
        if contains us c.uuid
        then some duplicate_uuid
        else if contains ss c.short_id
        then some duplicate_short_id
        else rest)
      ≡ none
    → (validate_credential c ≡ none)
      × IsFresh uuid_of us c
      × IsFresh short_id_of ss c
      × (rest ≡ none)
turn us ss c rest h = ground arith

-- Fresh in a longer list is fresh in its tail, and other than its head.
unseen :
    (field : Credential → String) (c : Credential) (seen : List String) (cs : List Credential)
    → All (IsFresh field (field c ∷ seen)) cs
    → All (λ d. codes (field c) ≢ codes (field d)) cs × All (IsFresh field seen) cs
unseen field c seen [] h = (tt, tt)
unseen field c seen (d ∷ ds) (h, hs) =
    let (others, fresh) = unseen field c seen ds hs in
    let differ = λ (p : codes (field c) ≡ codes (field d)).
      other (field d) (field c) seen h (codes_injective (field c) (field d) p) in
    ((differ, others), (other_tail (field d) (field c) seen h, fresh))
  where
    other : (s t : String) (seen : List String) → contains (t ∷ seen) s ≡ false → t ≢ s
    other s t seen h p = ground (arith, eq_self s, eq_sound s t, p)

    other_tail :
        (s t : String) (seen : List String)
        → contains (t ∷ seen) s ≡ false
        → contains seen s ≡ false
    other_tail s t seen h = ground arith

validate_credentials_sound :
    (us ss : List String) (cs : List Credential)
    → validate_credentials us ss cs ≡ none
    → AreChecked cs × All (IsFresh uuid_of us) cs × All (IsFresh short_id_of ss) cs
unfolding validate_credentials
validate_credentials_sound us ss [] h =
    (record { well_formed = tt; uuids = tt; short_ids = tt }, tt, tt)
validate_credentials_sound us ss (c ∷ cs) h =
    let (good, new_uuid, new_short_id, later) = turn us ss c _ h in
    let (checked, uuids, short_ids) =
      validate_credentials_sound (c.uuid ∷ us) (c.short_id ∷ ss) cs later in
    let (other_uuids, fresh_uuids) = unseen uuid_of c us cs uuids in
    let (other_short_ids, fresh_short_ids) = unseen short_id_of c ss cs short_ids in
    (
      record {
        well_formed = (good, checked.well_formed);
        uuids = (other_uuids, checked.uuids);
        short_ids = (other_short_ids, checked.short_ids);
      },
      (new_uuid, fresh_uuids),
      (new_short_id, fresh_short_ids),
    )

seen_next :
    (field : Credential → String) (c : Credential) (seen : List String) (cs : List Credential)
    → All (λ d. codes (field c) ≢ codes (field d)) cs
    → All (IsFresh field seen) cs
    → All (IsFresh field (field c ∷ seen)) cs
seen_next field c seen [] n f = tt
seen_next field c seen (d ∷ ds) (n, ns) (f, fs) =
    (new (field d) (field c) f n, seen_next field c seen ds ns fs)
  where
    new :
        (s t : String) → contains seen s ≡ false → codes t ≢ codes s → contains (t ∷ seen) s ≡ false
    new s t f n = elim (Bool-cases (s == t)) [
      | inl same ↦ absurd (n (sym (ap codes (eq_sound s t same))))
      | inr differ ↦ rw (differ, f)
    ]

validate_credentials_complete :
    (us ss : List String) (cs : List Credential)
    → AreChecked cs
    → All (IsFresh uuid_of us) cs
    → All (IsFresh short_id_of ss) cs
    → validate_credentials us ss cs ≡ none
unfolding validate_credentials
validate_credentials_complete us ss [] v fu fs = refl
validate_credentials_complete us ss (c ∷ cs) v (new_uuid, fu) (new_short_id, fs) =
    let later =
      validate_credentials_complete (c.uuid ∷ us) (c.short_id ∷ ss) cs
        (record { well_formed = v.well_formed.1; uuids = v.uuids.1; short_ids = v.short_ids.1 })
        (seen_next uuid_of c us cs v.uuids.0 fu) (seen_next short_id_of c ss cs v.short_ids.0 fs) in
    rw (v.well_formed.0, new_uuid, new_short_id, later) refl

All-new : (field : Credential → String) (cs : List Credential) → All (IsFresh field []) cs
All-new field [] = tt
All-new field (c ∷ cs) = (refl, All-new field cs)

-- The loop of `validateState` finds no error exactly if every credential is well formed and no two
-- share a UUID or a short ID.
pub validate_credentials_iff :
    (cs : List Credential) → (validate_credentials [] [] cs ≡ none) ↔ AreChecked cs
validate_credentials_iff cs = (
  λ h. (validate_credentials_sound [] [] cs h).0,
  λ v. validate_credentials_complete [] [] cs v (All-new uuid_of cs) (All-new short_id_of cs),
)
