-- ===== src/Helper/Server/Guarded.antt =====
-- What makes the helper's server run the engine.
use ez_vpn_lego.Prelude.{
  ◌≡◌, ◌⊎◌, inl, inr, refl, ℕ, ◌≤◌, String, Bool, true, false, Option, List, length, ltb, ◌==◌,
  eq_sound, string_eq, Bool-cases, arith,
}
use ez_vpn_lego.Http.{Decoded, invalid, trailing, single}
use ez_vpn_lego.Helper.Disk.{World}
use ez_vpn_lego.Helper.Engine.{ApplyRequest, ApplyError}
use package.ez_vpn_lego.Helper.Server.{
  Message, Reply, max_apply_body, read_body, written, carried_out, apply_xray, is_authorized, serve,
}

read_body_single :
    (decode : List ℕ → Decoded ApplyRequest) (body : List ℕ) (r : ApplyRequest)
    → read_body decode body ≡ single r
    → (decode body ≡ single r) × (length body ≤ max_apply_body)
unfolding read_body
read_body_single decode body r h = split (ltb max_apply_body (length body)) refl h
  where
    split :
        (beyond : Bool)
        → ltb max_apply_body (length body) ≡ beyond
        → read_body decode body ≡ single r
        → (decode body ≡ single r) × (length body ≤ max_apply_body)
    split true e h = cc
    split false e h = (cc, ground (arith, e))

-- The reply is a refusal, and the world is the same.
abbrev pub IsRefused : World → Reply × World → Type 0
IsRefused w (reply, w') =
    (w' ≡ w)
    × ((reply.status ≡ 400)
        ⊎ ((reply.status ≡ 401) ⊎ ((reply.status ≡ 404) ⊎ (reply.status ≡ 405))))

module _ (sha256 : String → List ℕ) (token_hash : List ℕ) (decode : List ℕ → Decoded ApplyRequest)
    (engine : ApplyRequest → World → Option ApplyError × World) where
  -- The message is one that the engine is run for.
  pub record Asks (message : Message) (r : ApplyRequest) : Type 0 where
    pub posted : message.method ≡ "POST"
    pub routed : message.path ≡ "/v1/xray/apply"
    pub known : is_authorized sha256 token_hash decode engine message ≡ true
    pub read : decode message.body ≡ single r
    pub small : length message.body ≤ max_apply_body

  abbrev pub Cases : Message → World → Reply × World → Type 0
  Cases message w out =
      IsRefused w out ⊎ ((r : ApplyRequest) × Asks message r × (out ≡ written (engine r w)))

  body-Cases :
      (message : Message) (w : World) (body : Decoded ApplyRequest)
      → message.method ≡ "POST"
      → message.path ≡ "/v1/xray/apply"
      → is_authorized sha256 token_hash decode engine message ≡ true
      → read_body decode message.body ≡ body
      → Cases message w (carried_out sha256 token_hash decode engine body w)
  body-Cases message w invalid posted routed known e = inl (refl, inl refl)
  body-Cases message w trailing posted routed known e = inl (refl, inl refl)
  body-Cases message w (single r) posted routed known e =
      let (read, small) = read_body_single decode message.body r e in
      inr (
        r,
        record { posted = posted; routed = routed; known = known; read = read; small = small },
        refl,
      )

  -- The server runs the engine for no message but a POST to its route that bears the token and whose
  -- body is at most 16384 bytes long and a single request; it answers any other with 400, 401, 404 or
  -- 405 and leaves the world as it is.
  pub serve-Cases :
      (message : Message) (w : World)
      → Cases message w (serve sha256 token_hash decode engine message w)
  unfolding serve apply_xray
  serve-Cases message w = elim (Bool-cases (message.path == "/v1/xray/apply")) [
    | inr elsewhere ↦ rw elsewhere (inl (refl, inr (inr (inl refl))))
    | inl routed ↦ elim (Bool-cases (message.method == "POST")) [
      | inr other ↦ rw (routed, other) (inl (refl, inr (inr (inr refl))))
      | inl posted ↦ elim (Bool-cases (is_authorized sha256 token_hash decode engine message)) [
        | inr stranger ↦ rw (routed, posted, stranger) (inl (refl, inr (inl refl)))
        | inl known ↦
            rw (routed, posted, known)
              (body-Cases message w (read_body decode message.body) (eq_sound _ _ posted)
                (eq_sound _ _ routed) known refl)
      ]
    ]
  ]
