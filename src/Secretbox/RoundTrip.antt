-- ===== src/Secretbox/RoundTrip.antt =====
-- Secrets that were sealed can be opened, and keys that were generated can be parsed.
use ez_vpn_lego.Prelude.{
  ◌≡◌, refl, ap, ℕ, suc, ◌+◌, ◌≤◌, eq_self, eq_sound, Bool-cases, inl, inr, String, Bool, true,
  false, not, ◌||◌, Option, none, some, List, [], ◌∷◌, ◌++◌, arith, take, drop, length,
  length-append, take-length-append, All, drop-length-append, ltb, ◌==◌, nat_eq,
}
use ez_vpn_lego.Prelude.Text.{IsByte}
use ez_vpn_lego.Prelude.Base64.{base64_decode, base64_decode-base64_encode}
use ez_vpn_lego.Secretbox.{
  Aead, IsAead, Result, done, seal, open_secret, opened, of_length, parse_key, FillsBuffer,
  encoded_key, generate_key,
}

take_prefix : (n : ℕ) (xs ys : List ℕ) → length xs ≡ n → take n (xs ++ ys) ≡ xs
take_prefix n xs ys e = rw (← e) (take-length-append xs ys)

drop_prefix : (n : ℕ) (xs ys : List ℕ) → length xs ≡ n → drop (1 + n) (1 ∷ (xs ++ ys)) ≡ ys
drop_prefix n xs ys e =
    let next : 1 + n ≡ suc n = omega arith in rw (next, ← e) (drop-length-append xs ys)

module _ (a : Aead) (law : IsAead a) where
  long_enough :
      (nonce text : List ℕ) (context : String)
      → length nonce ≡ a.nonce_size
      → ltb (suc (length (nonce ++ a.seal_box nonce text context))) (1 + a.nonce_size + a.overhead)
        ≡ false
  long_enough nonce text context size =
      ground
        (arith, length-append nonce (a.seal_box nonce text context), law.longer nonce text context)

  -- What `Seal` has sealed, for a nonce of the size that the cipher wants, `Open` opens under the
  -- same context, if the cipher opens what it has sealed.
  pub open_secret-seal :
      (nonce text : List ℕ) (context : String)
      → length nonce ≡ a.nonce_size
      → All IsByte nonce
      → All IsByte text
      → (sealed : List ℕ) × (seal a (some nonce) text context ≡ done sealed)
        × (open_secret a sealed context ≡ done text)
  unfolding seal open_secret
  open_secret-seal nonce text context size nonce_bytes text_bytes =
      ((1 ∷ nonce) ++ a.seal_box nonce text context, refl, opens)
    where
      opens : open_secret a ((1 ∷ nonce) ++ a.seal_box nonce text context) context ≡ done text
      opens =
          let box = a.seal_box nonce text context in
          rw
            (
              long_enough nonce text context size,
              eq_self {A = ℕ} 1,
              take_prefix a.nonce_size nonce box size,
              drop_prefix a.nonce_size nonce box size,
              law.opens nonce text context size nonce_bytes text_bytes,
            )
            refl

-- What `Open` opens is at least as long as a version, a nonce and a tag, begins with the version,
-- and its text is the one that the cipher authenticates under the context.
pub open_secret_done :
    (a : Aead) (ciphertext : List ℕ) (context : String) {text : List ℕ}
    → open_secret a ciphertext context ≡ done text
    → (body : List ℕ) × (ciphertext ≡ 1 ∷ body)
      × (a.nonce_size + a.overhead ≤ length body)
      × (a.open_box (take a.nonce_size body) (drop a.nonce_size body) context ≡ some text)
unfolding open_secret
open_secret_done a [] context h = absurd (ground arith)
open_secret_done a (b ∷ body) context h =
    elim (Bool-cases (ltb (length (b ∷ body)) (1 + a.nonce_size + a.overhead) || not (b == 1))) [
      | inl bad ↦ absurd (ground (arith, (rw bad at h)))
      | inr good ↦
          let next : 1 + a.nonce_size ≡ suc a.nonce_size = omega arith in
          (
            body,
            ap (λ (x : ℕ). x ∷ body) (eq_sound b 1 (version (b == 1) _ good)),
            ground (arith, good),
            opened_done _ (rw next at (rw good at h)),
          )
    ]
  where
    version : (t u : Bool) → (u || not t) ≡ false → t ≡ true
    version t u h = ground arith

    opened_done : (o : Option (List ℕ)) {text : List ℕ} → opened a o ≡ done text → o ≡ some text
    opened_done none h = cc
    opened_done (some x) h = cc

-- If `GenerateKey` returns a text, where `rand.Read` fills its buffer or fails, then `ParseKey` accepts
-- that text, and reads from it exactly the 32 bytes that were drawn.
pub parse_key-generate_key :
    (random : ℕ → Option (List ℕ)) {text : String}
    → FillsBuffer random
    → generate_key random ≡ done text
    → (key : List ℕ) × (random 32 ≡ some key) × (length key ≡ 32) × (parse_key text ≡ done key)
unfolding parse_key generate_key
parse_key-generate_key random {text} law h = read (random 32) refl h
  where
    done_injective : {s t : String} → Path (Result String) (done s) (done t) → s ≡ t
    done_injective k = cc

    read :
        (drawn : Option (List ℕ))
        → random 32 ≡ drawn
        → encoded_key drawn ≡ done text
        → (key : List ℕ) × (random 32 ≡ some key)
          × (length key ≡ 32)
          × (of_length (base64_decode text) ≡ done key)
    read none same k = absurd (ground (arith, k))
    read (some key) same k =
        let size : length key ≡ 32 = law.fills 32 key same in
        (
          key,
          same,
          size,
          rw
              (
                ← done_injective k,
                base64_decode-base64_encode key (law.bytes 32 key same),
                size,
                eq_self {A = ℕ} 32,
              )
              refl,
        )
