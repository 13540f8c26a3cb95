-- ===== src/Secretbox.antt =====
-- internal/secretbox/secretbox.go: secrets at rest. AES-GCM is an `Aead`, of which the file uses the
-- sizes, `Seal` and `Open`; `rand.Read` is a function of the length of the buffer that it fills.
pub mod RoundTrip
mod Tests
use ez_vpn_lego.Prelude.{
  ◌≡◌, ℕ, ◌+◌, String, Bool, ◌||◌, not, Option, none, some, List, [], ◌∷◌, ◌++◌, take, drop, length,
  ltb, ◌==◌, nat_eq, if◌then◌else◌, All,
}
use ez_vpn_lego.Prelude.Text.{IsByte}
use ez_vpn_lego.Prelude.Base64.{base64_encode, base64_decode}

pub data SecretError : Type 0 where
  entropy_failed key_undecodable key_length cipher_failed unsupported authentication_failed :
      SecretError

pub data Result {ℓ} (Value : Type ℓ) : Type ℓ where
  sealed_out : SecretError → Result Value
  done : Value → Result Value

-- `cipher.AEAD` under one key: nonce, text and additional data. `open_box` has no value where the
-- authentication fails.
pub record Aead : Type 0 where
  pub nonce_size : ℕ
  pub overhead : ℕ
  pub seal_box : List ℕ → List ℕ → String → List ℕ
  pub open_box : List ℕ → List ℕ → String → Option (List ℕ)

-- What the documentation of `cipher.AEAD` says of a nonce of the right size.
pub record IsAead (a : Aead) : Type 0 where
  pub opens :
      (nonce text : List ℕ) (context : String)
      → length nonce ≡ a.nonce_size
      → All IsByte nonce
      → All IsByte text
      → a.open_box nonce (a.seal_box nonce text context) context ≡ some text
  pub longer :
      (nonce text : List ℕ) (context : String)
      → length (a.seal_box nonce text context) ≡ length text + a.overhead

abbrev pub format_version : ℕ
format_version = 1

abbrev pub of_length : Option (List ℕ) → Result (List ℕ)
of_length none = sealed_out key_undecodable
of_length (some key) = if length key == 32 then done key else sealed_out key_length

-- `ParseKey`
unfoldable pub parse_key : String → Result (List ℕ)
parse_key encoded = of_length (base64_decode encoded)

-- What the documentation of `rand.Read` says: if it has no error, then it fills the buffer.
pub record FillsBuffer (random : ℕ → Option (List ℕ)) : Type 0 where
  pub fills : (size : ℕ) (key : List ℕ) → random size ≡ some key → length key ≡ size
  pub bytes : (size : ℕ) (key : List ℕ) → random size ≡ some key → All IsByte key

abbrev pub encoded_key : Option (List ℕ) → Result String
encoded_key none = sealed_out entropy_failed
encoded_key (some key) = done (base64_encode key)

-- `GenerateKey`, which has `rand.Read` fill a buffer of 32 bytes.
unfoldable pub generate_key : (ℕ → Option (List ℕ)) → Result String
generate_key random = encoded_key (random 32)

abbrev boxed : Option Aead → Result Aead
boxed none = sealed_out cipher_failed
boxed (some a) = done a

-- `New`, for what `aes.NewCipher` and `cipher.NewGCM` make of a key; neither makes anything of some.
unfoldable pub new : (List ℕ → Option Aead) → List ℕ → Result Aead
new cipher key = boxed (cipher key)

module _ (a : Aead) where
  -- `Seal`, for the nonce that `rand.Read` gives.
  unfoldable pub seal : Option (List ℕ) → List ℕ → String → Result (List ℕ)
  seal none plaintext context = sealed_out entropy_failed
  seal (some nonce) plaintext context =
      done ((format_version ∷ nonce) ++ a.seal_box nonce plaintext context)

  abbrev first_is_version : List ℕ → Bool
  first_is_version [] = Bool.false
  first_is_version (b ∷ bs) = b == format_version

  abbrev opened : Option (List ℕ) → Result (List ℕ)
  opened none = sealed_out authentication_failed
  opened (some plaintext) = done plaintext

  -- `Open`
  unfoldable pub open_secret : List ℕ → String → Result (List ℕ)
  open_secret ciphertext context =
      if ltb (length ciphertext) (1 + a.nonce_size + a.overhead)
        || not (first_is_version ciphertext)
      then sealed_out unsupported
      else opened (
          a.open_box (take a.nonce_size (drop 1 ciphertext)) (drop (1 + a.nonce_size) ciphertext)
            context)
