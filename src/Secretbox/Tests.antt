-- ===== src/Secretbox/Tests.antt =====
-- Secrets at concrete data, for a cipher that appends one zero as its tag.
use ez_vpn_lego.Prelude.{
  ◌≡◌, refl, ℕ, zero, suc, ◌≤◌, ◌<◌, All, String, Option, some, none, List, [], ◌∷◌, ◌++◌, length,
  drop, length-append, arith, bytes_eq, nat_eq,
}
use ez_vpn_lego.Prelude.Text.{IsByte}
use ez_vpn_lego.Prelude.Base64.{base64_encode}
use ez_vpn_lego.Secretbox.{
  Aead, IsAead, seal, open_secret, FillsBuffer, generate_key, parse_key, done,
}
use ez_vpn_lego.Secretbox.RoundTrip.{open_secret-seal, open_secret_done, parse_key-generate_key}

abbrev drop_last : List ℕ → Option (List ℕ)
drop_last [] = none
drop_last (x ∷ []) = some []
drop_last (x ∷ y ∷ ys) = elim (drop_last (y ∷ ys)) [ none ↦ none | some zs ↦ some (x ∷ zs) ]

abbrev plain : Aead
plain = record {
  nonce_size = 2;
  overhead = 1;
  seal_box = λ nonce text context. text ++ (0 ∷ []);
  open_box = λ nonce text context. drop_last text;
}

drop_last-append : (xs : List ℕ) → drop_last (xs ++ (0 ∷ [])) ≡ some xs
drop_last-append [] = refl
drop_last-append (x ∷ []) = refl
drop_last-append (x ∷ y ∷ ys) = rw (drop_last-append (y ∷ ys)) refl

plain-IsAead : IsAead plain
plain-IsAead = record {
  opens = λ nonce text context size _ _. drop_last-append text;
  longer = λ nonce text context. length-append text (0 ∷ []);
}

open_secret-seal_example :
    (sealed : List ℕ) × (seal plain (some (7 ∷ 8 ∷ [])) (5 ∷ 6 ∷ []) "c" ≡ done sealed)
    × (open_secret plain sealed "c" ≡ done (5 ∷ 6 ∷ []))
open_secret-seal_example =
    open_secret-seal plain plain-IsAead (7 ∷ 8 ∷ []) (5 ∷ 6 ∷ []) "c" refl (omega arith)
      (omega arith)

opened_text : open_secret plain (1 ∷ 7 ∷ 8 ∷ 5 ∷ 0 ∷ []) "c" ≡ done (5 ∷ [])
unfolding open_secret nat_eq
opened_text = refl

open_secret_done_example :
    (body : List ℕ) × (◌≡◌ {A = List ℕ} (1 ∷ 7 ∷ 8 ∷ 5 ∷ 0 ∷ []) (1 ∷ body))
    × (3 ≤ length body)
    × (drop_last (drop 2 body) ≡ some (5 ∷ []))
open_secret_done_example = open_secret_done plain (1 ∷ 7 ∷ 8 ∷ 5 ∷ 0 ∷ []) "c" opened_text

abbrev replicate : ℕ → ℕ → List ℕ
replicate zero b = []
replicate (suc n) b = b ∷ replicate n b

-- A source that repeats one byte.
abbrev random : ℕ → Option (List ℕ)
random size = some (replicate size 7)

length-replicate : (size b : ℕ) → length (replicate size b) ≡ size
length-replicate zero b = refl
length-replicate (suc size) b = omega (arith, length-replicate size b)

replicate-IsByte : (size b : ℕ) → b < 256 → All IsByte (replicate size b)
replicate-IsByte zero b h = tt
replicate-IsByte (suc size) b h = (h, replicate-IsByte size b h)

drawn_key : (size : ℕ) (key : List ℕ) → random size ≡ some key → replicate size 7 ≡ key
drawn_key size key h = cc

random-FillsBuffer : FillsBuffer random
random-FillsBuffer = record {
  fills = λ size key h. rw (← drawn_key size key h) (length-replicate size 7);
  bytes = λ size key h. rw (← drawn_key size key h) (replicate-IsByte size 7 (omega arith));
}

abbrev generated : String
generated = "BwcHBwcHBwcHBwcHBwcHBwcHBwcHBwcHBwcHBwcHBwc"

text_generated : generate_key random ≡ done generated
unfolding generate_key base64_encode
text_generated = refl

parse_key-generate_key_example :
    (key : List ℕ) × (random 32 ≡ some key) × (length key ≡ 32) × (parse_key generated ≡ done key)
parse_key-generate_key_example = parse_key-generate_key random random-FillsBuffer text_generated
