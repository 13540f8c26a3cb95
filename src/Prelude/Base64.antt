-- ===== src/Prelude/Base64.antt =====
-- `base64.RawURLEncoding`: the URL alphabet, without padding and not strict, so that the last bits of
-- an incomplete group may be anything; line breaks in the text are skipped.
use Prim.Native.Char.{Char, code}
use Prim.Native.Nat.{ℕ, ◌+◌, ◌-◌, ◌*◌, ◌/◌, ◌%◌, ◌<◌}
use Prim.Native.String.{String}
use mathlib.Core.Bool.{Bool, true, false, ◌&&◌, ◌||◌, not}
use mathlib.Core.List.{List, [], ◌∷◌}
use mathlib.Core.Option.{Option, none, some}
use mathlib.Core.Path.{◌≡◌, refl}
use native.Mathlib.Omega.{arith}
use package.ez_vpn_lego.Prelude.Tests.{leb, and_true, if◌then◌else◌}
use package.ez_vpn_lego.Prelude.Equality.{◌==◌, eq_sound, option_eq, nat_eq}
use package.ez_vpn_lego.Prelude.Lists.{All}
use package.ez_vpn_lego.Prelude.Text.{codes, char_or, IsByte, all_below, all_below_sound}

-- The digit of six bits.
unfoldable pub base64_char : ℕ → Char
unfolding char_or
base64_char d = char_or "A" "ABCDEFGHIJKLMNOPQRSTUVWXYZabcdefghijklmnopqrstuvwxyz0123456789-_" d

-- `EncodeToString`: four digits for three bytes, and two or three for what is left.
unfoldable pub base64_encode : List ℕ → String
unfolding base64_char
base64_encode [] = String.[]
base64_encode (a ∷ []) =
    String.◌∷◌ (base64_char (a / 4)) (String.◌∷◌ (base64_char (a % 4 * 16)) String.[])
base64_encode (a ∷ b ∷ []) = String.◌∷◌ (base64_char (a / 4)) (
    String.◌∷◌ (base64_char (a % 4 * 16 + b / 16))
      (String.◌∷◌ (base64_char (b % 16 * 4)) String.[]))
base64_encode (a ∷ b ∷ c ∷ bs) = String.◌∷◌ (base64_char (a / 4)) (
    String.◌∷◌ (base64_char (a % 4 * 16 + b / 16)) (
      String.◌∷◌ (base64_char (b % 16 * 4 + c / 64))
        (String.◌∷◌ (base64_char (c % 64)) (base64_encode bs))))

-- The value of a digit.
unfoldable pub base64_value : ℕ → Option ℕ
base64_value c =
    if leb 65 c && leb c 90
    then some (c - 65)
    else if leb 97 c && leb c 122
    then some (c - 71)
    else if leb 48 c && leb c 57
    then some (c + 4)
    else if c == 45
    then some 62
    else if c == 95
    then some 63
    else none

is_break : ℕ → Bool
is_break c = c == 10 || c == 13

without_breaks : List ℕ → List ℕ
without_breaks [] = []
without_breaks (c ∷ cs) = let rest = without_breaks cs in if is_break c then rest else c ∷ rest

last_byte : Option ℕ → Option ℕ → Option (List ℕ)
last_byte (some p) (some q) = some ((p * 4 + q / 16) ∷ [])
last_byte _ _ = none

last_bytes : Option ℕ → Option ℕ → Option ℕ → Option (List ℕ)
last_bytes (some p) (some q) (some r) = some ((p * 4 + q / 16) ∷ (q % 16 * 16 + r / 4) ∷ [])
last_bytes _ _ _ = none

three_bytes : Option ℕ → Option ℕ → Option ℕ → Option ℕ → Option (List ℕ) → Option (List ℕ)
three_bytes (some p) (some q) (some r) (some s) (some bs) =
    some ((p * 4 + q / 16) ∷ (q % 16 * 16 + r / 4) ∷ (r % 4 * 64 + s) ∷ bs)
three_bytes _ _ _ _ _ = none

decode_groups : List ℕ → Option (List ℕ)
decode_groups [] = some []
decode_groups (p ∷ []) = none
decode_groups (p ∷ q ∷ []) = last_byte (base64_value p) (base64_value q)
decode_groups (p ∷ q ∷ r ∷ []) = last_bytes (base64_value p) (base64_value q) (base64_value r)
decode_groups (p ∷ q ∷ r ∷ s ∷ cs) =
    three_bytes (base64_value p) (base64_value q) (base64_value r) (base64_value s)
      (decode_groups cs)

-- `DecodeString`
unfoldable pub base64_decode : String → Option (List ℕ)
unfolding decode_groups three_bytes last_bytes last_byte without_breaks is_break base64_value
base64_decode s = decode_groups (without_breaks (codes s))

abbrev reads_back : ℕ → Bool
reads_back d =
    (base64_value (code (base64_char d)) == some d) && not (is_break (code (base64_char d)))

digit_table : all_below reads_back 64 ≡ true
unfolding all_below base64_value base64_char option_eq nat_eq is_break
digit_table = refl

digit_value : (d : ℕ) → d < 64 → base64_value (code (base64_char d)) ≡ some d
digit_value d h = eq_sound _ _ (
    (and_true (base64_value (code (base64_char d)) == some d)
      (not (is_break (code (base64_char d)))) (all_below_sound reads_back 64 digit_table d h)).0)

false_of_not : (b : Bool) → not b ≡ true → b ≡ false
false_of_not true h = cc
false_of_not false h = refl

digit_no_break : (d : ℕ) → d < 64 → is_break (code (base64_char d)) ≡ false
digit_no_break d h = false_of_not (is_break (code (base64_char d))) (
    (and_true (base64_value (code (base64_char d)) == some d)
      (not (is_break (code (base64_char d)))) (all_below_sound reads_back 64 digit_table d h)).1)

without_breaks-base64_encode :
    (bs : List ℕ)
    → All IsByte bs
    → without_breaks (codes (base64_encode bs)) ≡ codes (base64_encode bs)
unfolding without_breaks base64_encode
without_breaks-base64_encode [] h = refl
without_breaks-base64_encode (a ∷ []) (ha, h) =
    rw (digit_no_break (a / 4) (omega arith), digit_no_break (a % 4 * 16) (omega arith)) refl
without_breaks-base64_encode (a ∷ b ∷ []) (ha, (hb, h)) =
    rw
      (
        digit_no_break (a / 4) (omega arith),
        digit_no_break (a % 4 * 16 + b / 16) (omega arith),
        digit_no_break (b % 16 * 4) (omega arith),
      )
      refl
without_breaks-base64_encode (a ∷ b ∷ c ∷ bs) (ha, (hb, (hc, h))) =
    rw
      (
        digit_no_break (a / 4) (omega arith),
        digit_no_break (a % 4 * 16 + b / 16) (omega arith),
        digit_no_break (b % 16 * 4 + c / 64) (omega arith),
        digit_no_break (c % 64) (omega arith),
        without_breaks-base64_encode bs h,
      )
      refl

decode_groups-base64_encode :
    (bs : List ℕ) → All IsByte bs → decode_groups (codes (base64_encode bs)) ≡ some bs
unfolding decode_groups base64_encode three_bytes last_bytes last_byte
decode_groups-base64_encode [] h = refl
decode_groups-base64_encode (a ∷ []) (ha, h) =
    rw (digit_value (a / 4) (omega arith), digit_value (a % 4 * 16) (omega arith)) (ground arith)
decode_groups-base64_encode (a ∷ b ∷ []) (ha, (hb, h)) =
    rw
      (
        digit_value (a / 4) (omega arith),
        digit_value (a % 4 * 16 + b / 16) (omega arith),
        digit_value (b % 16 * 4) (omega arith),
      )
      (ground arith)
decode_groups-base64_encode (a ∷ b ∷ c ∷ bs) (ha, (hb, (hc, h))) =
    rw
      (
        digit_value (a / 4) (omega arith),
        digit_value (a % 4 * 16 + b / 16) (omega arith),
        digit_value (b % 16 * 4 + c / 64) (omega arith),
        digit_value (c % 64) (omega arith),
        decode_groups-base64_encode bs h,
      )
      (ground arith)

-- `DecodeString` reads back what `EncodeToString` wrote.
pub base64_decode-base64_encode :
    (bs : List ℕ) → All IsByte bs → base64_decode (base64_encode bs) ≡ some bs
unfolding base64_decode
base64_decode-base64_encode bs h =
    rw (without_breaks-base64_encode bs h) (decode_groups-base64_encode bs h)
