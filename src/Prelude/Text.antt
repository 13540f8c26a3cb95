-- ===== src/Prelude/Text.antt =====
-- Text as Go sees it: runes, bytes of UTF-8, hexadecimal digits, `strings.TrimSpace`. A Go string
-- is a `String` here, so it is valid UTF-8.
use Prim.Native.Char.{Char, code}
use Prim.Native.Nat.{ℕ, zero, suc, ◌+◌, ◌-◌, ◌*◌, ◌/◌, ◌%◌, ◌<◌}
use Prim.Native.String.{String}
use mathlib.Core.Bool.{Bool, true, false, ◌&&◌, ◌||◌}
use mathlib.Core.Logic.{inl, inr}
use mathlib.Core.List.{List, [], ◌∷◌}
use mathlib.Core.Option.{Option, none, some}
use mathlib.Core.Path.{◌≡◌, refl}
use native.Mathlib.Omega.{arith}
use package.ez_vpn_lego.Prelude.Tests.{leb, and_true, below_cases, if◌then◌else◌}
use package.ez_vpn_lego.Prelude.Equality.{◌==◌, eq_sound, option_eq, nat_eq}
use package.ez_vpn_lego.Prelude.Lists.{All, length}

abbrev pub codes : String → List ℕ
codes String.[] = []
codes (String.◌∷◌ c s) = code c ∷ codes s

-- `s + t`
infixr 66 ◌<>◌
unfoldable pub ◌<>◌ : String → String → String
String.[] <> t = t
(String.◌∷◌ c s) <> t = String.◌∷◌ c (s <> t)

-- `len([]rune(s))`
abbrev pub rune_count : String → ℕ
rune_count s = length (codes s)

-- The bytes of one rune in UTF-8.
utf8_width : ℕ → ℕ
utf8_width c = if leb c 0x7f then 1 else if leb c 0x7ff then 2 else if leb c 0xffff then 3 else 4

sum_widths : List ℕ → ℕ
sum_widths [] = 0
sum_widths (c ∷ cs) = utf8_width c + sum_widths cs

-- `len(s)`
unfoldable pub byte_length : String → ℕ
unfolding sum_widths utf8_width
byte_length s = sum_widths (codes s)

-- `s == ""`
abbrev pub is_empty : String → Bool
is_empty String.[] = true
is_empty (String.◌∷◌ c s) = false

-- `unicode.IsSpace`
unfoldable pub is_space : ℕ → Bool
is_space c =
    (leb 9 c && leb c 13)
    || (leb 32 c && leb c 32)
    || (leb 0x85 c && leb c 0x85)
    || (leb 0xa0 c && leb c 0xa0)
    || (leb 0x1680 c && leb c 0x1680)
    || (leb 0x2000 c && leb c 0x200a)
    || (leb 0x2028 c && leb c 0x2029)
    || (leb 0x202f c && leb c 0x202f)
    || (leb 0x205f c && leb c 0x205f)
    || (leb 0x3000 c && leb c 0x3000)

trim_left : String → String
trim_left String.[] = String.[]
trim_left (String.◌∷◌ c s) =
    let rest = trim_left s in if is_space (code c) then rest else String.◌∷◌ c s

trim_cons : Char → String → String
trim_cons c String.[] = if is_space (code c) then String.[] else String.◌∷◌ c String.[]
trim_cons c (String.◌∷◌ d s) = String.◌∷◌ c (String.◌∷◌ d s)

trim_right : String → String
trim_right String.[] = String.[]
trim_right (String.◌∷◌ c s) = trim_cons c (trim_right s)

-- `strings.TrimSpace`
unfoldable pub trim_space : String → String
unfolding is_space trim_left trim_right trim_cons
trim_space s = trim_right (trim_left s)

-- The character of a text at a position, and the last one beyond its end.
unfoldable pub char_or : Char → String → ℕ → Char
char_or d String.[] i = d
char_or d (String.◌∷◌ c s) zero = c
char_or d (String.◌∷◌ c s) (suc i) = char_or c s i

-- The digits that `encoding/hex` and `%x` write.
unfoldable pub hex_char : ℕ → Char
unfolding char_or
hex_char d = char_or "0" "0123456789abcdef" d

-- `hex.EncodeToString`
unfoldable pub hex_encode : List ℕ → String
unfolding hex_char
hex_encode [] = String.[]
hex_encode (b ∷ bs) =
    String.◌∷◌ (hex_char (b / 16)) (String.◌∷◌ (hex_char (b % 16)) (hex_encode bs))

-- The value of a digit that `hex.DecodeString` reads: either case.
unfoldable pub hex_value : ℕ → Option ℕ
hex_value c =
    if leb 48 c && leb c 57
    then some (c - 48)
    else if leb 97 c && leb c 102
    then some (c - 87)
    else if leb 65 c && leb c 70
    then some (c - 55)
    else none

join_digits : Option ℕ → Option ℕ → Option (List ℕ) → Option (List ℕ)
join_digits (some h) (some l) (some bs) = some ((h * 16 + l) ∷ bs)
join_digits _ _ _ = none

hex_decode_codes : List ℕ → Option (List ℕ)
hex_decode_codes [] = some []
hex_decode_codes (h ∷ []) = none
hex_decode_codes (h ∷ l ∷ cs) = join_digits (hex_value h) (hex_value l) (hex_decode_codes cs)

-- `hex.DecodeString`; an odd digit or any other byte is an error.
unfoldable pub hex_decode : String → Option (List ℕ)
unfolding hex_decode_codes join_digits hex_value
hex_decode s = hex_decode_codes (codes s)

abbrev pub IsByte : ℕ → Type 0
IsByte b = b < 256

-- Every value below a bound passes a test.
unfoldable pub all_below : (ℕ → Bool) → ℕ → Bool
all_below test zero = true
all_below test (suc top) = all_below test top && test top

pub all_below_sound :
    (test : ℕ → Bool) (bound : ℕ)
    → all_below test bound ≡ true
    → (d : ℕ) → d < bound
    → test d ≡ true
unfolding all_below
all_below_sound test (suc top) passed d below =
    let (lower, last) = and_true (all_below test top) (test top) passed in
    elim (below_cases d top below) [
      | inl less ↦ all_below_sound test top lower d less
      | inr same ↦ rw same last
    ]
all_below_sound test zero passed d below = absurd (omega arith)

abbrev reads_back : ℕ → Bool
reads_back d = hex_value (code (hex_char d)) == some d

digit_table : all_below reads_back 16 ≡ true
unfolding all_below hex_value hex_char option_eq nat_eq
digit_table = refl

pub digit_round_trip : (d : ℕ) → d < 16 → hex_value (code (hex_char d)) ≡ some d
digit_round_trip d h = eq_sound _ _ (all_below_sound reads_back 16 digit_table d h)

-- `hex.DecodeString` reads back what `hex.EncodeToString` wrote.
pub hex_decode-hex_encode : (bs : List ℕ) → All IsByte bs → hex_decode (hex_encode bs) ≡ some bs
unfolding hex_encode hex_decode
hex_decode-hex_encode [] h = refl
hex_decode-hex_encode (b ∷ bs) (h, hs) =
    rw
      (
        digit_round_trip (b / 16) (omega arith),
        digit_round_trip (b % 16) (omega arith),
        hex_decode-hex_encode bs hs,
        join_digits,
      )
      (ground arith)

abbrev is_ascii : ℕ → Bool
is_ascii d = leb (code (hex_char d)) 0x7f

ascii_table : all_below is_ascii 16 ≡ true
unfolding all_below hex_char
ascii_table = refl

utf8_width-hex_char : (d : ℕ) → d < 16 → utf8_width (code (hex_char d)) ≡ 1
unfolding utf8_width
utf8_width-hex_char d h = rw (all_below_sound is_ascii 16 ascii_table d h) refl

-- Two digits for each byte.
pub byte_length-hex_encode :
    (bs : List ℕ) → All IsByte bs → byte_length (hex_encode bs) ≡ 2 * length bs
unfolding byte_length sum_widths hex_encode
byte_length-hex_encode [] h = refl
byte_length-hex_encode (b ∷ bs) (h, hs) = omega (
  arith,
  utf8_width-hex_char (b / 16) (omega arith),
  utf8_width-hex_char (b % 16) (omega arith),
  byte_length-hex_encode bs hs,
)

-- The code point of a character.
abbrev pub code_of : Char → ℕ
code_of c = code c
