-- ===== src/Uuid.antt =====
-- internal/id/uuid.go, and the pattern of revision IDs in internal/helper/apply.go.
pub mod Laws
mod Tests
use Prim.Native.Char.{code}
use Prim.Native.Nat.{bit_and, bit_or}
use ez_vpn_lego.Prelude.{
  ℕ, zero, suc, String, ◌<>◌, Bool, true, false, ◌&&◌, ◌||◌, Option, none, some, List, [], ◌∷◌,
  ◌++◌, leb, take, drop,
}
use ez_vpn_lego.Prelude.Text.{codes, hex_encode}

-- A write to one byte of the array.
abbrev set : List ℕ → ℕ → (ℕ → ℕ) → List ℕ
set [] i f = []
set (b ∷ bs) zero f = f b ∷ bs
set (b ∷ bs) (suc i) f = b ∷ set bs i f

-- `value[from:to]`
abbrev slice : List ℕ → ℕ → ℕ → List ℕ
slice value from to = drop from (take to value)

version_byte : ℕ → ℕ
version_byte b = bit_or (bit_and b 0x0f) 0x40

variant_byte : ℕ → ℕ
variant_byte b = bit_or (bit_and b 0x3f) 0x80

format : List ℕ → String
format value =
    hex_encode (slice value 0 4)
    <> "-"
    <> hex_encode (slice value 4 6)
    <> "-"
    <> hex_encode (slice value 6 8)
    <> "-"
    <> hex_encode (slice value 8 10)
    <> "-"
    <> hex_encode (slice value 10 16)

-- The version and variant bits.
stamp : List ℕ → List ℕ
stamp value = set (set value 6 version_byte) 8 variant_byte

-- `NewUUID`. The argument is what `rand.Read` gives: sixteen bytes, or `none` for its error.
unfoldable pub new_uuid : Option (List ℕ) → Option String
unfolding format stamp version_byte variant_byte
new_uuid none = none
new_uuid (some value) = some (format (stamp value))

is_hex : ℕ → Bool
is_hex c = (leb 48 c && leb c 57) || (leb 97 c && leb c 102)

is_dash : ℕ → Bool
is_dash c = leb 45 c && leb c 45

is_four : ℕ → Bool
is_four c = leb 52 c && leb c 52

is_variant : ℕ → Bool
is_variant c = (leb 56 c && leb c 57) || (leb 97 c && leb c 98)

-- One test for each character of `revisionPattern`.
hexes : ℕ → List (ℕ → Bool) → List (ℕ → Bool)
hexes zero rest = rest
hexes (suc n) rest = is_hex ∷ hexes n rest

-- The pattern from each dash on.
from_node : List (ℕ → Bool)
from_node = is_dash ∷ hexes 12 []

from_sequence : List (ℕ → Bool)
from_sequence = is_dash ∷ is_variant ∷ hexes 3 from_node

from_version : List (ℕ → Bool)
from_version = is_dash ∷ is_four ∷ hexes 3 from_sequence

from_middle : List (ℕ → Bool)
from_middle = is_dash ∷ hexes 4 from_version

revision_pattern : List (ℕ → Bool)
unfolding hexes from_node from_sequence from_version from_middle
revision_pattern = hexes 8 from_middle

match_codes : List (ℕ → Bool) → List ℕ → Bool
match_codes [] [] = true
match_codes (p ∷ ps) (c ∷ cs) = p c && match_codes ps cs
match_codes _ _ = false

-- `revisionPattern.MatchString`
unfoldable pub matches_revision : String → Bool
unfolding revision_pattern match_codes is_hex is_dash is_four is_variant
matches_revision s = match_codes revision_pattern (codes s)
