-- ===== src/Uuid/Laws.antt =====
-- What `NewUUID` makes is a revision ID that the helper accepts, and an accepted one is harmless
-- in a path.
use Prim.Native.Char.{code}
use ez_vpn_lego.Prelude.{
  ◌≡◌, refl, ap, ℕ, zero, suc, ◌/◌, ◌%◌, ◌<◌, String, ◌<>◌, Bool, true, ◌&&◌, ◌||◌, some, List, [],
  ◌∷◌, arith, leb, length, All, and_true,
}
use ez_vpn_lego.Prelude.Text.{codes, hex_encode, hex_char, IsByte, all_below, all_below_sound}
use ez_vpn_lego.Uuid.{
  version_byte, variant_byte, format, stamp, new_uuid, is_hex, is_dash, is_four, is_variant, hexes,
  from_node, from_sequence, from_version, from_middle, revision_pattern, match_codes,
  matches_revision,
}

abbrev hex_test : ℕ → Bool
hex_test d = is_hex (code (hex_char d))

hex_table : all_below hex_test 16 ≡ true
unfolding all_below is_hex hex_char
hex_table = refl

hex_char-is_hex : (d : ℕ) → d < 16 → is_hex (code (hex_char d)) ≡ true
hex_char-is_hex d h = all_below_sound hex_test 16 hex_table d h

-- The two digits of a byte pass two tests.
abbrev passes : (ℕ → Bool) → (ℕ → Bool) → ℕ → Bool
passes p q b = p (code (hex_char (b / 16))) && q (code (hex_char (b % 16)))

abbrev version_test : ℕ → Bool
version_test b = passes is_four is_hex (version_byte b)

abbrev variant_test : ℕ → Bool
variant_test b = passes is_variant is_hex (variant_byte b)

version_table : all_below version_test 256 ≡ true
unfolding all_below is_hex is_four hex_char version_byte
version_table = refl

variant_table : all_below variant_test 256 ≡ true
unfolding all_below is_hex is_variant hex_char variant_byte
variant_table = refl

hex_digits : (b : ℕ) → b < 256 → passes is_hex is_hex b ≡ true
hex_digits b h = rw (hex_char-is_hex (b / 16) (omega arith), hex_char-is_hex (b % 16) (omega arith))

hex_step :
    (b : ℕ) (r : Bool)
    → b < 256
    → r ≡ true
    → (is_hex (code (hex_char (b / 16))) && (is_hex (code (hex_char (b % 16))) && r)) ≡ true
hex_step b r h k = ground (arith, k, hex_digits b h)

version_step :
    (b : ℕ) (r : Bool)
    → b < 256
    → r ≡ true
    → (is_four (code (hex_char (version_byte b / 16)))
        && (is_hex (code (hex_char (version_byte b % 16))) && r))
      ≡ true
version_step b r h k = ground (arith, k, all_below_sound version_test 256 version_table b h)

variant_step :
    (b : ℕ) (r : Bool)
    → b < 256
    → r ≡ true
    → (is_variant (code (hex_char (variant_byte b / 16)))
        && (is_hex (code (hex_char (variant_byte b % 16))) && r))
      ≡ true
variant_step b r h k = ground (arith, k, all_below_sound variant_test 256 variant_table b h)

bytes_match :
    (value : List ℕ)
    → length value ≡ 16
    → All IsByte value
    → match_codes revision_pattern (codes (format (stamp value))) ≡ true
unfolding format stamp revision_pattern match_codes is_dash hex_encode ◌<>◌
bytes_match
      (b0 ∷ b1 ∷ b2 ∷ b3 ∷ b4 ∷ b5 ∷ b6 ∷ b7 ∷ b8 ∷ b9 ∷ b10 ∷ b11 ∷ b12 ∷ b13 ∷ b14 ∷ b15 ∷ []) len
      (
        h0,
        (
          h1,
          (
            h2,
            (h3, (h4, (h5, (h6, (h7, (h8, (h9, (h10, (h11, (h12, (h13, (h14, (h15, _))))))))))))),
          ),
        ),
      ) =
    hex_step b0 _ h0 (
      hex_step b1 _ h1 (
        hex_step b2 _ h2 (
          hex_step b3 _ h3 (
            hex_step b4 _ h4 (
              hex_step b5 _ h5 (
                version_step b6 _ h6 (
                  hex_step b7 _ h7 (
                    variant_step b8 _ h8 (
                      hex_step b9 _ h9 (
                        hex_step b10 _ h10 (
                          hex_step b11 _ h11 (
                            hex_step b12 _ h12 (
                              hex_step b13 _ h13
                                (hex_step b14 _ h14 (hex_step b15 _ h15 (refl))))))))))))))))
bytes_match _ len h = absurd (omega arith)

-- `NewUUID`, given sixteen random bytes, returns an ID, and the helper's pattern accepts it.
pub matches_revision-new_uuid :
    (value : List ℕ)
    → length value ≡ 16
    → All IsByte value
    → (u : String) × (new_uuid (some value) ≡ some u) × (matches_revision u ≡ true)
unfolding new_uuid matches_revision
matches_revision-new_uuid value len bytes =
    (format (stamp value), refl, bytes_match value len bytes)

-- A lower-case hexadecimal digit or a dash: never a slash, a dot or a backslash.
abbrev pub is_safe : ℕ → Bool
is_safe c = (leb 48 c && leb c 57) || (leb 97 c && leb c 102) || (leb 45 c && leb c 45)

abbrev IsHarmless : (ℕ → Bool) → Type 0
IsHarmless p = (c : ℕ) → p c ≡ true → is_safe c ≡ true

hexes-IsHarmless :
    (n : ℕ) (rest : List (ℕ → Bool)) → All IsHarmless rest → All IsHarmless (hexes n rest)
unfolding hexes is_hex
hexes-IsHarmless zero rest h = h
hexes-IsHarmless (suc n) rest h = (λ c e. ground arith, hexes-IsHarmless n rest h)

dash-IsHarmless : IsHarmless is_dash
unfolding is_dash
dash-IsHarmless c e = ground arith

four-IsHarmless : IsHarmless is_four
unfolding is_four
four-IsHarmless c e = ground arith

variant-IsHarmless : IsHarmless is_variant
unfolding is_variant
variant-IsHarmless c e = ground arith

pattern-IsHarmless : All IsHarmless revision_pattern
unfolding revision_pattern
pattern-IsHarmless =
    let node : All IsHarmless from_node = (dash-IsHarmless, hexes-IsHarmless 12 [] tt) in
    let sequence : All IsHarmless from_sequence =
      (dash-IsHarmless, (variant-IsHarmless, hexes-IsHarmless 3 from_node node)) in
    let version : All IsHarmless from_version =
      (dash-IsHarmless, (four-IsHarmless, hexes-IsHarmless 3 from_sequence sequence)) in
    hexes-IsHarmless 8 from_middle (dash-IsHarmless, hexes-IsHarmless 4 from_version version)

match_codes-is_safe :
    (ps : List (ℕ → Bool)) (cs : List ℕ)
    → All IsHarmless ps
    → match_codes ps cs ≡ true
    → (length cs ≡ length ps) × All (λ c. is_safe c ≡ true) cs
unfolding match_codes
match_codes-is_safe [] [] hs m = (refl, tt)
match_codes-is_safe [] (c ∷ cs) hs m = cc
match_codes-is_safe (p ∷ ps) [] hs m = cc
match_codes-is_safe (p ∷ ps) (c ∷ cs) (h, hs) m =
    let (first, later) = and_true (p c) (match_codes ps cs) m in
    let (same, safe) = match_codes-is_safe ps cs hs later in (ap suc same, (h c first, safe))

-- A revision ID that the helper accepts has 36 characters, each a lower-case hexadecimal digit or a
-- dash.
pub matches_revision-is_safe :
    (s : String)
    → matches_revision s ≡ true
    → (length (codes s) ≡ 36) × All (λ c. is_safe c ≡ true) (codes s)
unfolding matches_revision
matches_revision-is_safe s m = match_codes-is_safe revision_pattern (codes s) pattern-IsHarmless m
