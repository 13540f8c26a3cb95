-- ===== src/Uuid/Tests.antt =====
-- The theorems on revision IDs at concrete data.
use ez_vpn_lego.Prelude.{◌≡◌, refl, ℕ, String, ◌<>◌, true, some, List, [], ◌∷◌, arith, All, length}
use ez_vpn_lego.Prelude.Text.{codes, hex_encode}
use ez_vpn_lego.Uuid.{new_uuid, matches_revision}
use ez_vpn_lego.Uuid.Laws.{is_safe, matches_revision-new_uuid, matches_revision-is_safe}

abbrev random : List ℕ
random =
    0 ∷ 255 ∷ 17 ∷ 34 ∷ 51 ∷ 68 ∷ 255 ∷ 102 ∷ 255 ∷ 136 ∷ 153 ∷ 170 ∷ 187 ∷ 204 ∷ 221 ∷ 238 ∷ []

abbrev made : String
made = "00ff1122-3344-4f66-bf88-99aabbccddee"

new_uuid_made : new_uuid (some random) ≡ some made
unfolding new_uuid hex_encode ◌<>◌
new_uuid_made = refl

made_matches : matches_revision made ≡ true
unfolding matches_revision
made_matches = refl

matches_revision-new_uuid_example :
    (u : String) × (new_uuid (some random) ≡ some u) × (matches_revision u ≡ true)
matches_revision-new_uuid_example = matches_revision-new_uuid random refl (omega arith)

matches_revision-is_safe_example :
    (length (codes made) ≡ 36) × All (λ c. is_safe c ≡ true) (codes made)
matches_revision-is_safe_example = matches_revision-is_safe made made_matches
