-- ===== src/Core/Tests.antt =====
-- The theorems on statuses at concrete data.
use ez_vpn_lego.Prelude.{◌≡◌, refl, ◌↔◌, ◌≤◌, false, true, List, [], ◌∷◌, length}
use ez_vpn_lego.Core.Status.{
  OperationStatus, queued, running, failed, rolling_back, rolled_back, terminal, can_transition_to,
}
use ez_vpn_lego.Core.Transitions.{follows, rank, terminal_iff, length-le-rank}

abbrev rolled : List OperationStatus
rolled = running ∷ rolling_back ∷ rolled_back ∷ []

terminal_iff_example :
    (terminal failed ≡ true) ↔ ((t : OperationStatus) → can_transition_to failed t ≡ false)
terminal_iff_example = terminal_iff failed

length-le-rank_example : (length rolled ≤ rank queued) × (length rolled ≤ 3)
unfolding follows can_transition_to
length-le-rank_example = length-le-rank queued rolled refl
