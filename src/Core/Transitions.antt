-- ===== src/Core/Transitions.antt =====
-- The state machine of operations: where it ends, and that it ends.
use ez_vpn_lego.Prelude.{
  ◌≡◌, refl, ◌↔◌, ℕ, ◌≤◌, suc, Bool, true, false, ◌&&◌, List, [], ◌∷◌, arith, length, and_true,
}
use ez_vpn_lego.Core.Status.{
  OperationStatus, queued, running, succeeded, failed, rolling_back, rolled_back, terminal,
  can_transition_to,
}

-- A history of an operation: each status may follow the one before it.
unfoldable pub follows : OperationStatus → List OperationStatus → Bool
follows s [] = true
follows s (t ∷ ts) = can_transition_to s t && follows t ts

-- How many changes an operation can still make.
abbrev pub rank : OperationStatus → ℕ
rank queued = 3
rank running = 2
rank rolling_back = 1
rank _ = 0

rank_falls : (s t : OperationStatus) → can_transition_to s t ≡ true → suc (rank t) ≤ rank s
unfolding can_transition_to
rank_falls s t h = ground arith

-- A status is terminal exactly if no status may follow it.
pub terminal_iff :
    (s : OperationStatus)
    → (terminal s ≡ true) ↔ ((t : OperationStatus) → can_transition_to s t ≡ false)
unfolding terminal can_transition_to
terminal_iff queued = (λ h. cc, λ h. cc (h running))
terminal_iff running = (λ h. cc, λ h. cc (h failed))
terminal_iff rolling_back = (λ h. cc, λ h. cc (h failed))
terminal_iff succeeded = (λ h t. refl, λ h. refl)
terminal_iff failed = (λ h t. refl, λ h. refl)
terminal_iff rolled_back = (λ h t. refl, λ h. refl)

length_bound :
    (s : OperationStatus) (ts : List OperationStatus) → follows s ts ≡ true → length ts ≤ rank s
unfolding follows
length_bound s [] h = omega arith
length_bound s (t ∷ ts) h =
    let (first, later) = and_true (can_transition_to s t) (follows t ts) h in
    omega (arith, rank_falls s t first, length_bound t ts later)

rank-le : (s : OperationStatus) → rank s ≤ 3
rank-le s = ground arith

-- Every history that starts at a status makes at most as many changes as the rank of the status
-- (3 for queued, 2 for running, 1 for rolling back, 0 for the others), so at most three.
pub length-le-rank :
    (s : OperationStatus) (ts : List OperationStatus)
    → follows s ts ≡ true
    → (length ts ≤ rank s) × (length ts ≤ 3)
length-le-rank s ts h = (length_bound s ts h, omega (arith, length_bound s ts h, rank-le s))
