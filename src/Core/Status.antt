-- ===== src/Core/Status.antt =====
-- core/domain/status.go: the status strings of rows and operations, and which change is allowed.
use ez_vpn_lego.Prelude.{
  String, Bool, ◌||◌, Option, none, some, List, [], ◌∷◌, Eq, ◌==◌, contains, string_eq,
  if◌then◌else◌,
}

pub data LifecycleStatus : Type 0 where
  active disabled : LifecycleStatus

abbrev pub lifecycle_text : LifecycleStatus → String
lifecycle_text active = "active"
lifecycle_text disabled = "disabled"

-- `LifecycleStatus.Validate`; a value of the type is any string, and `none` is the error.
unfoldable pub validate : String → Option LifecycleStatus
validate s =
    if s == lifecycle_text active
    then some active
    else if s == lifecycle_text disabled
    then some disabled
    else none

pub data OperationStatus : Type 0 where
  queued running succeeded failed rolling_back rolled_back : OperationStatus

status_dec : Discrete OperationStatus
status_dec = hlevel

instance unfoldable pub status_eq : Eq OperationStatus
unfolding status_dec
status_eq = record { dec = status_dec }

lifecycle_dec : Discrete LifecycleStatus
lifecycle_dec = hlevel

instance unfoldable pub lifecycle_eq : Eq LifecycleStatus
unfolding lifecycle_dec
lifecycle_eq = record { dec = lifecycle_dec }

unfoldable pub terminal : OperationStatus → Bool
unfolding status_eq
terminal s = s == succeeded || s == failed || s == rolled_back

-- The rows of the map `allowed`; a status with no row has the empty one.
allowed : OperationStatus → List OperationStatus
allowed queued = running ∷ failed ∷ []
allowed running = succeeded ∷ failed ∷ rolling_back ∷ []
allowed rolling_back = rolled_back ∷ failed ∷ []
allowed _ = []

unfoldable pub can_transition_to : OperationStatus → OperationStatus → Bool
unfolding allowed status_eq
can_transition_to s next = contains (allowed s) next
