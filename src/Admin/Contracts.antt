-- ===== src/Admin/Contracts.antt =====
-- backend/src/app/admin_support/contracts.py: the types that the admin handlers share.
use startprojectformillion.Base.{
  String, Bool, Option, none, some, ◌||◌, if◌then◌else◌, str_eq, ◌≡◌, refl,
}
use startprojectformillion.Shared.{Exec, Result, ok, err}
use startprojectformillion.Shared.Validation.{ℤ}
use startprojectformillion.Handlers.Ports.{SubscriptionSnapshot}

pub record AdminActorRef : Type 0 where
  pub internal_admin_principal_id : String

-- `InternalUserTarget | TelegramUserTarget`
pub data AdminTargetLookup : Type 0 where
  internal_user_target : String → AdminTargetLookup
  telegram_user_target : ℤ → AdminTargetLookup

-- The input of each of the three handlers.
pub record AdminInput : Type 0 where
  pub actor : AdminActorRef
  pub target : AdminTargetLookup
  pub correlation_id : String

pub data SupportSubscriptionBucket : Type 0 where
  unknown inactive active expired cancelled : SupportSubscriptionBucket

pub data SupportAccessReadinessBucket : Type 0 where
  not_applicable_no_active_subscription active_access_not_ready : SupportAccessReadinessBucket
  active_access_ready unknown_due_to_internal_error : SupportAccessReadinessBucket

pub data SupportNextAction : Type 0 where
  ask_user_to_use_status ask_user_to_use_get_access : SupportNextAction
  investigate_billing_apply investigate_issuance : SupportNextAction

pub data IssuanceOperationalState : Type 0 where
  unknown none_state ok_state degraded failed : IssuanceOperationalState

pub data RedactionMarker : Type 0 where
  unredacted partial full : RedactionMarker

abbrev pub is_ok_state : IssuanceOperationalState → Bool
is_ok_state IssuanceOperationalState.ok_state = Bool.true
is_ok_state _ = Bool.false

abbrev pub is_active_bucket : SupportSubscriptionBucket → Bool
is_active_bucket SupportSubscriptionBucket.active = Bool.true
is_active_bucket _ = Bool.false

-- The same function stands in adm01_lookup.py and in adm02_ensure_access.py.
unfoldable pub subscription_bucket_from_snapshot :
    Option SubscriptionSnapshot → SupportSubscriptionBucket
subscription_bucket_from_snapshot none = SupportSubscriptionBucket.unknown
subscription_bucket_from_snapshot (some snapshot) =
    let state = snapshot.state_label in
    if str_eq state "active"
    then SupportSubscriptionBucket.active
    else if str_eq state "cancelled"
    then SupportSubscriptionBucket.cancelled
    else if str_eq state "expired"
    then SupportSubscriptionBucket.expired
    else if str_eq state "inactive"
        || (str_eq state "absent" || (str_eq state "not_eligible" || str_eq state "needs_review"))
    then SupportSubscriptionBucket.inactive
    else SupportSubscriptionBucket.unknown

-- What follows a call, by how it ended.
abbrev pub settle : {E A R : Type 0} → Result A → R → (A → E → R × E) → E → R × E
settle (err e) on_error next env = (on_error, env)
settle (ok a) on_error next env = next a env

-- `try: a = call() except Exception: return on_error`, and what follows otherwise.
unfoldable pub attempt : {E A R : Type 0} → Exec E A → R → (A → E → R × E) → E → R × E
attempt call on_error next env = settle (call env).0 on_error next (call env).1

settle-reaches :
    {E A R : Type 0} (Q : R → E → Type 0) (r : Result A) (on_error : R) (next : A → E → R × E)
    (env : E)
    → (Q on_error env → ⊥)
    → Q (settle r on_error next env).0 (settle r on_error next env).1
    → (a : A) × ((r ≡ ok a) × Q (next a env).0 (next a env).1)
settle-reaches Q (err e) on_error next env no_error q = elim (no_error q) [ ]
settle-reaches Q (ok a) on_error next env no_error q = (a, (refl, q))

-- What does not hold of the error comes from what follows the call.
pub attempt-reaches :
    {E A R : Type 0} (Q : R → E → Type 0) (call : Exec E A) (on_error : R) (next : A → E → R × E)
    (env : E)
    → (Q on_error (call env).1 → ⊥)
    → Q (attempt call on_error next env).0 (attempt call on_error next env).1
    → (a : A) × (((call env).0 ≡ ok a) × Q (next a (call env).1).0 (next a (call env).1).1)
unfolding attempt
attempt-reaches Q call on_error next env no_error q =
    settle-reaches Q (call env).0 on_error next (call env).1 no_error q

settle-keeps :
    {E A R : Type 0} (P : R → Type 0) (r : Result A) (on_error : R) (next : A → E → R × E) (env : E)
    → P on_error
    → ((a : A) (env1 : E) → P (next a env1).0)
    → P (settle r on_error next env).0
settle-keeps P (err e) on_error next env failed_too rest = failed_too
settle-keeps P (ok a) on_error next env failed_too rest = rest a env

-- What holds of the error and of all that follows holds.
pub attempt-keeps :
    {E A R : Type 0} (P : R → Type 0) (call : Exec E A) (on_error : R) (next : A → E → R × E)
    (env : E)
    → P on_error
    → ((a : A) (env1 : E) → P (next a env1).0)
    → P (attempt call on_error next env).0
unfolding attempt
attempt-keeps P call on_error next env failed_too rest =
    settle-keeps P (call env).0 on_error next (call env).1 failed_too rest
