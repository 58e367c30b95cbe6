-- ===== src/Shared/Errors.antt =====
-- backend/src/app/security/errors.py
pub data UserSafeErrorCode : Type 0 where
  invalid_input try_again_later not_registered service_unavailable : UserSafeErrorCode

pub data InternalErrorCategory : Type 0 where
  validation idempotency_conflict persistence_transient : InternalErrorCategory
  persistence_invariant unknown : InternalErrorCategory

unfoldable pub map_internal_to_user_safe : InternalErrorCategory → UserSafeErrorCode
map_internal_to_user_safe InternalErrorCategory.validation = UserSafeErrorCode.invalid_input
map_internal_to_user_safe InternalErrorCategory.persistence_transient =
    UserSafeErrorCode.try_again_later
map_internal_to_user_safe InternalErrorCategory.idempotency_conflict =
    UserSafeErrorCode.try_again_later
map_internal_to_user_safe InternalErrorCategory.persistence_invariant =
    UserSafeErrorCode.service_unavailable
map_internal_to_user_safe InternalErrorCategory.unknown = UserSafeErrorCode.service_unavailable
