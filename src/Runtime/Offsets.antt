-- ===== src/Runtime/Offsets.antt =====
-- backend/src/app/runtime/offsets.py
pub mod Laws
use startprojectformillion.Base.{
  ℕ, zero, suc, ◌+◌, Bool, Option, none, some, List, [], ◌∷◌, ltb, nat_beq, if◌then◌else◌,
  map_option,
}
use startprojectformillion.Shared.{Result, ok, err, value_error}
use startprojectformillion.Shared.Validation.{ℤ, pos, negsuc}

-- What a raw update shows to the offset code: `isinstance(u, Mapping)`, `"update_id" in m` and
-- `type(v) is int`.
pub data UpdateField : Type 0 where
  not_mapping no_update_id other_value : UpdateField
  update_id : ℤ → UpdateField

-- `_valid_update_ids`
unfoldable pub valid_update_ids : List UpdateField → List ℕ
valid_update_ids [] = []
valid_update_ids (update_id (pos zero) ∷ us) = valid_update_ids us
valid_update_ids (update_id (pos (suc n)) ∷ us) = suc n ∷ valid_update_ids us
valid_update_ids (_ ∷ us) = valid_update_ids us

abbrev pub max_nat : ℕ → ℕ → ℕ
max_nat a b = if ltb a b then b else a

-- Python's `max` of a list with a first element
unfoldable pub max_of : ℕ → List ℕ → ℕ
max_of n [] = n
max_of n (m ∷ ms) = max_of (max_nat n m) ms

unfoldable pub extract_next_offset_from_raw_updates : List UpdateField → Option ℕ
unfolding max_of
extract_next_offset_from_raw_updates us = elim (valid_update_ids us) [
  | [] ↦ none
  | n ∷ ns ↦ some (max_of n ns + 1)
]

unfoldable pub advance_polling_offset : Option ℤ → List UpdateField → Result (Option ℤ)
advance_polling_offset none us = ok (map_option pos (extract_next_offset_from_raw_updates us))
advance_polling_offset (some (negsuc n)) us = err value_error
advance_polling_offset (some (pos n)) us =
    if nat_beq n 0 then err value_error else elim (extract_next_offset_from_raw_updates us) [
      | none ↦ ok (some (pos n))
      | some derived ↦ ok (some (pos (max_nat n derived)))
    ]
