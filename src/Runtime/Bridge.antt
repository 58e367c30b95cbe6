-- ===== src/Runtime/Bridge.antt =====
-- backend/src/app/runtime/bridge.py. A bridge is any function that may raise, or return `None`.
use startprojectformillion.Base.{
  ℕ, ◌+◌, Option, none, some, List, [], ◌∷◌, ◌++◌, ◌≡◌, arith, length, length-append, sym,
  append-nil, append_assoc, inl, inr,
}
use startprojectformillion.Shared.{Result, ok, err, Result-cases}

pub record BridgeRuntimeBatchResult (U : Type 0) : Type 0 where
  pub accepted_updates : List U
  pub accepted_count : ℕ
  pub rejected_count : ℕ
  pub bridge_exception_count : ℕ

module _ {R U : Type 0} (bridge : R → Result (Option U)) where
  -- the variables of the loop: accepted, rejected_count, bridge_exception_count
  unfoldable pub bridge_loop : List R → List U → ℕ → ℕ → List U × ℕ × ℕ
  bridge_loop [] accepted rejected raised = (accepted, rejected, raised)
  bridge_loop (raw ∷ rest) accepted rejected raised = elim (bridge raw) [
    | err e ↦ bridge_loop rest accepted rejected (raised + 1)
    | ok mapped ↦ elim mapped [
      | none ↦ bridge_loop rest accepted (rejected + 1) raised
      | some u ↦ bridge_loop rest (accepted ++ u ∷ []) rejected raised
    ]
  ]

  unfoldable pub bridge_runtime_updates : List R → BridgeRuntimeBatchResult U
  unfolding bridge_loop
  bridge_runtime_updates raws =
      let (accepted, rejected, raised) = bridge_loop raws [] 0 0 in
      record {
        accepted_updates = accepted;
        accepted_count = length accepted;
        rejected_count = rejected;
        bridge_exception_count = raised;
      }

  -- The updates that the bridge maps, in order.
  abbrev pub mapped_updates : List R → List U
  mapped_updates [] = []
  mapped_updates (raw ∷ rest) = elim (bridge raw) [
    | err e ↦ mapped_updates rest
    | ok mapped ↦ elim mapped [ none ↦ mapped_updates rest | some u ↦ u ∷ mapped_updates rest ]
  ]

  bridge_loop_counts :
      (raws : List R) (accepted : List U) (rejected raised : ℕ)
      → let (a, r, x) = bridge_loop raws accepted rejected raised in
        (a ≡ accepted ++ mapped_updates raws)
        × (length a + r + x ≡ length raws + length accepted + rejected + raised)
  unfolding bridge_loop
  bridge_loop_counts [] accepted rejected raised = (sym (append-nil accepted), omega arith)
  bridge_loop_counts (raw ∷ rest) accepted rejected raised = elim (Result-cases (bridge raw)) [
    | inl (e, h) ↦ ground (arith, bridge_loop_counts rest accepted rejected (raised + 1))
    | inr (none, h) ↦ ground (arith, bridge_loop_counts rest accepted (rejected + 1) raised)
    | inr (some u, h) ↦ ground (
      arith,
      bridge_loop_counts rest (accepted ++ u ∷ []) rejected raised,
      append_assoc accepted (u ∷ []) (mapped_updates rest),
      length-append accepted (u ∷ []),
    )
  ]

  -- One failing update does not stop the batch: exactly the mapped updates are accepted, in order,
  -- and every raw update is counted once.
  pub bridge_counts :
      (raws : List R)
      → let result = bridge_runtime_updates raws in
        (result.accepted_updates ≡ mapped_updates raws)
        × (result.accepted_count + result.rejected_count + result.bridge_exception_count
            ≡ length raws)
  unfolding bridge_runtime_updates
  bridge_counts raws = let h = bridge_loop_counts raws [] 0 0 in (h.0, omega (arith, h.1))
