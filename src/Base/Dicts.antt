-- ===== src/Base/Dicts.antt =====
-- Python's `dict` and `set` where the program only looks up, assigns, deletes and tests membership:
-- the program never iterates over these, so they are functions from keys.
use mathlib.Core.Bool.{Bool, true, false}
use mathlib.Core.Option.{Option, none, some}
use startprojectformillion.Base.Tests.{if◌then◌else◌, is_some}
use startprojectformillion.Base.Classes.{Key, ◌==◌}

abbrev pub Dict : Type 0 → Type 0 → Type 0
Dict K V = K → Option V

abbrev pub empty : {K V : Type 0} → Dict K V
empty k = none

module _ {K V : Type 0} ⦃e : Key K⦄ where
  -- d[k] = v
  abbrev pub put : Dict K V → K → V → Dict K V
  put d k v j = if k == j then some v else d j

  -- del d[k], d.pop(k, None)
  abbrev pub remove : Dict K V → K → Dict K V
  remove d k j = if k == j then none else d j

-- k in d
abbrev pub contains : {K V : Type 0} → Dict K V → K → Bool
contains d k = is_some (d k)

abbrev pub KeySet : Type 0 → Type 0
KeySet K = K → Bool

abbrev pub empty_set : {K : Type 0} → KeySet K
empty_set k = false

abbrev pub add : {K : Type 0} ⦃e : Key K⦄ → KeySet K → K → KeySet K
add s k j = if k == j then true else s j
