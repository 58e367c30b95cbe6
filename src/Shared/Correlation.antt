-- ===== src/Shared/Correlation.antt =====
-- backend/src/app/shared/correlation.py. A model text is always a `str`, so the type test holds.
use Prim.Native.Char.{code}
use Prim.Native.String.{count}
use startprojectformillion.Base.{
  String, ◌≡◌, refl, Bool, true, false, ◌&&◌, ◌||◌, leb, nat_beq, ℕ, if◌then◌else◌, not,
}
use startprojectformillion.Shared.Effects.{Result, ok, err, value_error}

abbrev pub correlation_hex_len : ℕ
correlation_hex_len = 32

is_hex : ℕ → Bool
is_hex c = leb b'0' c && leb c b'9' || leb b'a' c && leb c b'f'

-- `_PATTERN.match` on a text of the right length
all_hex : String → Bool
unfolding is_hex
all_hex String.[] = true
all_hex (String.◌∷◌ c s) = is_hex (code c) && all_hex s

unfoldable pub is_valid_correlation_id : String → Bool
unfolding all_hex
is_valid_correlation_id value =
    if not (nat_beq (count value) correlation_hex_len) then false else all_hex value

unfoldable pub require_correlation_id : String → Result String
require_correlation_id value =
    if not (is_valid_correlation_id value) then err value_error else ok value

abbrev pub sample_id : String
sample_id = "00112233445566778899aabbccddeeff"

pub sample_id_valid : is_valid_correlation_id sample_id ≡ true
unfolding is_valid_correlation_id
sample_id_valid = refl
