-- ===== src/Modules/Nonces/Codec.antt =====
-- The little-endian bytes of a stored nonce.
use hub_rs.Prelude.{ℕ, zero, suc, ◌*◌, ◌/◌, ◌<◌, ◌≡◌, refl, arith, length}
use hub_rs.Modules.Nonces.{to_le_bytes, from_le_bytes}

-- How many numbers have that many bytes.
abbrev pub range_of : ℕ → ℕ
range_of zero = 1
range_of (suc count) = 256 * range_of count

pub length-to_le_bytes : (count n : ℕ) → length (to_le_bytes count n) ≡ count
unfolding to_le_bytes
length-to_le_bytes zero n = refl
length-to_le_bytes (suc count) n = omega (arith, length-to_le_bytes count (n / 256))

pub from_to_le_bytes : (count n : ℕ) → n < range_of count → from_le_bytes (to_le_bytes count n) ≡ n
unfolding to_le_bytes from_le_bytes
from_to_le_bytes zero n h = omega arith
from_to_le_bytes (suc count) n h =
    omega (arith, from_to_le_bytes count (n / 256) (omega (arith, h)))
