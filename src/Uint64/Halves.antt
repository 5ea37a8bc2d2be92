-- ===== src/Uint64/Halves.antt =====
-- The two uint32 halves of a 64-bit number.
use go_xpx_chain_sdk.Base.{ℕ, ◌+◌, ◌*◌, ◌/◌, ◌%◌, ◌^◌, ◌<◌, ◌≡◌, refl, ◌++◌, arith, leb, length}
use go_xpx_chain_sdk.Word.{to_le}
use go_xpx_chain_sdk.Base.Bits.{bit_and_place}
use go_xpx_chain_sdk.Uint64.{to_uint64, uint64_to_array, to_little_endian, has_bits}

pub to_uint64_lem :
    (low high : ℕ) → low < 2 ^ 32 → high < 2 ^ 32 → to_uint64 (low, high) ≡ high * 2 ^ 32 + low
unfolding to_uint64
to_uint64_lem low high hl hh = omega arith

-- Splitting a 64-bit number into its halves and joining them, as a response does, gives it back.
pub to_uint64-uint64_to_array : (n : ℕ) → n < 2 ^ 64 → to_uint64 (uint64_to_array n) ≡ n
unfolding uint64_to_array
to_uint64-uint64_to_array n h =
    omega (arith, to_uint64_lem (n % 2 ^ 32) (n / 2 ^ 32 % 2 ^ 32) (omega arith) (omega arith))

pub uint64_to_array-to_uint64 :
    (low high : ℕ)
    → low < 2 ^ 32
    → high < 2 ^ 32
    → uint64_to_array (to_uint64 (low, high)) ≡ (low, high)
unfolding uint64_to_array
uint64_to_array-to_uint64 low high hl hh = ground (arith, to_uint64_lem low high)

-- The two halves as vectors of uint32 are the little-endian bytes of the number.
pub halves-to_le :
    (n : ℕ) → to_le 4 (uint64_to_array n).0 ++ to_le 4 (uint64_to_array n).1 ≡ to_little_endian n
unfolding uint64_to_array to_little_endian
halves-to_le n = ground arith

-- A mask of one bit asks for that digit.
pub has_bits_top : (n : ℕ) → n < 2 ^ 64 → has_bits n (2 ^ 63) ≡ leb (2 ^ 63) n
unfolding has_bits
has_bits_top n h = ground (arith, bit_and_place 63 n)

pub length-to_little_endian : (n : ℕ) → length (to_little_endian n) ≡ 8
unfolding to_little_endian
length-to_little_endian n = refl
