-- ===== src/Uint64.antt =====
-- sdk/sdk_internal.go and the 64-bit numbers of sdk/sdk_model.go. A number of type int64 or uint64 is
-- its 64-bit pattern, a natural below 2 ^ 64; the REST API sends it as two uint32, the low one first.
pub mod Halves
pub mod Version
use Prim.Native.Nat.{bit_and, bit_or}
use go_xpx_chain_sdk.Base.{
  ℕ, zero, suc, ◌+◌, ◌-◌, ◌*◌, ◌/◌, ◌%◌, ◌^◌, [], ◌∷◌, ◌++◌, Bytes, Bool, ◌==◌, if◌then◌else◌, ltb,
}
use go_xpx_chain_sdk.Word.{to_le}

abbrev pub u64 : ℕ → ℕ
u64 n = n % 2 ^ 64

-- Big-endian bytes, as encoding/binary writes and reads them.
unfoldable pub to_be : ℕ → ℕ → Bytes
to_be zero v = []
to_be (suc n) v = v / 256 ^ n % 256 ∷ to_be n v

unfoldable pub from_be : ℕ → Bytes → ℕ
from_be acc [] = acc
from_be acc (b ∷ bs) = from_be (acc * 256 + b) bs

-- `uint64DTO.toUint64`, and `toStruct`, which only changes the type
unfoldable pub to_uint64 : ℕ × ℕ → ℕ
unfolding to_be from_be
to_uint64 (low, high) = from_be 0 (to_be 4 high ++ to_be 4 low)

unfoldable pub uint64_to_array : ℕ → ℕ × ℕ
uint64_to_array n = (n % 2 ^ 32, n / 2 ^ 32 % 2 ^ 32)

unfoldable pub has_bits : ℕ → ℕ → Bool
has_bits number bits = bit_and number bits == bits

-- `baseInt64.toLittleEndian`
unfoldable pub to_little_endian : ℕ → Bytes
unfolding to_le
to_little_endian n = to_le 8 n

-- One digit of "%x", in upper case, as an ASCII code.
hex_digit : ℕ → ℕ
hex_digit d = if ltb d 10 then b'0' + d else b'A' + (d - 10)

-- The last `n` hexadecimal digits: `%08x` is the case of eight digits of a uint32.
unfoldable pub hex_digits : ℕ → ℕ → Bytes
unfolding hex_digit
hex_digits zero v = []
hex_digits (suc n) v = hex_digit (v / 16 ^ n % 16) ∷ hex_digits n v

unfoldable pub uint64_to_hex : ℕ → Bytes
unfolding uint64_to_array hex_digits
uint64_to_hex id = let (low, high) = uint64_to_array id in hex_digits 8 high ++ hex_digits 8 low

-- `NewBlockChainVersion`
unfoldable pub new_block_chain_version : ℕ → ℕ → ℕ → ℕ → ℕ
new_block_chain_version major minor revision build =
    let v1 = bit_or 0 (u64 (major * 2 ^ 48)) in
    let v2 = bit_or v1 (u64 (minor * 2 ^ 32)) in
    let v3 = bit_or v2 (u64 (revision * 2 ^ 16)) in bit_or v3 build

-- The closure of `BlockChainVersion.String` that picks one component of a version.
unfoldable pub get_two_bytes_by_shift : ℕ → ℕ → ℕ
get_two_bytes_by_shift number shift = bit_and (number / 2 ^ shift % 2 ^ 16) 0xff
