-- ===== src/Encoding.antt =====
-- What the SDK uses of encoding/hex and encoding/base32 of the Go library, over ASCII bytes.
pub mod RoundTrip
pub mod Base32
pub mod Fuel
use go_xpx_chain_sdk.Base.{
  Bool, Bytes, Option, Result, [], err, false, if◌then◌else◌, leb, length, ltb, new_error, none,
  not, ok, replicate, some, suc, true, zero, ℕ, ◌%◌, ◌&&◌, ◌*◌, ◌++◌, ◌+◌, ◌-◌, ◌/◌, ◌==◌, ◌>>=◌,
  ◌||◌, ◌∷◌,
}

-- `fromHexChar`
abbrev pub from_hex_char : ℕ → Option ℕ
from_hex_char c =
    if leb b'0' c && leb c b'9'
    then some (c - b'0')
    else if leb b'a' c && leb c b'f'
    then some (c - b'a' + 10)
    else if leb b'A' c && leb c b'F'
    then some (c - b'A' + 10)
    else none

abbrev pub or_else : Option ℕ → Result ℕ
or_else none = err (new_error "encoding/hex: invalid byte")
or_else (some d) = ok d

-- `hex.DecodeString`
unfoldable pub hex_decode_string : Bytes → Result Bytes
hex_decode_string [] = ok []
hex_decode_string (c ∷ []) = do
  d ← or_else (from_hex_char c)
  err (new_error "encoding/hex: odd length hex string")
hex_decode_string (c ∷ (e ∷ rest)) = do
  high ← or_else (from_hex_char c)
  low ← or_else (from_hex_char e)
  more ← hex_decode_string rest
  ok ((high * 16 + low) ∷ more)

-- The decoding map of `base32.StdEncoding`
abbrev pub from_base32_char : ℕ → Option ℕ
from_base32_char c =
    if leb b'A' c && leb c b'Z'
    then some (c - b'A')
    else if leb b'2' c && leb c b'7'
    then some (c - b'2' + 26)
    else none

abbrev pub corrupt : Result (Bytes × Bool × Bytes)
corrupt = err (new_error "illegal base32 data")

abbrev all_pads : ℕ → Bytes → Bool
all_pads zero src = true
all_pads (suc k) [] = true
all_pads (suc k) (c ∷ src) = c == b'=' && all_pads k src

-- After a padding character at digit `j` with `left` more to come and `src` unread.
abbrev pub padding : ℕ → ℕ → Bytes → Bytes → Result (Bytes × Bool × Bytes)
padding j left src digits =
    if ltb (length src) left || not (all_pads left src) || (j == 3 || j == 6)
    then corrupt
    else ok (digits, true, src)

abbrev pub use_digit :
    Option ℕ → (ℕ → Result (Bytes × Bool × Bytes)) → Result (Bytes × Bool × Bytes)
use_digit none f = corrupt
use_digit (some d) f = f d

-- The digits of one group, of which `left` are still to be read, and whether padding ended it.
unfoldable pub read_quantum : ℕ → Bytes → Bytes → Result (Bytes × Bool × Bytes)
read_quantum zero src digits = ok (digits, false, src)
read_quantum (suc left) [] digits = corrupt
read_quantum (suc left) (c ∷ src) digits =
    let rest = use_digit (from_base32_char c) (λ d. read_quantum left src (digits ++ d ∷ [])) in
    if c == b'=' && leb 2 (7 - left) && ltb (length src) 8
    then padding (7 - left) left src digits
    else rest

-- The bytes of a group: eight digits make five bytes, and a shorter group fewer.
abbrev pub quantum_bytes : Bytes → Bytes
quantum_bytes (a ∷ b ∷ []) = (a * 8 + b / 4) % 256 ∷ []
quantum_bytes (a ∷ b ∷ c ∷ d ∷ []) = (a * 8 + b / 4) % 256 ∷ (b * 64 + c * 2 + d / 16) % 256 ∷ []
quantum_bytes (a ∷ b ∷ c ∷ d ∷ e ∷ []) =
    (a * 8 + b / 4) % 256 ∷ (b * 64 + c * 2 + d / 16) % 256 ∷ (d * 16 + e / 2) % 256 ∷ []
quantum_bytes (a ∷ b ∷ c ∷ d ∷ e ∷ f ∷ g ∷ []) =
    (a * 8 + b / 4) % 256
    ∷ (b * 64 + c * 2 + d / 16) % 256
    ∷ (d * 16 + e / 2) % 256
    ∷ (e * 128 + f * 4 + g / 8) % 256
    ∷ []
quantum_bytes (a ∷ b ∷ c ∷ d ∷ e ∷ f ∷ g ∷ h ∷ []) =
    (a * 8 + b / 4) % 256
    ∷ (b * 64 + c * 2 + d / 16) % 256
    ∷ (d * 16 + e / 2) % 256
    ∷ (e * 128 + f * 4 + g / 8) % 256
    ∷ (g * 32 + h) % 256
    ∷ []
quantum_bytes _ = []

-- The loop over the groups, of which each takes a character at least; the length is the fuel.
unfoldable pub decode_groups : ℕ → Bytes → Result Bytes
decode_groups fuel [] = ok []
decode_groups zero (c ∷ src) = ok []
decode_groups (suc fuel) (c ∷ src) = do
  (digits, done, rest) ← read_quantum 8 (c ∷ src) []
  let more = decode_groups fuel rest
  tail ← if done then ok [] else more
  ok (quantum_bytes digits ++ tail)

unfoldable pub without_newlines : Bytes → Bytes
without_newlines [] = []
without_newlines (c ∷ cs) =
    let rest = without_newlines cs in if c == 10 || c == 13 then rest else c ∷ rest

-- `base32.StdEncoding.DecodeString`
unfoldable pub base32_decode_string : Bytes → Result Bytes
unfolding decode_groups read_quantum without_newlines
base32_decode_string s = let src = without_newlines s in decode_groups (length src) src

-- The encoding alphabet
unfoldable pub to_base32_char : ℕ → ℕ
to_base32_char d = if ltb d 26 then b'A' + d else b'2' + (d - 26)

-- `base32.StdEncoding.EncodeToString`
unfoldable pub base32_encode_to_string : Bytes → Bytes
unfolding to_base32_char
base32_encode_to_string [] = []
base32_encode_to_string (a ∷ []) =
    to_base32_char (a / 8) ∷ to_base32_char (a % 8 * 4) ∷ replicate 6 b'='
base32_encode_to_string (a ∷ b ∷ []) =
    to_base32_char (a / 8)
    ∷ to_base32_char (a % 8 * 4 + b / 64)
    ∷ to_base32_char (b / 2 % 32)
    ∷ to_base32_char (b % 2 * 16)
    ∷ replicate 4 b'='
base32_encode_to_string (a ∷ b ∷ c ∷ []) =
    to_base32_char (a / 8)
    ∷ to_base32_char (a % 8 * 4 + b / 64)
    ∷ to_base32_char (b / 2 % 32)
    ∷ to_base32_char (b % 2 * 16 + c / 16)
    ∷ to_base32_char (c % 16 * 2)
    ∷ replicate 3 b'='
base32_encode_to_string (a ∷ b ∷ c ∷ d ∷ []) =
    to_base32_char (a / 8)
    ∷ to_base32_char (a % 8 * 4 + b / 64)
    ∷ to_base32_char (b / 2 % 32)
    ∷ to_base32_char (b % 2 * 16 + c / 16)
    ∷ to_base32_char (c % 16 * 2 + d / 128)
    ∷ to_base32_char (d / 4 % 32)
    ∷ to_base32_char (d % 4 * 8)
    ∷ b'='
    ∷ []
base32_encode_to_string (a ∷ b ∷ c ∷ d ∷ e ∷ rest) =
    to_base32_char (a / 8)
    ∷ to_base32_char (a % 8 * 4 + b / 64)
    ∷ to_base32_char (b / 2 % 32)
    ∷ to_base32_char (b % 2 * 16 + c / 16)
    ∷ to_base32_char (c % 16 * 2 + d / 128)
    ∷ to_base32_char (d / 4 % 32)
    ∷ to_base32_char (d % 4 * 8 + e / 32)
    ∷ to_base32_char (e % 32)
    ∷ base32_encode_to_string rest

abbrev pub hex_lower : ℕ → ℕ
hex_lower d = if ltb d 10 then b'0' + d else b'a' + (d - 10)

-- `hex.EncodeToString`
unfoldable pub hex_encode_string : Bytes → Bytes
hex_encode_string [] = []
hex_encode_string (b ∷ bytes) = hex_lower (b / 16) ∷ (hex_lower (b % 16) ∷ hex_encode_string bytes)

-- `strings.ToUpper` on ASCII
unfoldable pub to_upper : Bytes → Bytes
to_upper [] = []
to_upper (c ∷ text) = (if leb b'a' c && leb c b'z' then c - 32 else c) ∷ to_upper text
