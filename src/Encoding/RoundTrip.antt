-- ===== src/Encoding/RoundTrip.antt =====
-- What is encoded as hexadecimal text is decoded to itself, in either case of the letters.
use go_xpx_chain_sdk.Base.{
  >>=-eq-ok, Bool, Bytes, [], and_split, arith, if◌then◌else◌, leb, ltb, ltb→lt, lt→ltb, ok, refl,
  some, suc, take, true, zero, ℕ, ◌%◌, ◌&&◌, ◌*◌, ◌++◌, ◌+◌, ◌-◌, ◌/◌, ◌<◌, ◌>>=◌, ◌∙◌, ◌∷◌, ◌≡◌,
}
use go_xpx_chain_sdk.Encoding.{
  from_hex_char, hex_decode_string, hex_encode_string, hex_lower, or_else, to_upper,
}
use go_xpx_chain_sdk.Word.{to_le}

-- Every item is a byte.
unfoldable pub are_bytes : Bytes → Bool
are_bytes [] = true
are_bytes (b ∷ bytes) = ltb b 256 && are_bytes bytes

hex_decode_nil : hex_decode_string [] ≡ ok []
unfolding hex_decode_string
hex_decode_nil = refl

hex_decode_step :
    (c e : ℕ) (rest : Bytes)
    → hex_decode_string (c ∷ (e ∷ rest)) ≡ (
        or_else (from_hex_char c) >>= λ high. or_else (from_hex_char e) >>= λ low.
        hex_decode_string rest >>= λ more. ok ((high * 16 + low) ∷ more))
unfolding hex_decode_string
hex_decode_step c e rest = refl

hex_decode_pair :
    (c e b : ℕ) (rest : Bytes) {more : Bytes}
    → from_hex_char c ≡ some (b / 16)
    → from_hex_char e ≡ some (b % 16)
    → hex_decode_string rest ≡ ok more
    → hex_decode_string (c ∷ (e ∷ rest)) ≡ ok (b ∷ more)
hex_decode_pair c e b rest {more} h k r =
    let whole : b / 16 * 16 + b % 16 ≡ b = omega arith in
    hex_decode_step c e rest ∙ rw (h, k, r, whole) refl

lower_digit : (d : ℕ) → d < 16 → from_hex_char (hex_lower d) ≡ some d
lower_digit d h = ground arith

upper_digit :
    (d : ℕ)
    → d < 16
    → from_hex_char
        (if leb b'a' (hex_lower d) && leb (hex_lower d) b'z' then hex_lower d - 32 else hex_lower d)
      ≡ some d
upper_digit d h = ground arith

-- Decoding the hexadecimal text of bytes gives the bytes.
pub hex_decode_string-hex_encode_string :
    (bytes : Bytes)
    → are_bytes bytes ≡ true
    → hex_decode_string (hex_encode_string bytes) ≡ ok bytes
unfolding are_bytes hex_encode_string
hex_decode_string-hex_encode_string [] h = hex_decode_nil
hex_decode_string-hex_encode_string (b ∷ bytes) h =
    let (small, rest) = and_split (ltb b 256) (are_bytes bytes) h in
    let byte = ltb→lt b 256 small in
    hex_decode_pair (hex_lower (b / 16)) (hex_lower (b % 16)) b (hex_encode_string bytes)
      (lower_digit (b / 16) (omega arith)) (lower_digit (b % 16) (omega arith))
      (hex_decode_string-hex_encode_string bytes rest)

-- Two texts behind one another decode to their bytes behind one another.
pub hex_decode_string-append :
    (s t : Bytes) {a b : Bytes}
    → hex_decode_string s ≡ ok a
    → hex_decode_string t ≡ ok b
    → hex_decode_string (s ++ t) ≡ ok (a ++ b)
unfolding hex_decode_string
hex_decode_string-append [] t {a} {b} h k = let nothing : a ≡ [] = cc in rw (nothing, k) refl
hex_decode_string-append (c ∷ []) t h k =
    let (d, first, odd) = >>=-eq-ok (or_else (from_hex_char c)) _ h in cc
hex_decode_string-append (c ∷ e ∷ s) t {a} {b} h k =
    let (high, p, h') = >>=-eq-ok (or_else (from_hex_char c)) _ h in
    let (low, q, h'') = >>=-eq-ok (or_else (from_hex_char e)) _ h' in
    let (more, r, all) = >>=-eq-ok (hex_decode_string s) _ h'' in
    let whole : a ≡ (high * 16 + low) ∷ more = cc in
    rw (whole, p, q, hex_decode_string-append s t r k) refl

-- So does decoding its capital letters.
pub hex_decode_string-to_upper :
    (bytes : Bytes)
    → are_bytes bytes ≡ true
    → hex_decode_string (to_upper (hex_encode_string bytes)) ≡ ok bytes
unfolding are_bytes hex_encode_string to_upper
hex_decode_string-to_upper [] h = hex_decode_nil
hex_decode_string-to_upper (b ∷ bytes) h =
    let (small, rest) = and_split (ltb b 256) (are_bytes bytes) h in
    let byte = ltb→lt b 256 small in
    hex_decode_pair _ _ b (to_upper (hex_encode_string bytes)) (upper_digit (b / 16) (omega arith))
      (upper_digit (b % 16) (omega arith)) (hex_decode_string-to_upper bytes rest)

pub are_bytes-append :
    (a b : Bytes) → are_bytes a ≡ true → are_bytes b ≡ true → are_bytes (a ++ b) ≡ true
unfolding are_bytes
are_bytes-append [] b h k = k
are_bytes-append (x ∷ a) b h k =
    let (small, rest) = and_split (ltb x 256) (are_bytes a) h in
    rw (small, are_bytes-append a b rest k) refl

pub are_bytes-to_le : (n v : ℕ) → are_bytes (to_le n v) ≡ true
unfolding are_bytes to_le
are_bytes-to_le zero v = refl
are_bytes-to_le (suc n) v =
    rw (lt→ltb (v % 256) 256 (omega arith), are_bytes-to_le n (v / 256)) refl

pub are_bytes-take :
    (n : ℕ) (bytes : Bytes) → are_bytes bytes ≡ true → are_bytes (take n bytes) ≡ true
unfolding are_bytes
are_bytes-take zero bytes h = refl
are_bytes-take (suc n) [] h = refl
are_bytes-take (suc n) (b ∷ bytes) h =
    let (small, rest) = and_split (ltb b 256) (are_bytes bytes) h in
    rw (small, are_bytes-take n bytes rest) refl
