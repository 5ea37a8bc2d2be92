-- ===== src/Encoding/Base32.antt =====
-- Base32 text of whole groups of five bytes is decoded to the bytes.
use go_xpx_chain_sdk.Base.{
  Bytes, [], and_split, ap, append-nil, append_assoc, arith, false, leb, length, ltb, ltb→lt, ok,
  refl, some, suc, true, zero, ℕ, ◌%◌, ◌&&◌, ◌*◌, ◌++◌, ◌+◌, ◌/◌, ◌<◌, ◌==◌, ◌||◌, ◌∙◌, ◌∷◌, ◌≡◌,
  ◌≤◌,
}
use go_xpx_chain_sdk.Encoding.{
  base32_decode_string, base32_encode_to_string, decode_groups, from_base32_char, read_quantum,
  to_base32_char, to_upper, without_newlines,
}
use go_xpx_chain_sdk.Encoding.RoundTrip.{are_bytes}

-- A character of the alphabet, which is neither padding nor a line break, nor changed by capitals.
pub record IsDigit (c d : ℕ) : Type 0 where
  pub reads : from_base32_char c ≡ some d
  pub no_pad : (c == b'=') ≡ false
  pub no_break : (c == 10 || c == 13) ≡ false
  pub no_dash : (c == b'-') ≡ false
  pub is_capital : (leb b'a' c && leb c b'z') ≡ false

pub to_base32_char-IsDigit : (d : ℕ) → d < 32 → IsDigit (to_base32_char d) d
unfolding to_base32_char
to_base32_char-IsDigit d h = record {
  reads = ground arith;
  no_pad = ground arith;
  no_break = ground arith;
  no_dash = ground arith;
  is_capital = ground arith;
}

read_digit :
    (left c d : ℕ) (src digits : Bytes)
    → IsDigit c d
    → read_quantum (suc left) (c ∷ src) digits ≡ read_quantum left src (digits ++ (d ∷ []))
unfolding read_quantum
read_digit left c d src digits digit = rw (digit.no_pad, digit.reads) refl

-- Groups of five bytes.
pub data AreGroups : Bytes → Type 0 where
  no_group : AreGroups []
  one_group :
      (a b c d e : ℕ) {rest : Bytes}
      → a < 256
      → b < 256
      → c < 256
      → d < 256
      → e < 256
      → AreGroups rest
      → AreGroups (a ∷ b ∷ c ∷ d ∷ e ∷ rest)

-- Characters of the alphabet, with what they stand for.
pub data AreDigits : Bytes → Bytes → Type 0 where
  no_digit : AreDigits [] []
  one_digit :
      {c d : ℕ} {cs ds : Bytes} → IsDigit c d → AreDigits cs ds → AreDigits (c ∷ cs) (d ∷ ds)

read_digits :
    {cs ds : Bytes} (src digits : Bytes)
    → AreDigits cs ds
    → read_quantum (length cs) (cs ++ src) digits ≡ ok (digits ++ ds, false, src)
unfolding read_quantum
read_digits src digits no_digit = rw (append-nil digits) refl
read_digits src digits (one_digit {c} {d} {cs} {ds} digit more) =
    rw (digit.no_pad, digit.reads)
      (read_digits src (digits ++ (d ∷ [])) more
        ∙ ap (λ w. ok (w, false, src)) (append_assoc digits (d ∷ []) ds))

decode_group :
    (fuel : ℕ) (a b c d e : ℕ) (rest text : Bytes)
    → a < 256
    → b < 256
    → c < 256
    → d < 256
    → e < 256
    → decode_groups fuel text ≡ ok rest
    → decode_groups (suc fuel) (
        to_base32_char (a / 8)
        ∷ to_base32_char (a % 8 * 4 + b / 64)
        ∷ to_base32_char (b / 2 % 32)
        ∷ to_base32_char (b % 2 * 16 + c / 16)
        ∷ to_base32_char (c % 16 * 2 + d / 128)
        ∷ to_base32_char (d / 4 % 32)
        ∷ to_base32_char (d % 4 * 8 + e / 32)
        ∷ to_base32_char (e % 32)
        ∷ text)
      ≡ ok (a ∷ b ∷ c ∷ d ∷ e ∷ rest)
unfolding decode_groups
decode_group fuel a b c d e rest text ha hb hc hd he h =
    let digit = to_base32_char-IsDigit in
    let read = read_digits text [] (
      one_digit (digit (a / 8) (omega arith)) (
        one_digit (digit (a % 8 * 4 + b / 64) (omega arith)) (
          one_digit (digit (b / 2 % 32) (omega arith)) (
            one_digit (digit (b % 2 * 16 + c / 16) (omega arith)) (
              one_digit (digit (c % 16 * 2 + d / 128) (omega arith)) (
                one_digit (digit (d / 4 % 32) (omega arith)) (
                  one_digit (digit (d % 4 * 8 + e / 32) (omega arith))
                    (one_digit (digit (e % 32) (omega arith)) no_digit)))))))) in
    let first : (a / 8 * 8 + (a % 8 * 4 + b / 64) / 4) % 256 ≡ a = omega arith in
    let second : ((a % 8 * 4 + b / 64) * 64 + b / 2 % 32 * 2 + (b % 2 * 16 + c / 16) / 16) % 256
        ≡ b =
      omega arith in
    let third : ((b % 2 * 16 + c / 16) * 16 + (c % 16 * 2 + d / 128) / 2) % 256 ≡ c = omega arith in
    let fourth : ((c % 16 * 2 + d / 128) * 128 + d / 4 % 32 * 4 + (d % 4 * 8 + e / 32) / 8) % 256
        ≡ d =
      omega arith in
    let fifth : ((d % 4 * 8 + e / 32) * 32 + e % 32) % 256 ≡ e = omega arith in
    rw (read, h, first, second, third, fourth, fifth) refl

decode_nothing : (fuel : ℕ) → decode_groups fuel [] ≡ ok []
unfolding decode_groups
decode_nothing zero = refl
decode_nothing (suc fuel) = refl

decode_groups_lem :
    (fuel : ℕ) {b : Bytes}
    → AreGroups b
    → length b ≤ fuel
    → decode_groups fuel (base32_encode_to_string b) ≡ ok b
unfolding base32_encode_to_string
decode_groups_lem fuel no_group h = decode_nothing fuel
decode_groups_lem zero (one_group a b c d e ha hb hc hd he more) h = absurd (omega arith)
decode_groups_lem (suc fuel) (one_group a b c d e {rest} ha hb hc hd he more) h =
    decode_group fuel a b c d e rest (base32_encode_to_string rest) ha hb hc hd he
      (decode_groups_lem fuel more (omega arith))

-- Text of the alphabet only.
pub data IsText : Bytes → Type 0 where
  no_char : IsText []
  one_char : {c d : ℕ} {cs : Bytes} → IsDigit c d → IsText cs → IsText (c ∷ cs)

pub base32_encode_to_string-IsText : {b : Bytes} → AreGroups b → IsText (base32_encode_to_string b)
unfolding base32_encode_to_string
base32_encode_to_string-IsText no_group = no_char
base32_encode_to_string-IsText (one_group a b c d e ha hb hc hd he more) =
    let digit = to_base32_char-IsDigit in
    one_char (digit (a / 8) (omega arith)) (
      one_char (digit (a % 8 * 4 + b / 64) (omega arith)) (
        one_char (digit (b / 2 % 32) (omega arith)) (
          one_char (digit (b % 2 * 16 + c / 16) (omega arith)) (
            one_char (digit (c % 16 * 2 + d / 128) (omega arith)) (
              one_char (digit (d / 4 % 32) (omega arith)) (
                one_char (digit (d % 4 * 8 + e / 32) (omega arith)) (
                  one_char (digit (e % 32) (omega arith))
                    (base32_encode_to_string-IsText more))))))))

without_newlines-IsText : {t : Bytes} → IsText t → without_newlines t ≡ t
unfolding without_newlines
without_newlines-IsText no_char = refl
without_newlines-IsText (one_char {c} digit more) =
    rw (digit.no_break, without_newlines-IsText more) refl

pub to_upper-IsText : {t : Bytes} → IsText t → to_upper t ≡ t
unfolding to_upper
to_upper-IsText no_char = refl
to_upper-IsText (one_char {c} digit more) = rw (digit.is_capital, to_upper-IsText more) refl

pub length-base32_encode_to_string :
    {b : Bytes} → AreGroups b → length (base32_encode_to_string b) * 5 ≡ length b * 8
unfolding base32_encode_to_string
length-base32_encode_to_string no_group = omega arith
length-base32_encode_to_string (one_group a b c d e ha hb hc hd he more) =
    omega (arith, length-base32_encode_to_string more)

-- Decoding the text of whole groups gives the bytes.
pub base32_decode_string-base32_encode_to_string :
    {b : Bytes} → AreGroups b → base32_decode_string (base32_encode_to_string b) ≡ ok b
unfolding base32_decode_string
base32_decode_string-base32_encode_to_string {b} groups =
    rw (without_newlines-IsText (base32_encode_to_string-IsText groups)) (
      decode_groups_lem (length (base32_encode_to_string b)) groups
        (omega (arith, length-base32_encode_to_string groups)))

-- Bytes in a number that five divides are groups.
pub length-AreGroups : (n : ℕ) (b : Bytes) → length b ≡ n * 5 → are_bytes b ≡ true → AreGroups b
unfolding are_bytes
length-AreGroups n [] h k = no_group
length-AreGroups zero (x ∷ b) h k = absurd (omega arith)
length-AreGroups (suc n) (x1 ∷ []) h k = absurd (omega arith)
length-AreGroups (suc n) (x1 ∷ x2 ∷ []) h k = absurd (omega arith)
length-AreGroups (suc n) (x1 ∷ x2 ∷ x3 ∷ []) h k = absurd (omega arith)
length-AreGroups (suc n) (x1 ∷ x2 ∷ x3 ∷ x4 ∷ []) h k = absurd (omega arith)
length-AreGroups (suc n) (x1 ∷ x2 ∷ x3 ∷ x4 ∷ x5 ∷ b) h k =
    let (h1, k1) = and_split (ltb x1 256) _ k in
    let (h2, k2) = and_split (ltb x2 256) _ k1 in
    let (h3, k3) = and_split (ltb x3 256) _ k2 in
    let (h4, k4) = and_split (ltb x4 256) _ k3 in
    let (h5, k5) = and_split (ltb x5 256) _ k4 in
    one_group x1 x2 x3 x4 x5 (ltb→lt x1 256 h1) (ltb→lt x2 256 h2) (ltb→lt x3 256 h3)
      (ltb→lt x4 256 h4) (ltb→lt x5 256 h5) (length-AreGroups n b (omega arith) k5)
