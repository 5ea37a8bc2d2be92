-- ===== src/Account/Addresses.antt =====
-- Which texts are addresses, and what is in the address of a key.
use go_xpx_chain_sdk.Asset.{id, NamespaceId}
use go_xpx_chain_sdk.Base.{
  Bytes, [], ap, arith, drop, length, length-append, length-take, lt→ltb, ok, refl, replicate, some,
  sym, take, take-drop, true, ℕ, ◌%◌, ◌++◌, ◌<◌, ◌∙◌, ◌∷◌, ◌≡◌,
}
use go_xpx_chain_sdk.Account.{
  address_net, address_of_bytes, alias_address, generate_checksum, generate_encoded_address,
  new_address, new_address_from_base32, new_address_from_namespace, new_address_from_public_key,
  new_address_from_raw, without_dashes,
}
use go_xpx_chain_sdk.Encoding.{
  base32_decode_string, base32_encode_to_string, hex_decode_string, hex_encode_string,
}
use go_xpx_chain_sdk.Encoding.Base32.{
  AreGroups, IsText, base32_decode_string-base32_encode_to_string, base32_encode_to_string-IsText,
  length-AreGroups, no_char, one_char, to_upper-IsText,
}
use go_xpx_chain_sdk.Encoding.RoundTrip.{
  are_bytes, are_bytes-append, are_bytes-take, are_bytes-to_le, hex_decode_string-append,
  hex_decode_string-hex_encode_string,
}
use go_xpx_chain_sdk.Secret.{Hashes}
use go_xpx_chain_sdk.Transaction.{Address}
use go_xpx_chain_sdk.Word.{length-to_le, slice, to_le, zeros}
use go_xpx_chain_sdk.Word.Copies.{length-zeros, slice_parts}

pub without_dashes-IsText : {t : Bytes} → IsText t → without_dashes t ≡ t
unfolding without_dashes
without_dashes-IsText no_char = refl
without_dashes-IsText (one_char {c} digit more) =
    rw (digit.no_dash, without_dashes-IsText more) refl

new_address-IsText :
    {t : Bytes} (network_type : ℕ)
    → IsText t
    → new_address t network_type ≡ record { type = network_type; address = t }
unfolding new_address
new_address-IsText network_type text = rw (without_dashes-IsText text, to_upper-IsText text) refl

known_network :
    (text bs : Bytes) (b network_type : ℕ)
    → address_net b ≡ some network_type
    → address_of_bytes text (b ∷ bs) ≡ ok (new_address text network_type)
unfolding address_of_bytes
known_network text bs b network_type known = rw known refl

-- The text of bytes in groups of five that begin with a network type is an address of that network.
pub new_address_from_raw_lem :
    (b network_type : ℕ) (bs : Bytes)
    → AreGroups (b ∷ bs)
    → address_net b ≡ some network_type
    → new_address_from_raw (base32_encode_to_string (b ∷ bs))
      ≡ ok (record { type = network_type; address = base32_encode_to_string (b ∷ bs) })
unfolding new_address_from_raw
new_address_from_raw_lem b network_type bs groups known =
    let text = base32_encode_to_string (b ∷ bs) in
    rw (base32_decode_string-base32_encode_to_string groups) (
      known_network text bs b network_type known
      ∙ ap ok (new_address-IsText network_type (base32_encode_to_string-IsText groups)))

-- So is that of their hexadecimal digits.
pub new_address_from_base32_lem :
    (encoded : Bytes) (b network_type : ℕ) (bs : Bytes)
    → hex_decode_string encoded ≡ ok (b ∷ bs)
    → AreGroups (b ∷ bs)
    → address_net b ≡ some network_type
    → new_address_from_base32 encoded
      ≡ ok (record { type = network_type; address = base32_encode_to_string (b ∷ bs) })
unfolding new_address_from_base32
new_address_from_base32_lem encoded b network_type bs decoded groups known =
    rw decoded (new_address_from_raw_lem b network_type bs groups known)

-- With digests of 20 and 32 bytes, an address of a key that decodes, for a known network, has the type
-- of the network, the hash of the key and a checksum of both, and its text alone is read as the same
-- address.
pub new_address_from_public_key_lem :
    (crypto : Hashes) (public_key key sha3 ripemd check : Bytes) (network_type : ℕ)
    → address_net network_type ≡ some network_type
    → network_type < 256
    → hex_decode_string public_key ≡ ok key
    → crypto.hashes_sha3_256 key ≡ ok sha3
    → crypto.hashes_ripemd160 sha3 ≡ ok ripemd
    → crypto.hashes_sha3_256 (network_type ∷ ripemd) ≡ ok check
    → length ripemd ≡ 20
    → length check ≡ 32
    → are_bytes ripemd ≡ true
    → are_bytes check ≡ true
    → (a : Address) × (new_address_from_public_key crypto public_key network_type ≡ ok a)
      × (a.type ≡ network_type)
      × (base32_decode_string a.address ≡ ok (network_type ∷ (ripemd ++ take 4 check)))
      × (new_address_from_raw a.address ≡ ok a)
unfolding new_address_from_public_key generate_encoded_address generate_checksum are_bytes
new_address_from_public_key_lem crypto public_key key sha3 ripemd check network_type known small d s
      r c rl cl rb cb =
    let bytes = network_type ∷ (ripemd ++ take 4 check) in
    let checksum : slice check 0 4 ≡ ok (take 4 check) =
      ap (λ w. slice w 0 4) (sym (take-drop 4 check))
      ∙ slice_parts [] (take 4 check) (drop 4 check) 0 4 refl
          (omega (arith, length-take 4 check, cl)) in
    let byte : network_type % 256 ≡ network_type = omega arith in
    let groups : AreGroups bytes =
      length-AreGroups 5 bytes
        (omega (arith, length-append ripemd (take 4 check), length-take 4 check))
        (rw (lt→ltb network_type 256 small)
          (are_bytes-append ripemd (take 4 check) rb (are_bytes-take 4 check cb))) in
    (
      record { type = network_type; address = base32_encode_to_string bytes },
      rw
          (
            d,
            s,
            r,
            byte,
            c,
            checksum,
            new_address-IsText network_type (base32_encode_to_string-IsText groups),
          )
          refl,
      refl,
      base32_decode_string-base32_encode_to_string groups,
      new_address_from_raw_lem network_type network_type (ripemd ++ take 4 check) groups known,
    )

alias_digits : hex_decode_string (b'9' ∷ (b'1' ∷ [])) ≡ ok (alias_address ∷ [])
unfolding hex_decode_string
alias_digits = refl

zero_digits : hex_decode_string (replicate 32 b'0') ≡ ok (zeros 16)
unfolding hex_decode_string zeros
zero_digits = refl

alias_byte : are_bytes (alias_address ∷ []) ≡ true
unfolding are_bytes
alias_byte = refl

zero_bytes : are_bytes (zeros 16) ≡ true
unfolding are_bytes zeros
zero_bytes = refl

alias_known : address_net alias_address ≡ some alias_address
unfolding address_net
alias_known = refl

-- The address of a namespace is of the alias network, and has the identifier and zeros.
pub new_address_from_namespace_lem :
    (n : NamespaceId)
    → let bytes = alias_address ∷ (to_le 8 n.base_int64 ++ zeros 16) in
      (new_address_from_namespace n
        ≡ ok (record { type = alias_address; address = base32_encode_to_string bytes }))
      × (base32_decode_string (base32_encode_to_string bytes) ≡ ok bytes)
unfolding new_address_from_namespace id
new_address_from_namespace_lem n =
    let rest = to_le 8 n.base_int64 ++ zeros 16 in
    let bytes = alias_address ∷ rest in
    let encoded = b'9' ∷ (b'1' ∷ hex_encode_string (to_le 8 n.base_int64)) in
    let front : hex_decode_string encoded ≡ ok (alias_address ∷ to_le 8 n.base_int64) =
      hex_decode_string-append (b'9' ∷ b'1' ∷ []) (hex_encode_string (to_le 8 n.base_int64))
        alias_digits
        (hex_decode_string-hex_encode_string (to_le 8 n.base_int64)
          (are_bytes-to_le 8 n.base_int64)) in
    let decoded : hex_decode_string (encoded ++ replicate 32 b'0') ≡ ok bytes =
      hex_decode_string-append encoded (replicate 32 b'0') front zero_digits in
    let groups : AreGroups bytes =
      length-AreGroups 5 bytes
        (omega (
          arith,
          length-append (to_le 8 n.base_int64) (zeros 16),
          length-to_le 8 n.base_int64,
          length-zeros 16,
        ))
        (are_bytes-append (alias_address ∷ []) rest alias_byte (
          are_bytes-append (to_le 8 n.base_int64) (zeros 16) (are_bytes-to_le 8 n.base_int64)
            zero_bytes)) in
    (
      new_address_from_base32_lem (encoded ++ replicate 32 b'0') alias_address alias_address rest
          decoded groups alias_known,
      base32_decode_string-base32_encode_to_string groups,
    )
