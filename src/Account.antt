-- ===== src/Account.antt =====
-- Addresses: sdk/account_model.go, with `generateEncodedAddress` and the mapping of responses of
-- sdk/account_internal.go and `NewAddressFromNamespace` of sdk/namespace_model.go. The hash functions of
-- go-xpx-crypto are parameters.
pub mod Addresses
pub mod Responses
pub mod Pretty
use go_xpx_chain_sdk.Asset.{id, NamespaceId}
use go_xpx_chain_sdk.Base.{
  Bytes, List, Option, Result, [], err, err_invalid_address, if◌then◌else◌, leb, length, none, ok,
  panic, replicate, some, suc, zero, ℕ, ◌%◌, ◌*◌, ◌++◌, ◌+◌, ◌-◌, ◌==◌, ◌>>=◌, ◌||◌, ◌∷◌,
}
use go_xpx_chain_sdk.Encoding.{
  base32_decode_string, base32_encode_to_string, hex_decode_string, hex_encode_string, to_upper,
}
use go_xpx_chain_sdk.Secret.{Hashes}
use go_xpx_chain_sdk.Transaction.{Address, PublicAccount}
use go_xpx_chain_sdk.Word.{slice, to_le}

abbrev pub mijin : ℕ
mijin = 96

abbrev pub mijin_test : ℕ
mijin_test = 144

abbrev pub public : ℕ
public = 184

abbrev pub public_test : ℕ
public_test = 168

abbrev pub private : ℕ
private = 200

abbrev pub private_test : ℕ
private_test = 176

abbrev pub alias_address : ℕ
alias_address = 145

-- `addressNet`: the network types by the first byte of an address.
unfoldable pub address_net : ℕ → Option ℕ
address_net b =
    if b == mijin
      || b == mijin_test
      || b == alias_address
      || b == public
      || b == public_test
      || b == private
      || b == private_test
    then some b
    else none

-- `strings.Replace(address, "-", "", -1)`
unfoldable pub without_dashes : Bytes → Bytes
without_dashes [] = []
without_dashes (c ∷ cs) = let rest = without_dashes cs in if c == b'-' then rest else c ∷ rest

unfoldable pub new_address : Bytes → ℕ → Address
unfolding without_dashes
new_address address network_type = record {
  type = network_type;
  address = to_upper (without_dashes address);
}

abbrev pub of_network : Option ℕ → Bytes → Result Address
of_network none address = err err_invalid_address
of_network (some network_type) address = ok (new_address address network_type)

-- `addressNet[pH[0]]`: an empty slice has no first byte.
unfoldable pub address_of_bytes : Bytes → Bytes → Result Address
unfolding address_net
address_of_bytes address [] = panic
address_of_bytes address (b ∷ bs) = of_network (address_net b) address

unfoldable pub new_address_from_raw : Bytes → Result Address
unfolding address_of_bytes
new_address_from_raw address = do
  decoded ← base32_decode_string address
  address_of_bytes address decoded

unfoldable pub new_address_from_base32 : Bytes → Result Address
unfolding new_address_from_raw
new_address_from_base32 encoded = do
  bytes ← hex_decode_string encoded
  new_address_from_raw (base32_encode_to_string bytes)

unfoldable pub encoded_string_to_addresses : List Bytes → Result (List Address)
unfolding new_address_from_base32
encoded_string_to_addresses [] = ok []
encoded_string_to_addresses (a ∷ more) = do
  address ← new_address_from_base32 a
  addresses ← encoded_string_to_addresses more
  ok (address ∷ addresses)

-- `NewAddressFromNamespace`: the alias network, the identifier in eight bytes, and sixteen zeros.
unfoldable pub new_address_from_namespace : NamespaceId → Result Address
unfolding new_address_from_base32 id
new_address_from_namespace namespace_id =
    new_address_from_base32
      ((b'9' ∷ b'1' ∷ hex_encode_string (to_le 8 namespace_id.base_int64)) ++ replicate 32 b'0')

-- `Pretty`: six groups of six characters, and the last four, with dashes between them. The groups from
-- `i` on.
unfoldable pub pretty_groups : ℕ → ℕ → Bytes → Result Bytes
pretty_groups zero i address =
    if leb 4 (length address) then slice address (length address - 4) (length address) else panic
pretty_groups (suc left) i address = do
  group ← slice address (i * 6) (i * 6 + 6)
  rest ← pretty_groups left (i + 1) address
  ok (group ++ (b'-' ∷ rest))

unfoldable pub pretty : Address → Result Bytes
unfolding pretty_groups
pretty ad = pretty_groups 6 0 ad.address

abbrev pub num_checksum_bytes : ℕ
num_checksum_bytes = 4

module _ (crypto : Hashes) where
  unfoldable pub generate_checksum : Bytes → Result Bytes
  generate_checksum b = do hash ← crypto.hashes_sha3_256 b; slice hash 0 num_checksum_bytes

  unfoldable pub generate_encoded_address : Bytes → ℕ → Result Bytes
  unfolding generate_checksum
  generate_encoded_address public_key version = do
    key ← hex_decode_string public_key
    sha3 ← crypto.hashes_sha3_256 key
    ripemd ← crypto.hashes_ripemd160 sha3
    let versioned = version % 256 ∷ ripemd
    checksum ← generate_checksum versioned
    ok (base32_encode_to_string (versioned ++ checksum))

  unfoldable pub new_address_from_public_key : Bytes → ℕ → Result Address
  unfolding generate_encoded_address new_address
  new_address_from_public_key public_key network_type = do
    ad ← generate_encoded_address public_key network_type
    ok (new_address ad network_type)

  unfoldable pub new_account_from_public_key : Bytes → ℕ → Result PublicAccount
  unfolding new_address_from_public_key
  new_account_from_public_key public_key network_type = do
    ad ← new_address_from_public_key public_key network_type
    ok (record { address = ad; public_key = public_key })
