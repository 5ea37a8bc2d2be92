-- ===== src/Transaction/Signing.antt =====
-- Signing: `createTransactionHash`, `signTransactionWith` and
-- `toAggregateTransactionBytes` of sdk/transaction_model.go, with the conversions of sdk/util.go.
pub mod Layout
pub mod Filling
pub mod Embedding
pub mod Payload
pub mod Cosigning
use go_xpx_chain_sdk.Base.{
  Bytes, Option, Result, [], err, err_invalid_hash_length, err_invalid_signature_length,
  if◌then◌else◌, length, new_error, none, not, ok, some, take, ℕ, ◌++◌, ◌+◌, ◌==◌, ◌>>=◌,
}
use go_xpx_chain_sdk.Encoding.{hex_decode_string, hex_encode_string, to_upper}
use go_xpx_chain_sdk.Secret.{Hashes}
use go_xpx_chain_sdk.Transaction.{AbstractTransaction, PublicAccount, SignedTransaction}
use go_xpx_chain_sdk.Transaction.Sizes.{
  dead_line_size, half_of_signature, max_fee_size, signature_size, signer_size, size_size,
  transaction_header_size, type_size, version_size,
}
use go_xpx_chain_sdk.Transaction.Transfer.{payload}
use go_xpx_chain_sdk.Word.{copy_at, make_bytes, slice, to_le}

-- The interface `Transaction`, as far as it is used here.
pub record Transaction : Type 0 where
  pub abstract_transaction : AbstractTransaction
  pub size : ℕ
  pub generated_bytes : Result Bytes

-- An account: the bytes of its public key, the signer that go-xpx-crypto makes from its key pair, and
-- the generation hash, which may be nil.
pub record Account : Type 0 where
  pub public_key : Bytes
  pub sign : Bytes → Result Bytes
  pub generation_hash : Option Bytes

unfoldable pub bytes_to_hash : Bytes → Result Bytes
bytes_to_hash bytes =
    if not (length bytes == 32) then err err_invalid_hash_length else ok (take 32 bytes)

unfoldable pub string_to_hash : Bytes → Result Bytes
unfolding bytes_to_hash
string_to_hash hash =
    if not (length hash == 64)
    then err err_invalid_hash_length
    else (do bytes ← hex_decode_string hash; bytes_to_hash bytes)

unfoldable pub bytes_to_signature : Bytes → Result Bytes
bytes_to_signature bytes =
    if not (length bytes == 64) then err err_invalid_signature_length else ok (take 64 bytes)

unfoldable pub string_to_signature : Bytes → Result Bytes
unfolding bytes_to_signature
string_to_signature signature =
    if not (length signature == 128)
    then err err_invalid_hash_length
    else (do bytes ← hex_decode_string signature; bytes_to_signature bytes)

abbrev pub generation_bytes : Option Bytes → Bytes
generation_bytes none = []
generation_bytes (some hash) = hash

-- `if generationHash != nil { copy(sb[HalfOfSignature+SignerSize:], generationHash[:]) }`
abbrev pub copy_generation_hash : Bytes → Option Bytes → Result Bytes
copy_generation_hash sb none = ok sb
copy_generation_hash sb (some hash) = copy_at sb (half_of_signature + signer_size) (length sb) hash

-- The bytes that `createTransactionHash` hashes.
unfoldable pub hash_input : Bytes → Option Bytes → Result Bytes
hash_input b generation_hash = do
  let n = length (generation_bytes generation_hash)
  sb0 ← make_bytes (length b + n) (size_size + half_of_signature)
  half ← slice b size_size (size_size + half_of_signature)
  sb1 ← copy_at sb0 0 half_of_signature half
  signer ← slice b (size_size + signature_size) (size_size + signature_size + signer_size)
  sb2 ← copy_at sb1 half_of_signature (half_of_signature + signer_size) signer
  sb3 ← copy_generation_hash sb2 generation_hash
  rest ← slice b (size_size + signature_size + signer_size) (length b)
  copy_at sb3 (half_of_signature + signer_size + n) (length sb3) rest

unfoldable pub create_transaction_hash : Hashes → Bytes → Option Bytes → Result Bytes
unfolding hash_input bytes_to_hash
create_transaction_hash crypto p generation_hash = do
  b ← hex_decode_string p
  sb ← hash_input b generation_hash
  r ← crypto.hashes_sha3_256 sb
  bytes_to_hash r

-- The bytes that are signed: what follows the signer, behind the generation hash.
unfoldable pub signing_input : Bytes → Option Bytes → Result Bytes
signing_input b generation_hash = do
  sb0 ← make_bytes (length b) (size_size + signer_size + signature_size)
  rest ← slice b (size_size + signer_size + signature_size) (length b)
  sb ← copy_at sb0 0 (length sb0) rest
  ok (generation_bytes generation_hash ++ sb)

-- The bytes of the payload: those of the transaction with the signature and the signer in place.
unfoldable pub fill_signature : Bytes → Bytes → Bytes → Result Bytes
fill_signature b signature public_key = do
  p0 ← make_bytes (length b) 0
  size ← slice b 0 size_size
  p1 ← copy_at p0 0 size_size size
  p2 ← copy_at p1 size_size (size_size + signature_size) signature
  p3 ← copy_at p2 (size_size + signature_size) (size_size + signature_size + signer_size) public_key
  rest ← slice b (size_size + signature_size + signer_size) (length b)
  copy_at p3 (size_size + signature_size + signer_size) (length p3) rest

unfoldable pub sign_transaction_with : Hashes → Transaction → Account → Result SignedTransaction
unfolding signing_input fill_signature create_transaction_hash
sign_transaction_with crypto tx a = do
  b ← tx.generated_bytes
  sb ← signing_input b a.generation_hash
  signature ← a.sign sb
  p ← fill_signature b signature a.public_key
  let ph = hex_encode_string p
  h ← create_transaction_hash crypto ph a.generation_hash
  ok (record { entity_type = tx.abstract_transaction.type; payload = to_upper ph; hash = some h })

-- The bytes of a transaction inside an aggregate, from its own and those of its signer's key.
unfoldable pub embed : Bytes → Bytes → Result Bytes
embed sb b = do
  r0 ← make_bytes (length b) (signature_size + max_fee_size + dead_line_size)
  signer ← slice sb 0 signer_size
  r1 ← copy_at r0 size_size (signer_size + size_size) signer
  middle ←
      slice b (size_size + signer_size + signature_size)
        (size_size + signer_size + signature_size + version_size + type_size)
  r2 ←
      copy_at r1 (signer_size + size_size) (signer_size + size_size + version_size + type_size)
        middle
  rest ← slice b transaction_header_size (length b)
  r3 ← copy_at r2 (signer_size + size_size + version_size + type_size) (length r2) rest
  copy_at r3 0 4 (to_le 4 (length r3))

unfoldable pub to_aggregate_transaction_bytes : Transaction → Result Bytes
unfolding embed
to_aggregate_transaction_bytes tx = signed_by tx.abstract_transaction.signer
  where
    signed_by : Option PublicAccount → Result Bytes
    signed_by none = err (new_error "some of the transaction does not have a signer")
    signed_by (some signer) = do
      sb ← hex_decode_string signer.public_key
      b ← tx.generated_bytes
      embed sb b
