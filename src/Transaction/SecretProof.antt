-- ===== src/Transaction/SecretProof.antt =====
-- `SecretProofTransaction` of sdk/transaction_model.go.
use go_xpx_chain_sdk.Schema.{serialize}
use go_xpx_chain_sdk.Base.{
  Bytes, Option, Result, [], ap, append-nil, arith, err, err_nil_address, err_nil_proof, length,
  length-append, length_nonzero, none, ok, refl, some, sym, true, ℕ, ◌%◌, ◌++◌, ◌+◌, ◌<◌, ◌>>=◌,
  ◌^◌, ◌∙◌, ◌≡◌, ◌≢◌,
}
use go_xpx_chain_sdk.Buffers.{transaction_buffer_add_size, transaction_buffer_create_byte_vector}
use go_xpx_chain_sdk.Buffers.Locks.{
  secret_proof_transaction_buffer_add_hash_algorithm, secret_proof_transaction_buffer_add_proof,
  secret_proof_transaction_buffer_add_proof_size, secret_proof_transaction_buffer_add_recipient,
  secret_proof_transaction_buffer_add_secret, secret_proof_transaction_buffer_start,
}
use go_xpx_chain_sdk.Encoding.{base32_decode_string}
use go_xpx_chain_sdk.Schema.Definitions.{secret_proof_transaction_schema}
use go_xpx_chain_sdk.Schema.Format.{Slots, finished, fits, wire}
use go_xpx_chain_sdk.Secret.{Hashes, Secret, secret_of_proof}
use go_xpx_chain_sdk.Secret.Digests.{HasDigests, secret_of_proof_total}
use go_xpx_chain_sdk.Transaction.{
  AbstractTransaction, Address, Deadline, build_vectors, following_deadline,
  new_abstract_transaction, ◌⊳◌,
}
use go_xpx_chain_sdk.Transaction.Entities.{entity_secret_proof, secret_proof_version}
use go_xpx_chain_sdk.Transaction.Header.{Carries, header_bytes, serialized, stored, stored_byte}
use go_xpx_chain_sdk.Transaction.Sizes.{address_size, secret_proof_header_size}
use go_xpx_chain_sdk.Word.{length-to_le, to_le}

-- The proof is its data.
pub record SecretProofTransaction : Type 0 where
  pub abstract_transaction : AbstractTransaction
  pub hash_type : ℕ
  pub proof : Bytes
  pub recipient : Address

pub new_secret_proof_transaction :
    Option Deadline → ℕ → Option Bytes → Option Address → ℕ → Result SecretProofTransaction
new_secret_proof_transaction deadline hash_type none recipient network_type = err err_nil_proof
new_secret_proof_transaction deadline hash_type (some proof) none network_type = err err_nil_address
new_secret_proof_transaction deadline hash_type (some proof) (some recipient) network_type =
    ok (record {
      abstract_transaction =
          new_abstract_transaction deadline entity_secret_proof secret_proof_version network_type;
      hash_type = hash_type;
      proof = proof;
      recipient = recipient;
    })

unfoldable pub size : SecretProofTransaction → ℕ
size tx = secret_proof_header_size + length tx.proof

-- The object that `generateBytes` has the builder make, from the secret of the proof and the decoded
-- recipient.
unfoldable pub object : SecretProofTransaction → Secret → Bytes → Slots
unfolding size transaction_buffer_create_byte_vector secret_proof_transaction_buffer_start
    transaction_buffer_add_size build_vectors secret_proof_transaction_buffer_add_hash_algorithm
    secret_proof_transaction_buffer_add_secret secret_proof_transaction_buffer_add_recipient
    secret_proof_transaction_buffer_add_proof_size secret_proof_transaction_buffer_add_proof
object tx secret addr =
    secret_proof_transaction_buffer_start
    ⊳ transaction_buffer_add_size (size tx)
    ⊳ build_vectors tx.abstract_transaction
    ⊳ secret_proof_transaction_buffer_add_hash_algorithm tx.hash_type
    ⊳ secret_proof_transaction_buffer_add_secret (transaction_buffer_create_byte_vector secret.hash)
    ⊳ secret_proof_transaction_buffer_add_recipient (transaction_buffer_create_byte_vector addr)
    ⊳ secret_proof_transaction_buffer_add_proof_size (length tx.proof % 2 ^ 16)
    ⊳ secret_proof_transaction_buffer_add_proof (transaction_buffer_create_byte_vector tx.proof)

pub generate_bytes : Hashes → (Slots → Bytes) → SecretProofTransaction → Result Bytes
generate_bytes crypto finished_bytes tx = do
  secret ← secret_of_proof crypto tx.proof tx.hash_type
  following_deadline tx.abstract_transaction (do
    addr ← base32_decode_string tx.recipient.address
    serialize secret_proof_transaction_schema (finished_bytes (object tx secret addr)))

-- What follows the header in the layout of the protocol.
unfoldable pub body : SecretProofTransaction → Secret → Bytes → Bytes
body tx secret addr =
    to_le 1 tx.hash_type ++ (secret.hash ++ (addr ++ (to_le 2 (length tx.proof) ++ tx.proof)))

-- On the flatbuffer that holds its object, with the type and the version of its kind, a network of one
-- byte and a deadline, with hash functions that return digests, a secret proof of a known hash type
-- whose proof is not empty and fits its 16-bit size, and whose recipient decodes to an address of 25
-- bytes, is serialised to its bytes in the order of the protocol, with the secret of the proof among
-- them. They are as many as `Size` says.
pub secret_proof-wire :
    (crypto : Hashes) (finished_bytes : Slots → Bytes) (tx : SecretProofTransaction) (s : Secret)
    (addr : Bytes)
    → HasDigests crypto
    → Carries entity_secret_proof secret_proof_version tx.abstract_transaction
    → tx.hash_type < 4
    → tx.proof ≢ []
    → length tx.proof < 2 ^ 16
    → base32_decode_string tx.recipient.address ≡ ok addr
    → length addr ≡ address_size
    → secret_of_proof crypto tx.proof tx.hash_type ≡ ok s
    → finished (finished_bytes (object tx s addr)) (object tx s addr) ≡ true
    → (generate_bytes crypto finished_bytes tx
        ≡ ok (header_bytes (size tx) tx.abstract_transaction ++ body tx s addr))
      × (length (header_bytes (size tx) tx.abstract_transaction ++ body tx s addr) ≡ size tx)
unfolding generate_bytes object body fits secret_proof_transaction_schema wire size
secret_proof-wire crypto finished_bytes tx s addr g c known some_proof m d l e h =
    let (s1, e1, k1) = secret_of_proof_total crypto g tx.proof tx.hash_type known in
    let same : s1 ≡ s = cc in
    let k : length s.hash ≡ 32 = ap (λ (t : Secret). length t.hash) (sym same) ∙ k1 in
    let nonzero : length tx.proof ≢ 0 = length_nonzero tx.proof some_proof in
    let fits_size : length tx.proof % 2 ^ 16 ≡ length tx.proof = omega arith in
    rw (e, d)
      (serialized secret_proof_transaction_schema (size tx) entity_secret_proof secret_proof_version
        (size tx) tx.abstract_transaction (object tx s addr) (body tx s addr)
        (finished_bytes (object tx s addr)) (omega arith) c h refl refl
        (simp (stored_byte, fits_size, stored 2 (length tx.proof) nonzero, append-nil))
        (simp (length-append, length-to_le, k, l) (omega arith)))
