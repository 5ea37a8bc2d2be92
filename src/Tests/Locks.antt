-- ===== src/Tests/Locks.antt =====
-- Concrete locks and proofs.
use go_xpx_chain_sdk.Transaction.SecretLock
use go_xpx_chain_sdk.Transaction.SecretProof
use go_xpx_chain_sdk.Asset.{id}
use go_xpx_chain_sdk.Base.{Bytes, [], arith, length, ok, refl, replicate, true, ◌++◌, ◌∷◌, ◌≡◌, ◌≢◌}
use go_xpx_chain_sdk.Schema.Format.{bytes_at, finished, number_at, offset_at, reads, slots_hold}
use go_xpx_chain_sdk.Secret.{Hashes, Secret, secret_of_proof}
use go_xpx_chain_sdk.Secret.Digests.{HasDigests, secret_of_proof_total}
use go_xpx_chain_sdk.Tests.Flatbuffer.{layout}
use go_xpx_chain_sdk.Tests.Samples.{decoded, head, head-Carries, recipient, recipient_decodes, xpx}
use go_xpx_chain_sdk.Transaction.{
  deadline_timestamp, new_abstract_transaction, to_blockchain_timestamp,
}
use go_xpx_chain_sdk.Transaction.Entities.{
  entity_secret_lock, entity_secret_proof, secret_lock_version, secret_proof_version,
}
use go_xpx_chain_sdk.Transaction.Header.{header_bytes}
use go_xpx_chain_sdk.Transaction.SecretLock.{SecretLockTransaction, secret_lock-wire}
use go_xpx_chain_sdk.Transaction.SecretProof.{SecretProofTransaction, secret_proof-wire}
use go_xpx_chain_sdk.Uint64.{uint64_to_array}
use go_xpx_chain_sdk.Word.{from_le, to_le, zeros}

abbrev a_hash : Bytes
a_hash = replicate 32 17

abbrev secret_lock : SecretLockTransaction
secret_lock = record {
  abstract_transaction = head entity_secret_lock secret_lock_version;
  mosaic = xpx;
  duration = 100;
  secret = record { hash = a_hash; type = 0 };
  recipient = recipient;
}

secret_lock_written :
    finished
      (layout (SecretLock.object secret_lock decoded))
      (SecretLock.object secret_lock decoded)
    ≡ true
unfolding finished layout SecretLock.object to_le new_abstract_transaction zeros number_at bytes_at
    from_le slots_hold offset_at reads uint64_to_array deadline_timestamp to_blockchain_timestamp id
secret_lock_written = refl

secret_lock-wire_example :
    (SecretLock.generate_bytes layout secret_lock
      ≡ ok (
          header_bytes (SecretLock.size secret_lock) secret_lock.abstract_transaction
          ++ SecretLock.body secret_lock decoded))
    × (length (
          header_bytes (SecretLock.size secret_lock) secret_lock.abstract_transaction
          ++ SecretLock.body secret_lock decoded)
        ≡ SecretLock.size secret_lock)
secret_lock-wire_example =
    secret_lock-wire layout secret_lock decoded
      (head-Carries entity_secret_lock secret_lock_version) recipient_decodes refl refl
      secret_lock_written

-- Hash functions of constant digests.
abbrev constant_hashes : Hashes
constant_hashes = record {
  hashes_sha3_256 = λ b. ok a_hash;
  hashes_keccak_256 = λ b. ok a_hash;
  hashes_sha_256 = λ b. ok a_hash;
  hashes_ripemd160 = λ b. ok (replicate 20 3);
}

constant_digests : HasDigests constant_hashes
constant_digests = record {
  sha3_256_digest = λ b. (a_hash, refl, refl);
  keccak_256_digest = λ b. (a_hash, refl, refl);
  sha_256_digest = λ b. (a_hash, refl, refl);
  ripemd160_digest = λ b. (replicate 20 3, refl, refl);
}

abbrev proof : SecretProofTransaction
proof = record {
  abstract_transaction = head entity_secret_proof secret_proof_version;
  hash_type = 2;
  proof = 9 ∷ (8 ∷ []);
  recipient = recipient;
}

abbrev secret : Secret
secret = record { hash = replicate 20 3 ++ replicate 12 0; type = 2 }

secret_known : secret_of_proof constant_hashes proof.proof proof.hash_type ≡ ok secret
unfolding secret_of_proof
secret_known = refl

proof_written :
    finished
      (layout (SecretProof.object proof secret decoded))
      (SecretProof.object proof secret decoded)
    ≡ true
unfolding finished layout SecretProof.object to_le new_abstract_transaction zeros number_at bytes_at
    from_le slots_hold offset_at reads uint64_to_array deadline_timestamp to_blockchain_timestamp
    SecretProof.size
proof_written = refl

nonempty : proof.proof ≢ []
nonempty e = cc

secret_proof-wire_example :
    (SecretProof.generate_bytes constant_hashes layout proof
      ≡ ok (
          header_bytes (SecretProof.size proof) proof.abstract_transaction
          ++ SecretProof.body proof secret decoded))
    × (length (
          header_bytes (SecretProof.size proof) proof.abstract_transaction
          ++ SecretProof.body proof secret decoded)
        ≡ SecretProof.size proof)
secret_proof-wire_example =
    secret_proof-wire constant_hashes layout proof secret decoded constant_digests
      (head-Carries entity_secret_proof secret_proof_version) (omega arith) nonempty (omega arith)
      recipient_decodes refl secret_known proof_written

secret_of_proof_total_example :
    (s : Secret) × (secret_of_proof constant_hashes (1 ∷ []) 2 ≡ ok s) × (length s.hash ≡ 32)
secret_of_proof_total_example =
    secret_of_proof_total constant_hashes constant_digests (1 ∷ []) 2 (omega arith)
