-- ===== src/Transaction/Signing/Payload.antt =====
-- What is signed, hashed and embedded, in the layout of the protocol.
use go_xpx_chain_sdk.Base.{
  Bytes, ap, append_assoc, arith, drop, length, length-append, length-drop, length-take, ok, refl,
  some, sym, take, take-drop, take-length, true, ℕ, ◌++◌, ◌+◌, ◌-◌, ◌∙◌, ◌≡◌, ◌≤◌,
}
use go_xpx_chain_sdk.Encoding.{hex_decode_string, hex_encode_string, to_upper}
use go_xpx_chain_sdk.Encoding.RoundTrip.{
  are_bytes, are_bytes-append, are_bytes-to_le, hex_decode_string-hex_encode_string,
  hex_decode_string-to_upper,
}
use go_xpx_chain_sdk.Schema.{u32}
use go_xpx_chain_sdk.Secret.{Hashes}
use go_xpx_chain_sdk.Transaction.{
  AbstractTransaction, PublicAccount, SignedTransaction, deadline_timestamp,
}
use go_xpx_chain_sdk.Transaction.Header.{header_bytes, length-header_bytes, version_word}
use go_xpx_chain_sdk.Transaction.Signing.{
  Account, Transaction, bytes_to_hash, create_transaction_hash, generation_bytes, hash_input,
  sign_transaction_with, to_aggregate_transaction_bytes,
}
use go_xpx_chain_sdk.Transaction.Signing.Embedding.{embed_lem}
use go_xpx_chain_sdk.Transaction.Signing.Filling.{fill_signature_lem}
use go_xpx_chain_sdk.Transaction.Signing.Layout.{HasParts, hash_input_lem, parts, signing_input_lem}
use go_xpx_chain_sdk.Transaction.Sizes.{
  dead_line_size, max_fee_size, signature_size, transaction_header_size,
}
use go_xpx_chain_sdk.Uint64.{to_little_endian}
use go_xpx_chain_sdk.Uint64.Halves.{length-to_little_endian}
use go_xpx_chain_sdk.Word.{length-to_le, to_le, zeros}
use go_xpx_chain_sdk.Word.Copies.{length-zeros, zeros_add}

-- A transaction that generates its header and a body, as many bytes as its size says.
pub record Serialises (tx : Transaction) (body : Bytes) : Type 0 where
  pub bytes_are : tx.generated_bytes ≡ ok (header_bytes tx.size tx.abstract_transaction ++ body)
  pub body_length : transaction_header_size + length body ≡ tx.size

-- The version and the type, and what follows them in the header.
unfoldable pub version_and_type : AbstractTransaction → Bytes
version_and_type a = to_le 4 (version_word a) ++ to_le 2 a.type

unfoldable pub fee_and_deadline : AbstractTransaction → Bytes
fee_and_deadline a = to_little_endian a.max_fee ++ to_little_endian (deadline_timestamp a.deadline)

-- The part of a transaction that the signature covers.
unfoldable pub signed_part : AbstractTransaction → Bytes → Bytes
signed_part a body = version_and_type a ++ (fee_and_deadline a ++ body)

header_parts :
    (size : ℕ) (a : AbstractTransaction) (body : Bytes)
    → header_bytes size a ++ body
      ≡ parts (to_le 4 (u32 size)) (zeros 32) (zeros 32) (zeros 32) (signed_part a body)
unfolding header_bytes signed_part version_and_type fee_and_deadline
header_parts size a body = simp (zeros_add 32 32, append_assoc)

header_HasParts :
    (size : ℕ) (a : AbstractTransaction) (body : Bytes)
    → HasParts (to_le 4 (u32 size)) (zeros 32) (zeros 32) (zeros 32) (signed_part a body)
header_HasParts size a body = record {
  size_length = length-to_le 4 (u32 size);
  half_length = length-zeros 32;
  other_length = length-zeros 32;
  signer_length = length-zeros 32;
}

length-version_and_type : (a : AbstractTransaction) → length (version_and_type a) ≡ 6
unfolding version_and_type
length-version_and_type a = simp (length-append, length-to_le)

length-fee_and_deadline : (a : AbstractTransaction) → length (fee_and_deadline a) ≡ 16
unfolding fee_and_deadline
length-fee_and_deadline a = simp (length-append, length-to_little_endian)

are_bytes-signed_part :
    (a : AbstractTransaction) (body : Bytes)
    → are_bytes body ≡ true
    → are_bytes (signed_part a body) ≡ true
unfolding signed_part version_and_type fee_and_deadline to_little_endian
are_bytes-signed_part a body h =
    are_bytes-append _ _
      (are_bytes-append (to_le 4 (version_word a)) (to_le 2 a.type) (are_bytes-to_le 4 _)
        (are_bytes-to_le 2 _))
      (are_bytes-append _ _
        (are_bytes-append (to_le 8 a.max_fee) (to_le 8 (deadline_timestamp a.deadline))
          (are_bytes-to_le 8 _) (are_bytes-to_le 8 _))
        h)

module _ (tx : Transaction) (body : Bytes) (serialises : Serialises tx body) where
  -- A transaction that is serialised to its header and its body, as many bytes as its size says, and
  -- whose signer has a key that decodes to 32 bytes, is inside an aggregate its size, the key of its
  -- signer, the version and the type, and its body; the signature, the fee and the deadline are left
  -- out, and the size counts what is left.
  pub to_aggregate_transaction_bytes_lem :
      (signer : PublicAccount) (key : Bytes)
      → tx.abstract_transaction.signer ≡ some signer
      → hex_decode_string signer.public_key ≡ ok key
      → length key ≡ 32
      → (to_aggregate_transaction_bytes tx
          ≡ ok (
              to_le 4 (tx.size - 80)
              ++ (key ++ (version_and_type tx.abstract_transaction ++ body))))
        × (length (
              to_le 4 (tx.size - 80) ++ (key ++ (version_and_type tx.abstract_transaction ++ body)))
            ≡ tx.size - (signature_size + max_fee_size + dead_line_size))
  unfolding to_aggregate_transaction_bytes signed_part version_and_type version_word
  to_aggregate_transaction_bytes_lem signer key s d l =
      let a = tx.abstract_transaction in
      let vl = length-version_and_type a in
      let fl = length-fee_and_deadline a in
      let bl = serialises.body_length in
      let k : take 32 key ≡ key = take-length 32 key (omega arith) in
      let n : 42 + length body ≡ tx.size - 80 = omega arith in
      (
        rw (s, d, serialises.bytes_are, header_parts tx.size a body)
            (embed_lem (to_le 4 (u32 tx.size)) (zeros 32) (zeros 32) (zeros 32) (version_and_type a)
                (fee_and_deadline a) body (header_HasParts tx.size a body) vl fl key (omega arith)
              ∙ rw (k, n) refl),
        length-append (to_le 4 (tx.size - 80)) (key ++ (version_and_type a ++ body))
            ∙ omega (
              arith,
              length-to_le 4 (tx.size - 80),
              length-append key (version_and_type a ++ body),
              length-append (version_and_type a) body,
            ),
      )

  -- For a transaction that is serialised to its header and a body of bytes, as many as its size says,
  -- for a key of 32 bytes and a signature of 64 that the account makes, and for a digest of 32 bytes,
  -- signing succeeds. The signature is that of the generation hash and the transaction from its
  -- version on. The payload is the transaction with the signature and the key in their places, in
  -- hexadecimal digits made capital, which decode to it, and the hash is the digest of half the
  -- signature, the key, the generation hash and the signed part.
  pub sign_transaction_with_lem :
      (crypto : Hashes) (account : Account) (signature digest : Bytes)
      → length account.public_key ≡ 32
      → account.sign
          (generation_bytes account.generation_hash ++ signed_part tx.abstract_transaction body)
        ≡ ok signature
      → length signature ≡ 64
      → crypto.hashes_sha3_256 (
          take 32 signature
          ++ (account.public_key
              ++ (generation_bytes account.generation_hash
                  ++ signed_part tx.abstract_transaction body)))
        ≡ ok digest
      → length digest ≡ 32
      → are_bytes account.public_key ≡ true
      → are_bytes signature ≡ true
      → are_bytes body ≡ true
      → (signed : SignedTransaction) × (sign_transaction_with crypto tx account ≡ ok signed)
        × (signed.entity_type ≡ tx.abstract_transaction.type)
        × (signed.hash ≡ some digest)
        × (hex_decode_string signed.payload
            ≡ ok (
                to_le 4 (u32 tx.size)
                ++ (signature ++ (account.public_key ++ signed_part tx.abstract_transaction body))))
        × (signed.payload
            ≡ to_upper (
                hex_encode_string (
                  to_le 4 (u32 tx.size)
                  ++ (signature
                      ++ (account.public_key ++ signed_part tx.abstract_transaction body)))))
  unfolding sign_transaction_with create_transaction_hash bytes_to_hash
  sign_transaction_with_lem crypto account signature digest kl s sl h dl kb sb bb =
      let a = tx.abstract_transaction in
      let size = to_le 4 (u32 tx.size) in
      let rest = signed_part a body in
      let has = header_HasParts tx.size a body in
      let p = size ++ (signature ++ (account.public_key ++ rest)) in
      let bytes : are_bytes p ≡ true =
        are_bytes-append size (signature ++ (account.public_key ++ rest)) (are_bytes-to_le 4 _) (
          are_bytes-append signature (account.public_key ++ rest) sb
            (are_bytes-append account.public_key rest kb (are_bytes-signed_part a body bb))) in
      let split : p ≡ parts size (take 32 signature) (drop 32 signature) account.public_key rest =
        ap (λ w. size ++ w)
          (ap (λ w. w ++ (account.public_key ++ rest)) (sym (take-drop 32 signature))
            ∙ append_assoc (take 32 signature) (drop 32 signature) (account.public_key ++ rest)) in
      let filled : HasParts size (take 32 signature) (drop 32 signature) account.public_key rest =
        record {
          size_length = has.size_length;
          half_length = length-take 32 signature ∙ omega arith;
          other_length = length-drop 32 signature ∙ omega arith;
          signer_length = kl;
        } in
      let hashed : hash_input p account.generation_hash
          ≡ ok (
              take 32 signature
              ++ (account.public_key ++ (generation_bytes account.generation_hash ++ rest))) =
        ap (λ w. hash_input w account.generation_hash) split
        ∙ hash_input_lem size (take 32 signature) (drop 32 signature) account.public_key rest filled
            account.generation_hash in
      let payload = to_upper (hex_encode_string p) in
      (
        record { entity_type = a.type; payload = payload; hash = some digest },
        rw
            (
              serialises.bytes_are,
              header_parts tx.size a body,
              signing_input_lem size (zeros 32) (zeros 32) (zeros 32) rest has
                  account.generation_hash,
              s,
              fill_signature_lem size (zeros 32) (zeros 32) (zeros 32) rest has signature
                  account.public_key sl kl,
              hex_decode_string-hex_encode_string p bytes,
              hashed,
              h,
              dl,
              take-length 32 digest (let e : length digest ≤ 32 = omega arith in e),
            )
            refl,
        refl,
        refl,
        hex_decode_string-to_upper p bytes,
        refl,
      )

-- What the theorems on the generated bytes of a transaction show of it.
pub serialises :
    (tx : Transaction) (body : Bytes)
    → (tx.generated_bytes ≡ ok (header_bytes tx.size tx.abstract_transaction ++ body))
      × (length (header_bytes tx.size tx.abstract_transaction ++ body) ≡ tx.size)
    → Serialises tx body
serialises tx body (e, l) = record {
  bytes_are = e;
  body_length = omega (
    arith,
    l,
    length-append (header_bytes tx.size tx.abstract_transaction) body,
    length-header_bytes tx.size tx.abstract_transaction,
  );
}
