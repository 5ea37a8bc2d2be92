-- ===== src/Transaction/Signing/Cosigning.antt =====
-- `signTransactionWithCosignatures` and `signCosignatureTransaction` of sdk/transaction_model.go. The
-- text that go-xpx-crypto gives of a public key is a parameter.
use go_xpx_chain_sdk.Base.{
  Bool, Bytes, List, Option, Result, [], ap, append-nil, append_assoc, arith, deref, err,
  if◌then◌else◌, length, new_error, none, ok, refl, replicate, some, sym, true, ◌++◌, ◌>>=◌, ◌∙◌,
  ◌∷◌, ◌≡◌,
}
use go_xpx_chain_sdk.Base.Text.{same}
use go_xpx_chain_sdk.Encoding.{hex_decode_string, hex_encode_string}
use go_xpx_chain_sdk.Encoding.RoundTrip.{
  are_bytes, are_bytes-append, are_bytes-to_le, hex_decode_string-append,
  hex_decode_string-hex_encode_string,
}
use go_xpx_chain_sdk.Secret.{Hashes}
use go_xpx_chain_sdk.Transaction.{AbstractTransaction, SignedTransaction}
use go_xpx_chain_sdk.Transaction.Signing.{
  Account, Transaction, bytes_to_signature, sign_transaction_with,
}
use go_xpx_chain_sdk.Word.{copy_at, length-to_le, to_le}
use go_xpx_chain_sdk.Word.Copies.{copy_parts}

pub record CosignatureSignedTransaction : Type 0 where
  pub parent_hash : Bytes
  pub signature : Bytes
  pub signer : Bytes

-- `Hash.Empty`
abbrev hash_is_empty : Bytes → Bool
hash_is_empty h = same h (replicate 32 0)

module _ (key_string : Bytes → Bytes) where
  -- The loop over the cosignatories: `p` is the payload so far.
  unfoldable pub cosign : Option Bytes → List Account → Bytes → Result Bytes
  cosign hash [] p = ok p
  cosign hash (cos ∷ more) p = do
    h ← deref hash
    sb ← cos.sign h
    cosign hash more (p ++ (key_string cos.public_key ++ hex_encode_string sb))

  unfoldable pub sign_transaction_with_cosignatures :
      Hashes → Transaction → Account → List Account → Result SignedTransaction
  unfolding sign_transaction_with cosign
  sign_transaction_with_cosignatures crypto tx a cosignatories = do
    stx ← sign_transaction_with crypto tx a
    p ← cosign stx.hash cosignatories stx.payload
    pb ← hex_decode_string p
    bytes ← copy_at pb 0 4 (to_le 4 (length pb))
    ok (record {
      entity_type = tx.abstract_transaction.type;
      payload = hex_encode_string bytes;
      hash = stx.hash;
    })

  -- What is signed of the transaction to cosign is the hash in its information.
  unfoldable pub sign_cosignature_transaction :
      Account → Bytes → AbstractTransaction → Result CosignatureSignedTransaction
  unfolding bytes_to_signature same
  sign_cosignature_transaction a public_key tx = elim tx.transaction_info [
    | none ↦ err (new_error "cosignature transaction hash is nil")
    | some info ↦ (do
      hash ← deref info.transaction_hash
      if hash_is_empty hash then err (new_error "cosignature transaction hash is nil") else (do
        sb ← a.sign hash
        signature ← bytes_to_signature sb
        ok (record { parent_hash = hash; signature = signature; signer = public_key })))
  ]

  -- The bytes that the cosignatories add to a payload: their keys with their signatures of the hash, in order.
  pub data AreCosignatures (h : Bytes) : List Account → Bytes → Type 0 where
    nobody : AreCosignatures h [] []
    somebody :
        (cos : Account) (signature : Bytes) {more : List Account} {rest : Bytes}
        → cos.sign h ≡ ok signature
        → are_bytes signature ≡ true
        → hex_decode_string (key_string cos.public_key) ≡ ok cos.public_key
        → AreCosignatures h more rest
        → AreCosignatures h (cos ∷ more) (cos.public_key ++ (signature ++ rest))

  cosign_lem :
      (h : Bytes) (p b : Bytes) {cosignatories : List Account} {extra : Bytes}
      → AreCosignatures h cosignatories extra
      → hex_decode_string p ≡ ok b
      → (p' : Bytes) × (cosign (some h) cosignatories p ≡ ok p')
        × (hex_decode_string p' ≡ ok (b ++ extra))
  unfolding cosign
  cosign_lem h p b nobody d = (p, refl, d ∙ ap ok (sym (append-nil b)))
  cosign_lem h p b (somebody cos signature {more} {rest} s k key others) d =
      let text = p ++ (key_string cos.public_key ++ hex_encode_string signature) in
      let decoded : hex_decode_string text ≡ ok (b ++ (cos.public_key ++ signature)) =
        hex_decode_string-append p _ d (
          hex_decode_string-append (key_string cos.public_key) _ key
            (hex_decode_string-hex_encode_string signature k)) in
      let (p', c, e) = cosign_lem h text (b ++ (cos.public_key ++ signature)) others decoded in
      (
        p',
        rw s c,
        e
            ∙ ap ok (
                append_assoc b (cos.public_key ++ signature) rest
                ∙ ap (λ w. b ++ w) (append_assoc cos.public_key signature rest)),
      )

  -- For a transaction that is signed with a hash and a payload of bytes, and for cosignatories who
  -- sign the hash with bytes and whose keys are read back from their text, the payload is that of the
  -- signed transaction, with the keys and the signatures of the cosignatories behind it and the length
  -- of all of it in front; the hash is the one they have signed.
  pub sign_transaction_with_cosignatures_lem :
      (crypto : Hashes) (tx : Transaction) (a : Account) (cosignatories : List Account)
      (stx : SignedTransaction) (h size rest : Bytes) {extra : Bytes}
      → sign_transaction_with crypto tx a ≡ ok stx
      → stx.hash ≡ some h
      → hex_decode_string stx.payload ≡ ok (size ++ rest)
      → length size ≡ 4
      → are_bytes (rest ++ extra) ≡ true
      → AreCosignatures h cosignatories extra
      → (signed : SignedTransaction) × (sign_transaction_with_cosignatures crypto tx a cosignatories
          ≡ ok signed)
        × (signed.entity_type ≡ tx.abstract_transaction.type)
        × (signed.hash ≡ some h)
        × (hex_decode_string signed.payload
            ≡ ok (to_le 4 (length (size ++ (rest ++ extra))) ++ (rest ++ extra)))
  unfolding sign_transaction_with_cosignatures
  sign_transaction_with_cosignatures_lem crypto tx a cosignatories stx h size rest {extra} s hash d
        l k c =
      let (p, cosigned, decoded) = cosign_lem h stx.payload (size ++ rest) c d in
      let all = size ++ (rest ++ extra) in
      let whole : hex_decode_string p ≡ ok all = decoded ∙ ap ok (append_assoc size rest extra) in
      let n = to_le 4 (length all) in
      let written : copy_at all 0 4 n ≡ ok (n ++ (rest ++ extra)) =
        copy_parts [] size (rest ++ extra) n 0 4 refl (omega (arith, l))
          (length-to_le 4 (length all) ∙ sym l) in
      let bytes : are_bytes (n ++ (rest ++ extra)) ≡ true =
        are_bytes-append n (rest ++ extra) (are_bytes-to_le 4 (length all)) k in
      (
        record {
          entity_type = tx.abstract_transaction.type;
          payload = hex_encode_string (n ++ (rest ++ extra));
          hash = stx.hash;
        },
        rw (s, hash, cosigned, whole, written) refl,
        refl,
        hash,
        hex_decode_string-hex_encode_string (n ++ (rest ++ extra)) bytes,
      )
