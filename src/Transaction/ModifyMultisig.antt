-- ===== src/Transaction/ModifyMultisig.antt =====
-- `ModifyMultisigAccountTransaction` and `MultisigCosignatoryModification` of
-- sdk/transaction_model.go. `HexDecodeStringOdd` of go-xpx-utils is a parameter
-- `hex_decode_string_odd`; the deltas are the 8-bit patterns of the `int8` values.
use go_xpx_chain_sdk.Schema.{
  serialize, array_attribute, attribute, byte_size, no_attribute, scalar_attribute,
}
use go_xpx_chain_sdk.Base.{
  Bytes, List, Option, Result, [], append-nil, arith, err, if◌then◌else◌, length, length-append,
  map, new_error, ok, refl, true, ℕ, ◌%◌, ◌&&◌, ◌*◌, ◌++◌, ◌+◌, ◌<◌, ◌==◌, ◌>>=◌, ◌^◌, ◌∷◌, ◌≡◌,
}
use go_xpx_chain_sdk.Buffers.{
  to_objects, transaction_buffer_add_size, transaction_buffer_create_byte_vector,
  transaction_buffer_create_uoffset_vector,
}
use go_xpx_chain_sdk.Buffers.Accounts.{
  cosignatory_modification_buffer_add_cosignatory_public_key,
  cosignatory_modification_buffer_add_type, cosignatory_modification_buffer_start,
  modify_multisig_account_transaction_buffer_add_min_approval_delta,
  modify_multisig_account_transaction_buffer_add_min_removal_delta,
  modify_multisig_account_transaction_buffer_add_modifications,
  modify_multisig_account_transaction_buffer_add_num_modifications,
  modify_multisig_account_transaction_buffer_start,
}
use go_xpx_chain_sdk.Schema.Definitions.{modify_multisig_account_transaction_schema}
use go_xpx_chain_sdk.Schema.Format.{Slot, Slots, finished, fits, objects_fit, wire}
use go_xpx_chain_sdk.Transaction.{
  AbstractTransaction, Deadline, PublicAccount, build_vectors, following_deadline,
  new_abstract_transaction, ◌⊳◌,
}
use go_xpx_chain_sdk.Transaction.Entities.{entity_modify_multisig, modify_multisig_version}
use go_xpx_chain_sdk.Transaction.Header.{Carries, header_bytes, serialized, stored_byte}
use go_xpx_chain_sdk.Transaction.Parts.{concat_map, objects_fit-map, wire_objects-map}
use go_xpx_chain_sdk.Transaction.Sizes.{key_size, modify_multisig_header_size}
use go_xpx_chain_sdk.Word.{length-to_le, to_le}

pub record MultisigCosignatoryModification : Type 0 where
  pub type : ℕ
  pub public_account : PublicAccount

pub record ModifyMultisigAccountTransaction : Type 0 where
  pub abstract_transaction : AbstractTransaction
  pub min_approval_delta : ℕ
  pub min_removal_delta : ℕ
  pub modifications : List MultisigCosignatoryModification

pub new_modify_multisig_account_transaction :
    Option Deadline
    → ℕ
    → ℕ
    → List MultisigCosignatoryModification
    → ℕ
    → Result ModifyMultisigAccountTransaction
new_modify_multisig_account_transaction deadline min_approval_delta min_removal_delta modifications
      network_type =
    if length modifications == 0 && (min_approval_delta == 0 && min_removal_delta == 0)
    then err (new_error "modifications must not empty")
    else ok (record {
      abstract_transaction =
          new_abstract_transaction deadline entity_modify_multisig modify_multisig_version
            network_type;
      min_approval_delta = min_approval_delta;
      min_removal_delta = min_removal_delta;
      modifications = modifications;
    })

unfoldable pub size : ModifyMultisigAccountTransaction → ℕ
size tx = modify_multisig_header_size + (key_size + 1) * length tx.modifications

-- One object of `cosignatoryModificationArrayToBuffer`, from the type and the decoded key.
unfoldable pub cosignatory_object : ℕ × Bytes → Slots
unfolding transaction_buffer_create_byte_vector cosignatory_modification_buffer_start
    cosignatory_modification_buffer_add_type
    cosignatory_modification_buffer_add_cosignatory_public_key
cosignatory_object (type, b) =
    cosignatory_modification_buffer_start
    ⊳ cosignatory_modification_buffer_add_type type
    ⊳ cosignatory_modification_buffer_add_cosignatory_public_key
        (transaction_buffer_create_byte_vector b)

cosignatory_objects :
    (Bytes → Result Bytes) → List MultisigCosignatoryModification → Result (List Slots)
cosignatory_objects hex_decode_string_odd [] = ok []
cosignatory_objects hex_decode_string_odd (m ∷ ms) = do
  b ← hex_decode_string_odd m.public_account.public_key
  rest ← cosignatory_objects hex_decode_string_odd ms
  ok (cosignatory_object (m.type, b) ∷ rest)

pub cosignatory_modification_array_to_buffer :
    (Bytes → Result Bytes) → List MultisigCosignatoryModification → Result Slot
cosignatory_modification_array_to_buffer hex_decode_string_odd modifications = do
  msb ← cosignatory_objects hex_decode_string_odd modifications
  ok (transaction_buffer_create_uoffset_vector msb)

-- The object that `generateBytes` has the builder make, from the vector of modifications.
unfoldable pub object : ModifyMultisigAccountTransaction → Slot → Slots
unfolding size modify_multisig_account_transaction_buffer_start transaction_buffer_add_size
    build_vectors modify_multisig_account_transaction_buffer_add_min_removal_delta
    modify_multisig_account_transaction_buffer_add_min_approval_delta
    modify_multisig_account_transaction_buffer_add_num_modifications
    modify_multisig_account_transaction_buffer_add_modifications
object tx m =
    modify_multisig_account_transaction_buffer_start
    ⊳ transaction_buffer_add_size (size tx)
    ⊳ build_vectors tx.abstract_transaction
    ⊳ modify_multisig_account_transaction_buffer_add_min_removal_delta tx.min_removal_delta
    ⊳ modify_multisig_account_transaction_buffer_add_min_approval_delta tx.min_approval_delta
    ⊳ modify_multisig_account_transaction_buffer_add_num_modifications
        (length tx.modifications % 256)
    ⊳ modify_multisig_account_transaction_buffer_add_modifications m

pub generate_bytes :
    (Bytes → Result Bytes) → (Slots → Bytes) → ModifyMultisigAccountTransaction → Result Bytes
generate_bytes hex_decode_string_odd finished_bytes tx = do
  m ← cosignatory_modification_array_to_buffer hex_decode_string_odd tx.modifications
  following_deadline tx.abstract_transaction
      (serialize modify_multisig_account_transaction_schema (finished_bytes (object tx m)))

-- The keys of the modifications decode to keys, beside which stand the types.
pub data AreKeyed (hex_decode_string_odd : Bytes → Result Bytes)
    : List MultisigCosignatoryModification → List (ℕ × Bytes) → Type 0 where
  no_key : AreKeyed hex_decode_string_odd [] []
  one_key :
      {m : MultisigCosignatoryModification} {ms : List MultisigCosignatoryModification} {b : Bytes}
      {cs : List (ℕ × Bytes)}
      → hex_decode_string_odd m.public_account.public_key ≡ ok b
      → length b ≡ key_size
      → AreKeyed hex_decode_string_odd ms cs
      → AreKeyed hex_decode_string_odd (m ∷ ms) ((m.type, b) ∷ cs)

unfoldable pub cosignatory_bytes : ℕ × Bytes → Bytes
cosignatory_bytes (type, b) = to_le 1 type ++ b

-- What follows the header in the layout of the protocol.
unfoldable pub body : ModifyMultisigAccountTransaction → List (ℕ × Bytes) → Bytes
body tx cs =
    to_le 1 tx.min_removal_delta
    ++ (to_le 1 tx.min_approval_delta
        ++ (to_le 1 (length tx.modifications) ++ concat_map cosignatory_bytes cs))

cosignatory_object-fits :
    (c : ℕ × Bytes)
    → fits (cosignatory_object c) (
        attribute
          (scalar_attribute "type" byte_size)
          (attribute (array_attribute "cosignatoryPublicKey" byte_size) no_attribute))
      ≡ true
unfolding cosignatory_object fits
cosignatory_object-fits (type, b) = refl

pub wire-cosignatory_object : (c : ℕ × Bytes) → wire (cosignatory_object c) ≡ cosignatory_bytes c
unfolding cosignatory_object cosignatory_bytes wire
wire-cosignatory_object (type, b) = simp (stored_byte, append-nil)

module _ (hex_decode_string_odd : Bytes → Result Bytes) where
  cosignatory_objects_lem :
      {ms : List MultisigCosignatoryModification} {cs : List (ℕ × Bytes)}
      → AreKeyed hex_decode_string_odd ms cs
      → cosignatory_objects hex_decode_string_odd ms ≡ ok (map cosignatory_object cs)
  unfolding cosignatory_objects
  cosignatory_objects_lem no_key = refl
  cosignatory_objects_lem (one_key d l keyed) = rw (d, cosignatory_objects_lem keyed)

  pub length-cosignatories :
      {ms : List MultisigCosignatoryModification} {cs : List (ℕ × Bytes)}
      → AreKeyed hex_decode_string_odd ms cs
      → length (concat_map cosignatory_bytes cs) ≡ 33 * length ms
  unfolding concat_map cosignatory_bytes
  length-cosignatories no_key = refl
  length-cosignatories (one_key d l keyed) =
      simp (length-append, length-to_le, l, length-cosignatories keyed) (omega arith)

-- The vector of modifications with these types and keys.
unfoldable pub cosignatory_vector : List (ℕ × Bytes) → Slot
unfolding transaction_buffer_create_uoffset_vector
cosignatory_vector cs = transaction_buffer_create_uoffset_vector (map cosignatory_object cs)

pub cosignatory_objects_fit :
    (cs : List (ℕ × Bytes))
    → objects_fit (to_objects (map cosignatory_object cs)) (
        attribute
          (scalar_attribute "type" byte_size)
          (attribute (array_attribute "cosignatoryPublicKey" byte_size) no_attribute))
      ≡ true
cosignatory_objects_fit = objects_fit-map cosignatory_object _ cosignatory_object-fits

pub cosignatory_vector_lem :
    (hex_decode_string_odd : Bytes → Result Bytes) {ms : List MultisigCosignatoryModification}
    {cs : List (ℕ × Bytes)}
    → AreKeyed hex_decode_string_odd ms cs
    → cosignatory_modification_array_to_buffer hex_decode_string_odd ms ≡ ok (cosignatory_vector cs)
unfolding cosignatory_modification_array_to_buffer cosignatory_vector
cosignatory_vector_lem hex_decode_string_odd keyed =
    rw (cosignatory_objects_lem hex_decode_string_odd keyed)

-- On the flatbuffer that holds its object, with the type and the version of its kind, a network of one
-- byte and a deadline, a multisig change of fewer than 256 modifications, whose keys decode to keys of
-- 32 bytes, is serialised to its bytes in the order of the protocol: the deltas, the count, and each
-- type with its key. They are as many as `Size` says.
pub modify_multisig-wire :
    (hex_decode_string_odd : Bytes → Result Bytes) (finished_bytes : Slots → Bytes)
    (tx : ModifyMultisigAccountTransaction) (cs : List (ℕ × Bytes))
    → Carries entity_modify_multisig modify_multisig_version tx.abstract_transaction
    → AreKeyed hex_decode_string_odd tx.modifications cs
    → length tx.modifications < 2 ^ 8
    → finished
        (finished_bytes (object tx (cosignatory_vector cs)))
        (object tx (cosignatory_vector cs))
      ≡ true
    → (generate_bytes hex_decode_string_odd finished_bytes tx
        ≡ ok (header_bytes (size tx) tx.abstract_transaction ++ body tx cs))
      × (length (header_bytes (size tx) tx.abstract_transaction ++ body tx cs) ≡ size tx)
unfolding generate_bytes cosignatory_modification_array_to_buffer cosignatory_vector object body
    fits modify_multisig_account_transaction_schema wire size
    transaction_buffer_create_uoffset_vector
modify_multisig-wire hex_decode_string_odd finished_bytes tx cs c keyed few h =
    let small : length tx.modifications % 256 ≡ length tx.modifications = omega arith in
    rw (cosignatory_objects_lem hex_decode_string_odd keyed) (
      serialized modify_multisig_account_transaction_schema (size tx) entity_modify_multisig
        modify_multisig_version (size tx) tx.abstract_transaction
        (object tx (cosignatory_vector cs)) (body tx cs)
        (finished_bytes (object tx (cosignatory_vector cs))) (omega arith) c h refl
        (rw (cosignatory_objects_fit cs))
        (simp (
          small,
          stored_byte,
          wire_objects-map cosignatory_object cosignatory_bytes wire-cosignatory_object,
          append-nil,
        ))
        (simp (length-append, length-to_le, length-cosignatories hex_decode_string_odd keyed)
          (omega arith)))
