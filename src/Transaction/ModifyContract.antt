-- ===== src/Transaction/ModifyContract.antt =====
-- `ModifyContractTransaction` of sdk/transaction_model.go. `HexDecodeStringOdd` of go-xpx-utils is a
-- parameter `hex_decode_string_odd`.
use go_xpx_chain_sdk.Schema.{serialize}
use go_xpx_chain_sdk.Base.{
  Bytes, List, Option, Result, append-nil, arith, err, if◌then◌else◌, length, length-append,
  new_error, none, ok, panic, refl, some, true, ℕ, ◌%◌, ◌*◌, ◌++◌, ◌+◌, ◌<◌, ◌==◌, ◌>>=◌, ◌^◌, ◌≡◌,
}
use go_xpx_chain_sdk.Buffers.{
  transaction_buffer_add_size, transaction_buffer_create_byte_vector,
  transaction_buffer_create_uint32_vector, transaction_buffer_create_uoffset_vector,
}
use go_xpx_chain_sdk.Buffers.Accounts.{
  modify_contract_transaction_buffer_add_customers,
  modify_contract_transaction_buffer_add_duration_delta,
  modify_contract_transaction_buffer_add_executors, modify_contract_transaction_buffer_add_hash,
  modify_contract_transaction_buffer_add_num_customers,
  modify_contract_transaction_buffer_add_num_executors,
  modify_contract_transaction_buffer_add_num_verifiers,
  modify_contract_transaction_buffer_add_verifiers, modify_contract_transaction_buffer_start,
}
use go_xpx_chain_sdk.Schema.Definitions.{modify_contract_transaction_schema}
use go_xpx_chain_sdk.Schema.Format.{Slot, Slots, finished, fits, wire}
use go_xpx_chain_sdk.Transaction.{
  AbstractTransaction, Deadline, build_vectors, following_deadline, new_abstract_transaction, ◌⊳◌,
}
use go_xpx_chain_sdk.Transaction.Entities.{entity_modify_contract, modify_contract_version}
use go_xpx_chain_sdk.Transaction.Header.{Carries, header_bytes, serialized, stored_byte}
use go_xpx_chain_sdk.Transaction.ModifyMultisig.{
  AreKeyed, MultisigCosignatoryModification, cosignatory_bytes,
  cosignatory_modification_array_to_buffer, cosignatory_object, cosignatory_objects_fit,
  cosignatory_vector, cosignatory_vector_lem, length-cosignatories, wire-cosignatory_object,
}
use go_xpx_chain_sdk.Transaction.Parts.{concat_map, wire_objects-map}
use go_xpx_chain_sdk.Transaction.Sizes.{hash256, key_size, modify_contract_header_size}
use go_xpx_chain_sdk.Uint64.{to_little_endian, uint64_to_array}
use go_xpx_chain_sdk.Uint64.Halves.{halves-to_le, length-to_little_endian}
use go_xpx_chain_sdk.Word.{length-to_le, to_le}

-- The hash is a pointer, and may be nil.
pub record ModifyContractTransaction : Type 0 where
  pub abstract_transaction : AbstractTransaction
  pub duration_delta : ℕ
  pub hash : Option Bytes
  pub customers : List MultisigCosignatoryModification
  pub executors : List MultisigCosignatoryModification
  pub verifiers : List MultisigCosignatoryModification

pub new_modify_contract_transaction :
    Option Deadline
    → ℕ
    → Option Bytes
    → List MultisigCosignatoryModification
    → List MultisigCosignatoryModification
    → List MultisigCosignatoryModification
    → ℕ
    → Result ModifyContractTransaction
new_modify_contract_transaction deadline duration_delta hash customers executors verifiers
      network_type =
    if length customers == 0
    then err (new_error "customers must not empty")
    else if length executors == 0
    then err (new_error "executors must not empty")
    else if length verifiers == 0
    then err (new_error "verifiers must not empty")
    else ok (record {
      abstract_transaction =
          new_abstract_transaction deadline entity_modify_contract modify_contract_version
            network_type;
      duration_delta = duration_delta;
      hash = hash;
      customers = customers;
      executors = executors;
      verifiers = verifiers;
    })

unfoldable pub size : ModifyContractTransaction → ℕ
size tx =
    modify_contract_header_size
    + (key_size + 1) * (length tx.customers + length tx.executors + length tx.verifiers)

-- `hash[:]` of a nil pointer panics.
pub hash_to_buffer : Option Bytes → Result Slot
hash_to_buffer none = panic
hash_to_buffer (some hash) = ok (transaction_buffer_create_byte_vector hash)

-- The object that `generateBytes` has the builder make, from the vectors of the hash and of the three
-- lists of modifications.
unfoldable pub object : ModifyContractTransaction → Slot → Slot → Slot → Slot → Slots
unfolding size transaction_buffer_create_uint32_vector modify_contract_transaction_buffer_start
    transaction_buffer_add_size build_vectors modify_contract_transaction_buffer_add_duration_delta
    modify_contract_transaction_buffer_add_hash modify_contract_transaction_buffer_add_num_customers
    modify_contract_transaction_buffer_add_num_executors
    modify_contract_transaction_buffer_add_num_verifiers
    modify_contract_transaction_buffer_add_customers
    modify_contract_transaction_buffer_add_executors
    modify_contract_transaction_buffer_add_verifiers
object tx hash customers executors verifiers =
    modify_contract_transaction_buffer_start
    ⊳ transaction_buffer_add_size (size tx)
    ⊳ build_vectors tx.abstract_transaction
    ⊳ modify_contract_transaction_buffer_add_duration_delta
        (transaction_buffer_create_uint32_vector (uint64_to_array tx.duration_delta))
    ⊳ modify_contract_transaction_buffer_add_hash hash
    ⊳ modify_contract_transaction_buffer_add_num_customers (length tx.customers % 256)
    ⊳ modify_contract_transaction_buffer_add_num_executors (length tx.executors % 256)
    ⊳ modify_contract_transaction_buffer_add_num_verifiers (length tx.verifiers % 256)
    ⊳ modify_contract_transaction_buffer_add_customers customers
    ⊳ modify_contract_transaction_buffer_add_executors executors
    ⊳ modify_contract_transaction_buffer_add_verifiers verifiers

pub generate_bytes :
    (Bytes → Result Bytes) → (Slots → Bytes) → ModifyContractTransaction → Result Bytes
generate_bytes hex_decode_string_odd finished_bytes tx =
    following_deadline tx.abstract_transaction (do
      h ← hash_to_buffer tx.hash
      customers ← cosignatory_modification_array_to_buffer hex_decode_string_odd tx.customers
      executors ← cosignatory_modification_array_to_buffer hex_decode_string_odd tx.executors
      verifiers ← cosignatory_modification_array_to_buffer hex_decode_string_odd tx.verifiers
      serialize modify_contract_transaction_schema
          (finished_bytes (object tx h customers executors verifiers)))

-- What follows the header in the layout of the protocol, from the hash and the types and keys of
-- the three lists.
unfoldable pub body :
    ModifyContractTransaction
    → Bytes
    → List (ℕ × Bytes)
    → List (ℕ × Bytes)
    → List (ℕ × Bytes)
    → Bytes
body tx hash cs es vs =
    to_little_endian tx.duration_delta
    ++ (hash
        ++ (to_le 1 (length tx.customers)
            ++ (to_le 1 (length tx.executors)
                ++ (to_le 1 (length tx.verifiers)
                    ++ (concat_map cosignatory_bytes cs
                        ++ (concat_map cosignatory_bytes es ++ concat_map cosignatory_bytes vs))))))

-- The object for a hash and for the types and keys of the three lists.
unfoldable pub keyed_object :
    ModifyContractTransaction
    → Bytes
    → List (ℕ × Bytes)
    → List (ℕ × Bytes)
    → List (ℕ × Bytes)
    → Slots
unfolding transaction_buffer_create_byte_vector
keyed_object tx hash cs es vs =
    object tx (transaction_buffer_create_byte_vector hash) (cosignatory_vector cs)
      (cosignatory_vector es) (cosignatory_vector vs)

-- On the flatbuffer that holds its object, with the type and the version of its kind, a network of one
-- byte and a deadline, a contract with a hash of 32 bytes, whose three lists have fewer than 256
-- modifications each and keys that decode to keys of 32 bytes, is serialised to its bytes in the order
-- of the protocol, and they are as many as `Size` says.
pub modify_contract-wire :
    (hex_decode_string_odd : Bytes → Result Bytes) (finished_bytes : Slots → Bytes)
    (tx : ModifyContractTransaction) (hash : Bytes) (cs es vs : List (ℕ × Bytes))
    → Carries entity_modify_contract modify_contract_version tx.abstract_transaction
    → tx.hash ≡ some hash
    → length hash ≡ hash256
    → AreKeyed hex_decode_string_odd tx.customers cs
    → AreKeyed hex_decode_string_odd tx.executors es
    → AreKeyed hex_decode_string_odd tx.verifiers vs
    → (length tx.customers < 2 ^ 8) × (length tx.executors < 2 ^ 8) × (length tx.verifiers < 2 ^ 8)
    → finished (finished_bytes (keyed_object tx hash cs es vs)) (keyed_object tx hash cs es vs)
      ≡ true
    → (generate_bytes hex_decode_string_odd finished_bytes tx
        ≡ ok (header_bytes (size tx) tx.abstract_transaction ++ body tx hash cs es vs))
      × (length (header_bytes (size tx) tx.abstract_transaction ++ body tx hash cs es vs) ≡ size tx)
unfolding generate_bytes hash_to_buffer cosignatory_vector object keyed_object body fits
    modify_contract_transaction_schema wire size transaction_buffer_create_uoffset_vector
modify_contract-wire hex_decode_string_odd finished_bytes tx hash cs es vs c e32 l kc ke kv few h =
    let (fc, fe, fv) = few in
    let sc : length tx.customers % 256 ≡ length tx.customers = omega arith in
    let se : length tx.executors % 256 ≡ length tx.executors = omega arith in
    let sv : length tx.verifiers % 256 ≡ length tx.verifiers = omega arith in
    rw
      (
        e32,
        cosignatory_vector_lem hex_decode_string_odd kc,
        cosignatory_vector_lem hex_decode_string_odd ke,
        cosignatory_vector_lem hex_decode_string_odd kv,
      )
      (serialized modify_contract_transaction_schema (size tx) entity_modify_contract
        modify_contract_version (size tx) tx.abstract_transaction (keyed_object tx hash cs es vs)
        (body tx hash cs es vs) (finished_bytes (keyed_object tx hash cs es vs)) (omega arith) c h
        refl
        (rw (cosignatory_objects_fit cs, cosignatory_objects_fit es, cosignatory_objects_fit vs))
        (simp (
          sc,
          se,
          sv,
          stored_byte,
          halves-to_le,
          wire_objects-map cosignatory_object cosignatory_bytes wire-cosignatory_object,
          append-nil,
        ))
        (simp
          (
            length-append,
            length-to_le,
            length-to_little_endian,
            l,
            length-cosignatories hex_decode_string_odd kc,
            length-cosignatories hex_decode_string_odd ke,
            length-cosignatories hex_decode_string_odd kv,
          )
          (omega arith)))
