-- ===== src/Transaction/RegisterNamespace.antt =====
-- `RegisterNamespaceTransaction` of sdk/transaction_model.go.
use go_xpx_chain_sdk.Schema.{serialize}
use go_xpx_chain_sdk.Schema.Format.{vector, Slot, Slots, finished, fits, wire}
use go_xpx_chain_sdk.Base.{
  Bytes, Option, Result, append-nil, arith, err, err_invalid_namespace_name, err_nil_namespace_id,
  false, if◌then◌else◌, length, length-append, length_nonzero, none, ok, panic, refl, some, true, ℕ,
  ◌%◌, ◌++◌, ◌+◌, ◌<◌, ◌==◌, ◌>>=◌, ◌∙◌, ◌∷◌, ◌≡◌, ◌≢◌, ◌≤◌,
}
use go_xpx_chain_sdk.Asset.{NamespaceId}
use go_xpx_chain_sdk.Buffers.{transaction_buffer_add_size, transaction_buffer_create_uint32_vector}
use go_xpx_chain_sdk.Buffers.Namespaces.{
  register_namespace_transaction_buffer_add_duration_parent_id,
  register_namespace_transaction_buffer_add_namespace_id,
  register_namespace_transaction_buffer_add_namespace_name,
  register_namespace_transaction_buffer_add_namespace_name_size,
  register_namespace_transaction_buffer_add_namespace_type,
  register_namespace_transaction_buffer_start,
}
use go_xpx_chain_sdk.Namespace.{
  generate_namespace_id, new_namespace_id_from_name, split, valid_namespace,
}
use go_xpx_chain_sdk.Namespace.Parts.{valid_nonempty}
use go_xpx_chain_sdk.Namespace.Paths.{generate_namespace_id_total, new_namespace_id_from_name-dot}
use go_xpx_chain_sdk.Schema.Definitions.{register_namespace_transaction_schema}
use go_xpx_chain_sdk.Transaction.{
  AbstractTransaction, Deadline, build_vectors, following_deadline, new_abstract_transaction, ◌⊳◌,
}
use go_xpx_chain_sdk.Transaction.Entities.{entity_register_namespace, register_namespace_version}
use go_xpx_chain_sdk.Transaction.Header.{Carries, header_bytes, serialized, stored_byte}
use go_xpx_chain_sdk.Transaction.Sizes.{register_namespace_header_size}
use go_xpx_chain_sdk.Uint64.{to_little_endian, uint64_to_array}
use go_xpx_chain_sdk.Uint64.Halves.{halves-to_le, length-to_little_endian}
use go_xpx_chain_sdk.Word.{length-to_le, to_le}

abbrev pub root : ℕ
root = 0

abbrev pub sub : ℕ
sub = 1

pub record RegisterNamespaceTransaction : Type 0 where
  pub abstract_transaction : AbstractTransaction
  pub namespace_id : NamespaceId
  pub namespace_type : ℕ
  pub namespace_name : Bytes
  pub duration : ℕ
  pub parent_id : Option NamespaceId

-- The literal that both constructors return.
registration :
    Option Deadline
    → ℕ
    → NamespaceId
    → ℕ
    → Bytes
    → ℕ
    → Option NamespaceId
    → RegisterNamespaceTransaction
registration deadline network_type namespace_id namespace_type name duration parent = record {
  abstract_transaction =
      new_abstract_transaction deadline entity_register_namespace register_namespace_version
        network_type;
  namespace_id = namespace_id;
  namespace_type = namespace_type;
  namespace_name = name;
  duration = duration;
  parent_id = parent;
}

pub new_register_root_namespace_transaction :
    (Bytes → Bytes) → Option Deadline → Bytes → ℕ → ℕ → Result RegisterNamespaceTransaction
unfolding registration
new_register_root_namespace_transaction sha3 deadline name duration network_type =
    if length name == 0 then err err_invalid_namespace_name else (do
      ns_id ← new_namespace_id_from_name sha3 name
      ok (registration deadline network_type ns_id root name duration none))

pub new_register_sub_namespace_transaction :
    (Bytes → Bytes)
    → Option Deadline
    → Bytes
    → Option NamespaceId
    → ℕ
    → Result RegisterNamespaceTransaction
unfolding registration
new_register_sub_namespace_transaction sha3 deadline name none network_type =
    if length name == 0 then err err_invalid_namespace_name else err err_nil_namespace_id
new_register_sub_namespace_transaction sha3 deadline name (some parent) network_type =
    if length name == 0
    then err err_invalid_namespace_name
    else if parent.base_int64 == 0
    then err err_nil_namespace_id
    else (do
      ns_id ← generate_namespace_id sha3 name parent.base_int64
      ok (registration deadline network_type ns_id sub name 0 (some parent)))

unfoldable pub size : RegisterNamespaceTransaction → ℕ
size tx = register_namespace_header_size + length tx.namespace_name

-- What the field for a duration or a parent holds; the parent is a pointer, and may be nil.
unfoldable pub duration_parent_id : RegisterNamespaceTransaction → Result ℕ
duration_parent_id tx = if tx.namespace_type == root then ok tx.duration else id_of tx.parent_id
  where
    id_of : Option NamespaceId → Result ℕ
    id_of none = panic
    id_of (some parent) = ok parent.base_int64

-- `builder.CreateString`
unfoldable pub create_string : Bytes → Slot
create_string text = vector 1 text

-- The object that `generateBytes` has the builder make.
unfoldable pub object : RegisterNamespaceTransaction → ℕ → Slots
unfolding size create_string transaction_buffer_create_uint32_vector
    register_namespace_transaction_buffer_start transaction_buffer_add_size build_vectors
    register_namespace_transaction_buffer_add_namespace_type
    register_namespace_transaction_buffer_add_duration_parent_id
    register_namespace_transaction_buffer_add_namespace_id
    register_namespace_transaction_buffer_add_namespace_name_size
    register_namespace_transaction_buffer_add_namespace_name
object tx field =
    let n = transaction_buffer_create_uint32_vector (uint64_to_array tx.namespace_id.base_int64) in
    let d = transaction_buffer_create_uint32_vector (uint64_to_array field) in
    register_namespace_transaction_buffer_start
    ⊳ transaction_buffer_add_size (size tx)
    ⊳ build_vectors tx.abstract_transaction
    ⊳ register_namespace_transaction_buffer_add_namespace_type tx.namespace_type
    ⊳ register_namespace_transaction_buffer_add_duration_parent_id d
    ⊳ register_namespace_transaction_buffer_add_namespace_id n
    ⊳ register_namespace_transaction_buffer_add_namespace_name_size (length tx.namespace_name % 256)
    ⊳ register_namespace_transaction_buffer_add_namespace_name (create_string tx.namespace_name)

pub generate_bytes : (Slots → Bytes) → RegisterNamespaceTransaction → Result Bytes
generate_bytes finished_bytes tx = do
  field ← duration_parent_id tx
  following_deadline tx.abstract_transaction
      (serialize register_namespace_transaction_schema (finished_bytes (object tx field)))

-- What the field behind the type is by the protocol: the duration of a root, whose type is 0, and the
-- parent of any other registration.
pub data IsDurationOrParent (tx : RegisterNamespaceTransaction) : ℕ → Type 0 where
  of_root : tx.namespace_type ≡ 0 → IsDurationOrParent tx tx.duration
  of_parent :
      {parent : NamespaceId}
      → tx.namespace_type ≢ 0
      → tx.parent_id ≡ some parent
      → IsDurationOrParent tx parent.base_int64

duration_parent_id_lem :
    (tx : RegisterNamespaceTransaction) {field : ℕ}
    → IsDurationOrParent tx field
    → duration_parent_id tx ≡ ok field
unfolding duration_parent_id
duration_parent_id_lem tx (of_root t) = rw t refl
duration_parent_id_lem tx (of_parent t p) =
    let apart : (tx.namespace_type == 0) ≡ false = ground arith in rw (apart, p) refl

-- What follows the header in the layout of the protocol.
unfoldable pub body : RegisterNamespaceTransaction → ℕ → Bytes
body tx field =
    to_le 1 tx.namespace_type
    ++ (to_little_endian field
        ++ (to_little_endian tx.namespace_id.base_int64
            ++ (to_le 1 (length tx.namespace_name) ++ tx.namespace_name)))

-- On the flatbuffer that holds its object, with the type and the version of its kind, a network of one
-- byte and a deadline, a registration with a name of less than 256 bytes, and with a parent unless it
-- is a root, is serialised to its bytes in the order of the protocol, and they are as many as `Size`
-- says. Behind the type stands the duration of a root, and otherwise the identifier of the parent.
pub register_namespace-wire :
    (finished_bytes : Slots → Bytes) (tx : RegisterNamespaceTransaction) (field : ℕ)
    → Carries entity_register_namespace register_namespace_version tx.abstract_transaction
    → IsDurationOrParent tx field
    → length tx.namespace_name < 256
    → finished (finished_bytes (object tx field)) (object tx field) ≡ true
    → (generate_bytes finished_bytes tx
        ≡ ok (header_bytes (size tx) tx.abstract_transaction ++ body tx field))
      × (length (header_bytes (size tx) tx.abstract_transaction ++ body tx field) ≡ size tx)
unfolding generate_bytes object body fits register_namespace_transaction_schema wire size
register_namespace-wire finished_bytes tx field c d m h =
    let fits_size : length tx.namespace_name % 256 ≡ length tx.namespace_name = omega arith in
    rw (duration_parent_id_lem tx d) (
      serialized register_namespace_transaction_schema (size tx) entity_register_namespace
        register_namespace_version (size tx) tx.abstract_transaction (object tx field)
        (body tx field) (finished_bytes (object tx field)) (omega arith) c h refl refl
        (simp (stored_byte, halves-to_le, fits_size, append-nil))
        (simp (length-append, length-to_le, length-to_little_endian) (omega arith)))

-- A name that is a valid namespace name is registered below a parent whose own name has an identifier,
-- other than 0, and at most two parts, where the digest has 32 bytes. Then the registration has that
-- parent, and the identifier that a resolver of the full name computes.
pub registered_identifier :
    (sha3 : Bytes → Bytes)
    → ((b : Bytes) → length (sha3 b) ≡ 32)
    → (deadline : Option Deadline) (parent name : Bytes) (p : NamespaceId) (network_type : ℕ)
    → new_namespace_id_from_name sha3 parent ≡ ok p
    → p.base_int64 ≢ 0
    → length (split parent) ≤ 2
    → valid_namespace name ≡ true
    → (tx : RegisterNamespaceTransaction) × (new_register_sub_namespace_transaction sha3 deadline
          name
          (some p)
          network_type
        ≡ ok tx)
      × (new_namespace_id_from_name sha3 (parent ++ (b'.' ∷ name)) ≡ ok tx.namespace_id)
      × (tx.parent_id ≡ some p)
unfolding new_register_sub_namespace_transaction registration
registered_identifier sha3 digest deadline parent name p network_type h nonzero two v =
    let (n, e, bit) = generate_namespace_id_total sha3 digest name p.base_int64 in
    let nested = new_namespace_id_from_name-dot sha3 digest parent name h two v in
    let named = length_nonzero name (valid_nonempty name v) in
    (
      registration deadline network_type n sub name 0 (some p),
      register (length name) p.base_int64 _ named nonzero ∙ rw e refl,
      nested ∙ e,
      refl,
    )
  where
    register :
        (l i : ℕ) (r : Result RegisterNamespaceTransaction)
        → l ≢ 0
        → i ≢ 0
        → (if l == 0
            then err err_invalid_namespace_name
            else if i == 0
            then err err_nil_namespace_id
            else r)
          ≡ r
    register l i r a b = ground arith
