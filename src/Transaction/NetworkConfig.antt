-- ===== src/Transaction/NetworkConfig.antt =====
-- `NetworkConfigTransaction` of sdk/transaction_model.go. Its printed configuration is that of Network;
-- jsoniter is the parameter `json_marshal_indent`.
use go_xpx_chain_sdk.Schema.{serialize}
use go_xpx_chain_sdk.Base.{
  Bytes, List, Option, Result, append-nil, arith, err, length, length-append, new_error, none, ok,
  panic, refl, some, true, ℕ, ◌%◌, ◌++◌, ◌+◌, ◌<◌, ◌>>=◌, ◌^◌, ◌≡◌,
}
use go_xpx_chain_sdk.Buffers.{
  transaction_buffer_add_size, transaction_buffer_create_byte_vector,
  transaction_buffer_create_uint32_vector,
}
use go_xpx_chain_sdk.Buffers.Chain.{
  network_config_transaction_buffer_add_apply_height_delta,
  network_config_transaction_buffer_add_network_config,
  network_config_transaction_buffer_add_network_config_size,
  network_config_transaction_buffer_add_supported_entity_versions,
  network_config_transaction_buffer_add_supported_entity_versions_size,
  network_config_transaction_buffer_start,
}
use go_xpx_chain_sdk.Network.{NetworkConfig, marshal_binary}
use go_xpx_chain_sdk.Network.Entities.{EntityDto, SupportedEntities, entities_marshal_binary}
use go_xpx_chain_sdk.Schema.Definitions.{network_config_transaction_schema}
use go_xpx_chain_sdk.Schema.Format.{Slots, finished, fits, wire}
use go_xpx_chain_sdk.Transaction.{
  AbstractTransaction, Deadline, build_vectors, following_deadline, new_abstract_transaction, ◌⊳◌,
}
use go_xpx_chain_sdk.Transaction.Entities.{entity_network_config, network_config_version}
use go_xpx_chain_sdk.Transaction.Header.{Carries, header_bytes, serialized, stored}
use go_xpx_chain_sdk.Transaction.Sizes.{network_config_header_size}
use go_xpx_chain_sdk.Uint64.{to_little_endian, uint64_to_array}
use go_xpx_chain_sdk.Uint64.Halves.{halves-to_le, length-to_little_endian}
use go_xpx_chain_sdk.Word.{length-to_le, to_le}

pub record NetworkConfigTransaction : Type 0 where
  pub abstract_transaction : AbstractTransaction
  pub apply_height_delta : ℕ
  pub network_config : NetworkConfig
  pub supported_entities : SupportedEntities

pub new_network_config_transaction :
    Option Deadline
    → ℕ
    → Option NetworkConfig
    → Option SupportedEntities
    → ℕ
    → Result NetworkConfigTransaction
new_network_config_transaction deadline delta config none network_type =
    err (new_error "Entities should not be nil")
new_network_config_transaction deadline delta none (some entities) network_type =
    err (new_error "NetworkConfig should not be nil")
new_network_config_transaction deadline delta (some config) (some entities) network_type =
    ok (record {
      abstract_transaction =
          new_abstract_transaction deadline entity_network_config network_config_version
            network_type;
      apply_height_delta = delta;
      network_config = config;
      supported_entities = entities;
    })

-- The object that `generateBytes` has the builder make, from its size and the two texts.
unfoldable pub object : NetworkConfigTransaction → ℕ → Bytes → Bytes → Slots
unfolding transaction_buffer_create_byte_vector transaction_buffer_create_uint32_vector
    network_config_transaction_buffer_start transaction_buffer_add_size build_vectors
    network_config_transaction_buffer_add_apply_height_delta
    network_config_transaction_buffer_add_network_config_size
    network_config_transaction_buffer_add_network_config
    network_config_transaction_buffer_add_supported_entity_versions_size
    network_config_transaction_buffer_add_supported_entity_versions
object tx total config sup =
    network_config_transaction_buffer_start
    ⊳ transaction_buffer_add_size total
    ⊳ build_vectors tx.abstract_transaction
    ⊳ network_config_transaction_buffer_add_apply_height_delta
        (transaction_buffer_create_uint32_vector (uint64_to_array tx.apply_height_delta))
    ⊳ network_config_transaction_buffer_add_network_config_size (length config % 2 ^ 16)
    ⊳ network_config_transaction_buffer_add_network_config
        (transaction_buffer_create_byte_vector config)
    ⊳ network_config_transaction_buffer_add_supported_entity_versions_size (length sup % 2 ^ 16)
    ⊳ network_config_transaction_buffer_add_supported_entity_versions
        (transaction_buffer_create_byte_vector sup)

-- `if err != nil { panic(err) }`
abbrev or_panic : Result Bytes → Result Bytes
or_panic (ok text) = ok text
or_panic (err e) = panic
or_panic panic = panic

module _ (json_marshal_indent : List EntityDto → Result Bytes) where
  -- `SupportedEntities.String` panics where the entities cannot be printed.
  unfoldable pub entities_string : SupportedEntities → Result Bytes
  entities_string s = or_panic (entities_marshal_binary json_marshal_indent s)

  unfoldable pub size : NetworkConfigTransaction → Result ℕ
  unfolding entities_string
  size tx = do
    sup ← entities_string tx.supported_entities
    ok (network_config_header_size + length (marshal_binary tx.network_config) + length sup)

  pub generate_bytes : (Slots → Bytes) → NetworkConfigTransaction → Result Bytes
  unfolding size
  generate_bytes finished_bytes tx = following_deadline tx.abstract_transaction (do
    sup ← entities_marshal_binary json_marshal_indent tx.supported_entities
    total ← size tx
    serialize network_config_transaction_schema
        (finished_bytes (object tx total (marshal_binary tx.network_config) sup)))

-- What follows the header in the layout of the protocol.
unfoldable pub body : NetworkConfigTransaction → Bytes → Bytes → Bytes
body tx config sup =
    to_little_endian tx.apply_height_delta
    ++ (to_le 2 (length config) ++ (to_le 2 (length sup) ++ (config ++ sup)))

size_lem :
    (json_marshal_indent : List EntityDto → Result Bytes) (tx : NetworkConfigTransaction)
    (sup : Bytes)
    → entities_marshal_binary json_marshal_indent tx.supported_entities ≡ ok sup
    → size json_marshal_indent tx
      ≡ ok (network_config_header_size + length (marshal_binary tx.network_config) + length sup)
unfolding size entities_string
size_lem json_marshal_indent tx sup e = rw e refl

-- On the flatbuffer that holds its object, with the type and the version of its kind, a network of one
-- byte and a deadline, a network configuration of 1 to 65535 bytes, with entities that are printed in
-- 1 to 65535 bytes, is serialised to its bytes in the order of the protocol: the height, both sizes,
-- and both texts. They are as many as `Size` says.
pub network_config-wire :
    (json_marshal_indent : List EntityDto → Result Bytes) (finished_bytes : Slots → Bytes)
    (tx : NetworkConfigTransaction) (sup : Bytes) (total : ℕ)
    → Carries entity_network_config network_config_version tx.abstract_transaction
    → entities_marshal_binary json_marshal_indent tx.supported_entities ≡ ok sup
    → (0 < length sup) × (length sup < 2 ^ 16)
    → (0 < length (marshal_binary tx.network_config))
      × (length (marshal_binary tx.network_config) < 2 ^ 16)
    → size json_marshal_indent tx ≡ ok total
    → finished
        (finished_bytes (object tx total (marshal_binary tx.network_config) sup))
        (object tx total (marshal_binary tx.network_config) sup)
      ≡ true
    → (generate_bytes json_marshal_indent finished_bytes tx
        ≡ ok (
            header_bytes total tx.abstract_transaction
            ++ body tx (marshal_binary tx.network_config) sup))
      × (length (
            header_bytes total tx.abstract_transaction
            ++ body tx (marshal_binary tx.network_config) sup)
          ≡ total)
unfolding generate_bytes object body fits network_config_transaction_schema wire
network_config-wire json_marshal_indent finished_bytes tx sup total c e s t sized h =
    let (some_sup, small_sup) = s in
    let (some_config, small_config) = t in
    let config = marshal_binary tx.network_config in
    let fits_config : length config % 2 ^ 16 ≡ length config = omega arith in
    let fits_sup : length sup % 2 ^ 16 ≡ length sup = omega arith in
    let counted = size_lem json_marshal_indent tx sup e in
    let known : network_config_header_size + length config + length sup ≡ total = cc in
    rw (e, known)
      (serialized network_config_transaction_schema total entity_network_config
        network_config_version total tx.abstract_transaction (object tx total config sup)
        (body tx config sup) (finished_bytes (object tx total config sup)) (omega arith) c h refl
        refl
        (simp (
          fits_config,
          fits_sup,
          stored 2 (length config) (omega arith),
          stored 2 (length sup) (omega arith),
          halves-to_le,
          append-nil,
        ))
        (simp (length-append, length-to_le, length-to_little_endian) (omega arith)))
