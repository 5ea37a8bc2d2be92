-- ===== src/Transaction.antt =====
-- sdk/transaction_model.go: the sizes, the numbers of the entity types and versions, the part that all
-- transactions share, and how its slots are filled.
pub mod Sizes
pub mod Entities
pub mod Header
pub mod Parts
pub mod MosaicSupplyChange
pub mod Transfer
pub mod MosaicDefinition
pub mod LockFunds
pub mod Signing
pub mod Aggregate
pub mod RegisterNamespace
pub mod SecretLock
pub mod SecretProof
pub mod BlockchainUpgrade
pub mod AccountLink
pub mod NetworkConfig
pub mod AccountProperties
pub mod ModifyMultisig
pub mod ModifyContract
pub mod ModifyMetadata
pub mod Alias
pub mod Responses
pub mod Modifications
pub mod Messages
use go_xpx_chain_sdk.Base.{
  Bytes, Option, Result, [], deref, none, some, ℕ, ◌*◌, ◌+◌, ◌-◌, ◌/◌, ◌>>=◌, ◌^◌,
}
use go_xpx_chain_sdk.Buffers.{
  transaction_buffer_add_deadline, transaction_buffer_add_max_fee, transaction_buffer_add_signature,
  transaction_buffer_add_signer, transaction_buffer_add_type, transaction_buffer_add_version,
  transaction_buffer_create_byte_vector, transaction_buffer_create_uint32_vector,
}
use go_xpx_chain_sdk.Schema.{u32}
use go_xpx_chain_sdk.Schema.Format.{Slot, Slots}
use go_xpx_chain_sdk.Transaction.Sizes.{signature_size, signer_size}
use go_xpx_chain_sdk.Uint64.{u64, uint64_to_array}
use go_xpx_chain_sdk.Word.{zeros}

-- A time, as nanoseconds since 1970; earlier times are not modelled.
pub record Deadline : Type 0 where
  pub unix_nano : ℕ

abbrev pub timestamp_nemesis_block_milliseconds : ℕ
timestamp_nemesis_block_milliseconds = 1459468800 * 1000

-- `Timestamp.ToBlockchainTimestamp`, the 64-bit pattern of its result
unfoldable pub to_blockchain_timestamp : Deadline → ℕ
to_blockchain_timestamp d =
    u64 (d.unix_nano / 1000000 + 2 ^ 64 - timestamp_nemesis_block_milliseconds)

-- What the vector of a deadline holds. Without a deadline there is no vector, see `following_deadline`.
unfoldable pub deadline_timestamp : Option Deadline → ℕ
unfolding to_blockchain_timestamp
deadline_timestamp none = 0
deadline_timestamp (some d) = to_blockchain_timestamp d

pub record Address : Type 0 where
  pub type : ℕ
  pub address : Bytes

pub record PublicAccount : Type 0 where
  pub address : Address
  pub public_key : Bytes

-- The hashes are pointers, and may be nil.
pub record TransactionInfo : Type 0 where
  pub height : ℕ
  pub index : ℕ
  pub id : Bytes
  pub transaction_hash : Option Bytes
  pub merkle_component_hash : Option Bytes
  pub aggregate_hash : Option Bytes
  pub aggregate_id : Bytes

-- The information, the deadline and the signer are pointers, and may be nil.
pub record AbstractTransaction : Type 0 where
  pub transaction_info : Option TransactionInfo
  pub network_type : ℕ
  pub deadline : Option Deadline
  pub type : ℕ
  pub version : ℕ
  pub max_fee : ℕ
  pub signature : Bytes
  pub signer : Option PublicAccount

-- The hash is a pointer, and may be nil.
pub record SignedTransaction : Type 0 where
  pub entity_type : ℕ
  pub payload : Bytes
  pub hash : Option Bytes

-- A literal `AbstractTransaction{…}` of a constructor: what it leaves out is zero.
unfoldable pub new_abstract_transaction : Option Deadline → ℕ → ℕ → ℕ → AbstractTransaction
new_abstract_transaction deadline type version network_type = record {
  transaction_info = none;
  network_type = network_type;
  deadline = deadline;
  type = type;
  version = version;
  max_fee = 0;
  signature = [];
  signer = none;
}

-- `ToAggregate`
unfoldable pub to_aggregate : PublicAccount → AbstractTransaction → AbstractTransaction
to_aggregate signer tx = record tx { signer = some signer }

-- `generateVectors` calls a method of the deadline, so a nil one is a panic, before whatever comes after
-- the vectors.
unfoldable pub following_deadline : AbstractTransaction → Result Bytes → Result Bytes
following_deadline tx rest = do deadline ← deref tx.deadline; rest

-- The vectors of `generateVectors`.
pub record Vectors : Type 0 where
  pub version : ℕ
  pub signature : Slot
  pub signer : Slot
  pub deadline : Slot
  pub max_fee : Slot

unfoldable pub generate_vectors : AbstractTransaction → Vectors
unfolding transaction_buffer_create_byte_vector transaction_buffer_create_uint32_vector
generate_vectors tx = record {
  version = u32 (u32 (tx.network_type * 2 ^ 24) + tx.version);
  signature = transaction_buffer_create_byte_vector (zeros signature_size);
  signer = transaction_buffer_create_byte_vector (zeros signer_size);
  deadline =
      transaction_buffer_create_uint32_vector (uint64_to_array (deadline_timestamp tx.deadline));
  max_fee = transaction_buffer_create_uint32_vector (uint64_to_array tx.max_fee);
}

infixl 8 ◌⊳◌
abbrev pub ◌⊳◌ : Slots → (Slots → Slots) → Slots
t ⊳ f = f t

unfoldable pub build_vectors : AbstractTransaction → Slots → Slots
unfolding generate_vectors transaction_buffer_add_signature transaction_buffer_add_signer
    transaction_buffer_add_version transaction_buffer_add_type transaction_buffer_add_max_fee
    transaction_buffer_add_deadline
build_vectors tx t =
    let v = generate_vectors tx in
    t
    ⊳ transaction_buffer_add_signature v.signature
    ⊳ transaction_buffer_add_signer v.signer
    ⊳ transaction_buffer_add_version v.version
    ⊳ transaction_buffer_add_type tx.type
    ⊳ transaction_buffer_add_max_fee v.max_fee
    ⊳ transaction_buffer_add_deadline v.deadline
