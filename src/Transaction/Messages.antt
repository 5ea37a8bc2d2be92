-- ===== src/Transaction/Messages.antt =====
-- The mappers of messages of sdk/message_processors.go, with the structures of sdk/websocket_model.go.
-- encoding/json, which fills the structures, is a parameter.
use go_xpx_chain_sdk.Base.{Bytes, Option, Result, deref, ok, ◌>>=◌}
use go_xpx_chain_sdk.Transaction.{TransactionInfo}
use go_xpx_chain_sdk.Transaction.Responses.{
  TransactionInfoDto, hash_dto_hash, signature_dto_signature, transaction_info_dto_to_struct,
}

-- A structure that is mapped from a message.
unfoldable pub map_message {ℓ κ} :
    {D : Type ℓ} {S : Type κ} → (Bytes → Result D) → (D → Result S) → Bytes → Result S
map_message unmarshal to_struct m = do dto ← unmarshal m; to_struct dto

-- `StatusInfo`, and its structure in a message: a status with a hash.
pub record StatusInfo : Type 0 where
  pub status : Bytes
  pub hash : Option Bytes

unfoldable pub status_info_of : Bytes × Bytes → Result StatusInfo
unfolding hash_dto_hash
status_info_of (status, hash_dto) = do
  hash ← hash_dto_hash hash_dto
  ok (record { status = status; hash = hash })

unfoldable pub map_status : (Bytes → Result (Bytes × Bytes)) → Bytes → Result StatusInfo
unfolding map_message status_info_of
map_status unmarshal m = map_message unmarshal status_info_of m

pub record SignerInfoDto : Type 0 where
  pub signer : Bytes
  pub signature : Bytes
  pub parent_hash : Bytes

pub record SignerInfo : Type 0 where
  pub signer : Bytes
  pub signature : Option Bytes
  pub parent_hash : Option Bytes

unfoldable pub signer_info_of : SignerInfoDto → Result SignerInfo
unfolding hash_dto_hash signature_dto_signature
signer_info_of dto = do
  signature ← signature_dto_signature dto.signature
  parent_hash ← hash_dto_hash dto.parent_hash
  ok (record { signer = dto.signer; signature = signature; parent_hash = parent_hash })

unfoldable pub map_cosignature : (Bytes → Result SignerInfoDto) → Bytes → Result SignerInfo
unfolding map_message signer_info_of
map_cosignature unmarshal m = map_message unmarshal signer_info_of m

-- `UnconfirmedRemoved` and `PartialRemovedInfo`
pub record RemovedInfo : Type 0 where
  pub meta : TransactionInfo

-- The structure of the message has a pointer, which is followed.
unfoldable pub removed_info_dto_to_struct : Option TransactionInfoDto → Result RemovedInfo
unfolding transaction_info_dto_to_struct
removed_info_dto_to_struct dto = do
  meta ← deref dto
  info ← transaction_info_dto_to_struct meta
  ok (record { meta = info })

unfoldable pub map_removed :
    (Bytes → Result (Option TransactionInfoDto)) → Bytes → Result RemovedInfo
unfolding map_message removed_info_dto_to_struct
map_removed unmarshal m = map_message unmarshal removed_info_dto_to_struct m
