-- ===== src/Info/Blocks.antt =====
-- sdk/blockchain_internal.go: infos of blocks. The score of a chain is not modelled.
use go_xpx_chain_sdk.Base.{
  Bytes, List, Option, Result, if◌then◌else◌, none, ok, replicate, some, ℕ, ◌%◌, ◌*◌, ◌+◌, ◌>>=◌,
  ◌^◌,
}
use go_xpx_chain_sdk.Account.{new_account_from_public_key}
use go_xpx_chain_sdk.Base.Text.{same}
use go_xpx_chain_sdk.Info.{all_to_struct}
use go_xpx_chain_sdk.Secret.{Hashes}
use go_xpx_chain_sdk.Transaction.{PublicAccount, timestamp_nemesis_block_milliseconds}
use go_xpx_chain_sdk.Transaction.Responses.{
  extract_network_type, extract_version, hash_dto_hash, signature_dto_signature,
}
use go_xpx_chain_sdk.Uint64.{to_uint64}

-- The version is a 64-bit pattern.
pub record BlockInfoDto : Type 0 where
  pub block_hash : Bytes
  pub generation_hash : Bytes
  pub total_fee : ℕ × ℕ
  pub num_transactions : ℕ
  pub signature : Bytes
  pub signer : Bytes
  pub version : ℕ
  pub type : ℕ
  pub height : ℕ × ℕ
  pub timestamp : ℕ × ℕ
  pub difficulty : ℕ × ℕ
  pub fee_multiplier : ℕ
  pub previous_block_hash : Bytes
  pub block_transactions_hash : Bytes
  pub block_receipts_hash : Bytes
  pub state_hash : Bytes
  pub beneficiary : Bytes
  pub fee_interest : ℕ
  pub fee_interest_denominator : ℕ

-- The timestamp is the 64-bit pattern of its nanoseconds since 1970.
pub record BlockInfo : Type 0 where
  pub network_type : ℕ
  pub block_hash : Option Bytes
  pub generation_hash : Option Bytes
  pub total_fee : ℕ
  pub num_transactions : ℕ
  pub signature : Option Bytes
  pub signer : PublicAccount
  pub version : ℕ
  pub type : ℕ
  pub height : ℕ
  pub timestamp : ℕ
  pub difficulty : ℕ
  pub fee_multiplier : ℕ
  pub previous_block_hash : Option Bytes
  pub block_transactions_hash : Option Bytes
  pub block_receipts_hash : Option Bytes
  pub state_hash : Option Bytes
  pub beneficiary : Option PublicAccount
  pub fee_interest : ℕ
  pub fee_interest_denominator : ℕ

abbrev pub empty_public_key : Bytes
empty_public_key = replicate 64 b'0'

-- `BlockchainTimestamp.ToTimestamp`, the 64-bit pattern of `UnixNano` of its result
unfoldable pub to_timestamp : ℕ → ℕ
to_timestamp milliseconds =
    (milliseconds + timestamp_nemesis_block_milliseconds) % 2 ^ 64 * 1000000 % 2 ^ 64

module _ (crypto : Hashes) where
  unfoldable pub beneficiary_of : ℕ → Bytes → Result (Option PublicAccount)
  unfolding same new_account_from_public_key
  beneficiary_of network_type beneficiary =
      if same beneficiary empty_public_key then ok none else (do
        account ← new_account_from_public_key crypto beneficiary network_type
        ok (some account))

  unfoldable pub block_info_dto_to_struct : BlockInfoDto → Result BlockInfo
  unfolding beneficiary_of hash_dto_hash signature_dto_signature extract_version
      extract_network_type to_timestamp new_account_from_public_key
  block_info_dto_to_struct dto = do
    let nt = extract_network_type dto.version
    pa ← new_account_from_public_key crypto dto.signer nt
    bpa ← beneficiary_of nt dto.beneficiary
    block_hash ← hash_dto_hash dto.block_hash
    generation_hash ← hash_dto_hash dto.generation_hash
    signature ← signature_dto_signature dto.signature
    previous_block_hash ← hash_dto_hash dto.previous_block_hash
    block_transactions_hash ← hash_dto_hash dto.block_transactions_hash
    block_receipts_hash ← hash_dto_hash dto.block_receipts_hash
    state_hash ← hash_dto_hash dto.state_hash
    ok (record {
      network_type = nt;
      block_hash = block_hash;
      generation_hash = generation_hash;
      total_fee = to_uint64 dto.total_fee;
      num_transactions = dto.num_transactions;
      signature = signature;
      signer = pa;
      version = extract_version dto.version;
      type = dto.type;
      height = to_uint64 dto.height;
      timestamp = to_timestamp (to_uint64 dto.timestamp);
      difficulty = to_uint64 dto.difficulty;
      fee_multiplier = dto.fee_multiplier;
      previous_block_hash = previous_block_hash;
      block_transactions_hash = block_transactions_hash;
      block_receipts_hash = block_receipts_hash;
      state_hash = state_hash;
      beneficiary = bpa;
      fee_interest = dto.fee_interest;
      fee_interest_denominator = dto.fee_interest_denominator;
    })

  unfoldable pub block_info_dtos_to_struct : List BlockInfoDto → Result (List BlockInfo)
  unfolding all_to_struct block_info_dto_to_struct
  block_info_dtos_to_struct dtos = all_to_struct block_info_dto_to_struct dtos
