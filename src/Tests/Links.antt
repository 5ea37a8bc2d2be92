-- ===== src/Tests/Links.antt =====
-- A concrete multisig change and a concrete contract.
use go_xpx_chain_sdk.Transaction.ModifyContract
use go_xpx_chain_sdk.Transaction.ModifyMultisig
use go_xpx_chain_sdk.Transaction.ModifyMultisig.{
  no_key, one_key, AreKeyed, ModifyMultisigAccountTransaction, cosignatory_object,
  cosignatory_vector, modify_multisig-wire,
}
use go_xpx_chain_sdk.Base.{
  Bytes, List, [], arith, length, ok, refl, replicate, some, true, ℕ, ◌++◌, ◌∷◌, ◌≡◌,
}
use go_xpx_chain_sdk.Encoding.{hex_decode_string}
use go_xpx_chain_sdk.Schema.Format.{bytes_at, finished, number_at, offset_at, reads, slots_hold}
use go_xpx_chain_sdk.Tests.Flatbuffer.{layout}
use go_xpx_chain_sdk.Tests.Samples.{head, head-Carries, recipient}
use go_xpx_chain_sdk.Transaction.{
  PublicAccount, deadline_timestamp, new_abstract_transaction, to_blockchain_timestamp,
}
use go_xpx_chain_sdk.Transaction.AccountLink.{AccountLinkTransaction}
use go_xpx_chain_sdk.Transaction.Entities.{
  entity_link_account, entity_modify_contract, entity_modify_multisig, link_account_version,
  modify_contract_version, modify_multisig_version,
}
use go_xpx_chain_sdk.Transaction.Header.{header_bytes}
use go_xpx_chain_sdk.Transaction.ModifyContract.{
  ModifyContractTransaction, keyed_object, modify_contract-wire,
}
use go_xpx_chain_sdk.Uint64.{uint64_to_array}
use go_xpx_chain_sdk.Word.{from_le, to_le, zeros}

abbrev remote : PublicAccount
remote = record { address = recipient; public_key = replicate 64 b'a' }

abbrev link : AccountLinkTransaction
link = record {
  abstract_transaction = head entity_link_account link_account_version;
  remote_account = remote;
  link_action = 1;
}

abbrev remote_key : Bytes
remote_key = replicate 32 170

remote_decodes : hex_decode_string remote.public_key ≡ ok remote_key
unfolding hex_decode_string
remote_decodes = refl

abbrev multisig : ModifyMultisigAccountTransaction
multisig = record {
  abstract_transaction = head entity_modify_multisig modify_multisig_version;
  min_approval_delta = 2;
  min_removal_delta = 255;
  modifications =
      (record { type = 0; public_account = remote })
      ∷ ((record { type = 1; public_account = remote }) ∷ []);
}

abbrev cosignatories : List (ℕ × Bytes)
cosignatories = (0, remote_key) ∷ ((1, remote_key) ∷ [])

multisig-AreKeyed : AreKeyed hex_decode_string multisig.modifications cosignatories
multisig-AreKeyed = one_key remote_decodes refl (one_key remote_decodes refl no_key)

multisig_written :
    finished
      (layout (ModifyMultisig.object multisig (cosignatory_vector cosignatories)))
      (ModifyMultisig.object multisig (cosignatory_vector cosignatories))
    ≡ true
unfolding finished layout ModifyMultisig.object to_le new_abstract_transaction zeros number_at
    bytes_at from_le slots_hold offset_at reads uint64_to_array deadline_timestamp
    to_blockchain_timestamp ModifyMultisig.size cosignatory_vector cosignatory_object
multisig_written = refl

modify_multisig-wire_example :
    (ModifyMultisig.generate_bytes hex_decode_string layout multisig
      ≡ ok (
          header_bytes (ModifyMultisig.size multisig) multisig.abstract_transaction
          ++ ModifyMultisig.body multisig cosignatories))
    × (length (
          header_bytes (ModifyMultisig.size multisig) multisig.abstract_transaction
          ++ ModifyMultisig.body multisig cosignatories)
        ≡ ModifyMultisig.size multisig)
modify_multisig-wire_example =
    modify_multisig-wire hex_decode_string layout multisig cosignatories
      (head-Carries entity_modify_multisig modify_multisig_version) multisig-AreKeyed (omega arith)
      multisig_written

abbrev file_hash : Bytes
file_hash = replicate 32 7

abbrev contract : ModifyContractTransaction
contract = record {
  abstract_transaction = head entity_modify_contract modify_contract_version;
  duration_delta = 1000;
  hash = some file_hash;
  customers = multisig.modifications;
  executors = multisig.modifications;
  verifiers = multisig.modifications;
}

contract_written :
    finished
      (layout (keyed_object contract file_hash cosignatories cosignatories cosignatories))
      (keyed_object contract file_hash cosignatories cosignatories cosignatories)
    ≡ true
unfolding finished layout ModifyContract.object to_le new_abstract_transaction zeros number_at
    bytes_at from_le slots_hold offset_at reads uint64_to_array deadline_timestamp
    to_blockchain_timestamp ModifyContract.size cosignatory_vector cosignatory_object keyed_object
contract_written = refl

modify_contract-wire_example :
    (ModifyContract.generate_bytes hex_decode_string layout contract
      ≡ ok (
          header_bytes (ModifyContract.size contract) contract.abstract_transaction
          ++ ModifyContract.body contract file_hash cosignatories cosignatories cosignatories))
    × (length (
          header_bytes (ModifyContract.size contract) contract.abstract_transaction
          ++ ModifyContract.body contract file_hash cosignatories cosignatories cosignatories)
        ≡ ModifyContract.size contract)
modify_contract-wire_example =
    modify_contract-wire hex_decode_string layout contract file_hash cosignatories cosignatories
      cosignatories (head-Carries entity_modify_contract modify_contract_version) refl refl
      multisig-AreKeyed multisig-AreKeyed multisig-AreKeyed (omega arith, omega arith, omega arith)
      contract_written
