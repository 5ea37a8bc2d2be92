-- ===== src/Transaction/AccountLink.antt =====
-- `AccountLinkTransaction` of sdk/transaction_model.go. `HexDecodeStringOdd` of go-xpx-utils is a
-- parameter `hex_decode_string_odd`.
use go_xpx_chain_sdk.Schema.{serialize}
use go_xpx_chain_sdk.Base.{
  Bytes, Option, Result, append-nil, arith, err, length, length-append, new_error, none, ok, refl,
  some, true, ℕ, ◌++◌, ◌>>=◌, ◌≡◌,
}
use go_xpx_chain_sdk.Buffers.{transaction_buffer_add_size, transaction_buffer_create_byte_vector}
use go_xpx_chain_sdk.Buffers.Accounts.{
  account_link_transaction_buffer_add_link_action,
  account_link_transaction_buffer_add_remote_account_key, account_link_transaction_buffer_start,
}
use go_xpx_chain_sdk.Schema.Definitions.{account_link_transaction_schema}
use go_xpx_chain_sdk.Schema.Format.{Slots, finished, fits, wire}
use go_xpx_chain_sdk.Transaction.{
  AbstractTransaction, Deadline, PublicAccount, build_vectors, following_deadline,
  new_abstract_transaction, ◌⊳◌,
}
use go_xpx_chain_sdk.Transaction.Entities.{entity_link_account, link_account_version}
use go_xpx_chain_sdk.Transaction.Header.{Carries, header_bytes, serialized, stored_byte}
use go_xpx_chain_sdk.Transaction.Sizes.{account_link_transaction_size, key_size}
use go_xpx_chain_sdk.Word.{length-to_le, to_le}

pub record AccountLinkTransaction : Type 0 where
  pub abstract_transaction : AbstractTransaction
  pub remote_account : PublicAccount
  pub link_action : ℕ

pub new_account_link_transaction :
    Option Deadline → Option PublicAccount → ℕ → ℕ → Result AccountLinkTransaction
new_account_link_transaction deadline none link_action network_type =
    err (new_error "remoteAccount must not be nil")
new_account_link_transaction deadline (some remote_account) link_action network_type = ok (record {
  abstract_transaction =
      new_abstract_transaction deadline entity_link_account link_account_version network_type;
  remote_account = remote_account;
  link_action = link_action;
})

unfoldable pub size : AccountLinkTransaction → ℕ
size tx = account_link_transaction_size

-- The object that `generateBytes` has the builder make, from the decoded key of the remote account.
unfoldable pub object : AccountLinkTransaction → Bytes → Slots
unfolding size transaction_buffer_create_byte_vector account_link_transaction_buffer_start
    transaction_buffer_add_size build_vectors account_link_transaction_buffer_add_remote_account_key
    account_link_transaction_buffer_add_link_action
object tx b =
    account_link_transaction_buffer_start
    ⊳ transaction_buffer_add_size (size tx)
    ⊳ build_vectors tx.abstract_transaction
    ⊳ account_link_transaction_buffer_add_remote_account_key
        (transaction_buffer_create_byte_vector b)
    ⊳ account_link_transaction_buffer_add_link_action tx.link_action

pub generate_bytes :
    (Bytes → Result Bytes) → (Slots → Bytes) → AccountLinkTransaction → Result Bytes
generate_bytes hex_decode_string_odd finished_bytes tx = do
  b ← hex_decode_string_odd tx.remote_account.public_key
  following_deadline tx.abstract_transaction
      (serialize account_link_transaction_schema (finished_bytes (object tx b)))

-- What follows the header in the layout of the protocol.
unfoldable pub body : AccountLinkTransaction → Bytes → Bytes
body tx b = b ++ to_le 1 tx.link_action

-- On the flatbuffer that holds its object, with the type and the version of its kind, a network of one
-- byte and a deadline, an account link whose remote key decodes to a key is serialised to its bytes in
-- the order of the protocol, and they are as many as `Size` says.
pub account_link-wire :
    (hex_decode_string_odd : Bytes → Result Bytes) (finished_bytes : Slots → Bytes)
    (tx : AccountLinkTransaction) (b : Bytes)
    → Carries entity_link_account link_account_version tx.abstract_transaction
    → hex_decode_string_odd tx.remote_account.public_key ≡ ok b
    → length b ≡ key_size
    → finished (finished_bytes (object tx b)) (object tx b) ≡ true
    → (generate_bytes hex_decode_string_odd finished_bytes tx
        ≡ ok (header_bytes (size tx) tx.abstract_transaction ++ body tx b))
      × (length (header_bytes (size tx) tx.abstract_transaction ++ body tx b) ≡ size tx)
unfolding generate_bytes object body fits account_link_transaction_schema wire size
account_link-wire hex_decode_string_odd finished_bytes tx b c d l h = rw d (
    serialized account_link_transaction_schema (size tx) entity_link_account link_account_version
      (size tx) tx.abstract_transaction (object tx b) (body tx b) (finished_bytes (object tx b))
      (omega arith) c h refl refl (simp (stored_byte, append-nil))
      (simp (length-append, length-to_le, l) (omega arith)))
