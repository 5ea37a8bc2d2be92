-- ===== src/Tests/Samples.antt =====
-- Data that the concrete transactions share.
pub use go_xpx_chain_sdk.Account.{mijin_test}
use go_xpx_chain_sdk.Base.{
  Bytes, Option, [], arith, ok, refl, replicate, some, ℕ, ◌*◌, ◌++◌, ◌∷◌, ◌≡◌,
}
use go_xpx_chain_sdk.Asset.{Mosaic, NamespaceId, mosaic_asset}
use go_xpx_chain_sdk.Encoding.{base32_decode_string}
use go_xpx_chain_sdk.Transaction.{AbstractTransaction, Address, Deadline, new_abstract_transaction}
use go_xpx_chain_sdk.Transaction.Header.{Carries}

abbrev pub deadline : Option Deadline
deadline = some (record { unix_nano = 1500000000 * 1000000000 })

abbrev pub head : ℕ → ℕ → AbstractTransaction
head type version = new_abstract_transaction deadline type version mijin_test

pub head-Carries : (type version : ℕ) → Carries type version (head type version)
unfolding new_abstract_transaction
head-Carries type version = record {
  type_is = refl;
  version_is = refl;
  has_deadline = λ e. cc;
  network_fits = omega arith;
}

abbrev pub xpx : Mosaic
xpx = record { asset_id = mosaic_asset (record { base_int64 = 0x0dc67fbe1cad29e3 }); amount = 10 }

abbrev pub prx : NamespaceId
prx = record { base_int64 = 0xb16d77fd8b6fb3be }

-- An address and its 25 bytes.
abbrev pub recipient : Address
recipient = record { type = mijin_test; address = replicate 40 b'S' }

abbrev pub five : Bytes
five = 0x94 ∷ (0xa5 ∷ (0x29 ∷ (0x4a ∷ (0x52 ∷ []))))

abbrev pub decoded : Bytes
decoded = five ++ (five ++ (five ++ (five ++ five)))

pub recipient_decodes : base32_decode_string recipient.address ≡ ok decoded
unfolding base32_decode_string
recipient_decodes = refl
