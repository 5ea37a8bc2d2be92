-- ===== src/Client.antt =====
-- The client of sdk/sdk.go as a maker of transactions: what of its configuration they depend on, and the
-- fee that `modifyTransaction` sets. Requests to a node are not modelled.
pub mod Instances
pub mod Builders
pub mod Fee
use go_xpx_chain_sdk.Base.{
  Bool, Result, if◌then◌else◌, ltb, ok, ℕ, ◌%◌, ◌*◌, ◌==◌, ◌>>=◌, ◌^◌, ◌||◌, ◌≡◌,
}
use go_xpx_chain_sdk.Transaction.{AbstractTransaction}
use go_xpx_chain_sdk.Transaction.Entities.{entity_blockchain_upgrade, entity_network_config}

abbrev pub high_calculation_strategy : ℕ
high_calculation_strategy = 2500

abbrev pub middle_calculation_strategy : ℕ
middle_calculation_strategy = 250

abbrev pub low_calculation_strategy : ℕ
low_calculation_strategy = 25

abbrev pub default_max_fee : ℕ
default_max_fee = 5 * 1000000

-- What of `Config` the transactions depend on; the strategy has 32 bits.
pub record Config : Type 0 where
  pub network_type : ℕ
  pub fee_calculation_strategy : ℕ

-- The interface `Transaction` of sdk/transaction_model.go, for the values of one type: the embedded
-- abstract transaction, which can be changed in place with nothing else changed, and the size, which does
-- not depend on it.
pub record IsTransaction (T : Type 0) : Type 0 where
  pub get_abstract_transaction : T → AbstractTransaction
  pub set_abstract_transaction : AbstractTransaction → T → T
  pub size : T → Result ℕ
  pub get_set :
      (a : AbstractTransaction) (tx : T)
      → get_abstract_transaction (set_abstract_transaction a tx) ≡ a
  pub set_get : (tx : T) → set_abstract_transaction (get_abstract_transaction tx) tx ≡ tx
  pub set_set :
      (a b : AbstractTransaction) (tx : T)
      → set_abstract_transaction a (set_abstract_transaction b tx) ≡ set_abstract_transaction a tx
  pub size_set : (a : AbstractTransaction) (tx : T) → size (set_abstract_transaction a tx) ≡ size tx

-- `min` of two `int` values of which the first is a 64-bit pattern.
unfoldable pub min_int : ℕ → ℕ → ℕ
min_int a b = if ltb a (2 ^ 63) then (if ltb a b then a else b) else a

-- `Amount(min(tx.Size()*int(c.config.FeeCalculationStrategy), DefaultMaxFee))`
unfoldable pub fee : Config → ℕ → ℕ
unfolding min_int
fee c size = min_int (size * c.fee_calculation_strategy % 2 ^ 64) default_max_fee

unfoldable pub is_versioning : ℕ → Bool
is_versioning type = type == entity_network_config || type == entity_blockchain_upgrade

module _ {T : Type 0} ⦃i : IsTransaction T⦄ where
  -- The size is asked for only where the fee is set.
  unfoldable pub modify_transaction : Config → T → Result T
  unfolding is_versioning fee
  modify_transaction c tx =
      let a = i.get_abstract_transaction tx in
      if is_versioning a.type then ok tx else (do
        size ← i.size tx
        ok (i.set_abstract_transaction (record a { max_fee = fee c size }) tx))
