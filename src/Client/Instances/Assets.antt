-- ===== src/Client/Instances/Assets.antt =====
-- The transactions of sdk/transaction_model.go meet its interface `Transaction`: the others.
use go_xpx_chain_sdk.Transaction.Aggregate
use go_xpx_chain_sdk.Transaction.BlockchainUpgrade
use go_xpx_chain_sdk.Transaction.LockFunds
use go_xpx_chain_sdk.Transaction.MosaicDefinition
use go_xpx_chain_sdk.Transaction.MosaicSupplyChange
use go_xpx_chain_sdk.Transaction.NetworkConfig
use go_xpx_chain_sdk.Transaction.RegisterNamespace
use go_xpx_chain_sdk.Transaction.SecretLock
use go_xpx_chain_sdk.Transaction.SecretProof
use go_xpx_chain_sdk.Transaction.Transfer
use go_xpx_chain_sdk.Base.{Bytes, List, Result, ok, refl, ◌≡◌}
use go_xpx_chain_sdk.Client.{IsTransaction}
use go_xpx_chain_sdk.Network.Entities.{EntityDto}
use go_xpx_chain_sdk.Transaction.{AbstractTransaction}
use go_xpx_chain_sdk.Transaction.Aggregate.{AggregateTransaction}
use go_xpx_chain_sdk.Transaction.BlockchainUpgrade.{BlockchainUpgradeTransaction}
use go_xpx_chain_sdk.Transaction.LockFunds.{LockFundsTransaction}
use go_xpx_chain_sdk.Transaction.MosaicDefinition.{MosaicDefinitionTransaction}
use go_xpx_chain_sdk.Transaction.MosaicSupplyChange.{MosaicSupplyChangeTransaction}
use go_xpx_chain_sdk.Transaction.NetworkConfig.{NetworkConfigTransaction}
use go_xpx_chain_sdk.Transaction.RegisterNamespace.{RegisterNamespaceTransaction}
use go_xpx_chain_sdk.Transaction.SecretLock.{SecretLockTransaction}
use go_xpx_chain_sdk.Transaction.SecretProof.{SecretProofTransaction}
use go_xpx_chain_sdk.Transaction.Transfer.{TransferTransaction}

pub size_set-network_config :
    (json_marshal_indent : List EntityDto → Result Bytes) (a : AbstractTransaction)
    (tx : NetworkConfigTransaction)
    → NetworkConfig.size json_marshal_indent (record tx { abstract_transaction = a })
      ≡ NetworkConfig.size json_marshal_indent tx
unfolding NetworkConfig.size
size_set-network_config json_marshal_indent a tx = refl

-- Its size depends on jsoniter.
abbrev pub network_config_is_transaction :
    (List EntityDto → Result Bytes) → IsTransaction NetworkConfigTransaction
network_config_is_transaction json_marshal_indent = record {
  get_abstract_transaction = λ tx. tx.abstract_transaction;
  set_abstract_transaction = λ a tx. record tx { abstract_transaction = a };
  size = NetworkConfig.size json_marshal_indent;
  get_set = λ a tx. refl;
  set_get = λ tx. refl;
  set_set = λ a b tx. refl;
  size_set = size_set-network_config json_marshal_indent;
}

pub size_set-blockchain_upgrade :
    (a : AbstractTransaction) (tx : BlockchainUpgradeTransaction)
    → ok (BlockchainUpgrade.size (record tx { abstract_transaction = a }))
      ≡ ok (BlockchainUpgrade.size tx)
unfolding BlockchainUpgrade.size
size_set-blockchain_upgrade a tx = refl

instance abbrev pub blockchain_upgrade_is_transaction : IsTransaction BlockchainUpgradeTransaction
blockchain_upgrade_is_transaction = record {
  get_abstract_transaction = λ tx. tx.abstract_transaction;
  set_abstract_transaction = λ a tx. record tx { abstract_transaction = a };
  size = λ tx. ok (BlockchainUpgrade.size tx);
  get_set = λ a tx. refl;
  set_get = λ tx. refl;
  set_set = λ a b tx. refl;
  size_set = size_set-blockchain_upgrade;
}

pub size_set-aggregate :
    (a : AbstractTransaction) (tx : AggregateTransaction)
    → ok (Aggregate.size (record tx { abstract_transaction = a })) ≡ ok (Aggregate.size tx)
unfolding Aggregate.size
size_set-aggregate a tx = refl

instance abbrev pub aggregate_is_transaction : IsTransaction AggregateTransaction
aggregate_is_transaction = record {
  get_abstract_transaction = λ tx. tx.abstract_transaction;
  set_abstract_transaction = λ a tx. record tx { abstract_transaction = a };
  size = λ tx. ok (Aggregate.size tx);
  get_set = λ a tx. refl;
  set_get = λ tx. refl;
  set_set = λ a b tx. refl;
  size_set = size_set-aggregate;
}

pub size_set-mosaic_definition :
    (a : AbstractTransaction) (tx : MosaicDefinitionTransaction)
    → ok (MosaicDefinition.size (record tx { abstract_transaction = a }))
      ≡ ok (MosaicDefinition.size tx)
unfolding MosaicDefinition.size
size_set-mosaic_definition a tx = refl

instance abbrev pub mosaic_definition_is_transaction : IsTransaction MosaicDefinitionTransaction
mosaic_definition_is_transaction = record {
  get_abstract_transaction = λ tx. tx.abstract_transaction;
  set_abstract_transaction = λ a tx. record tx { abstract_transaction = a };
  size = λ tx. ok (MosaicDefinition.size tx);
  get_set = λ a tx. refl;
  set_get = λ tx. refl;
  set_set = λ a b tx. refl;
  size_set = size_set-mosaic_definition;
}

pub size_set-mosaic_supply_change :
    (a : AbstractTransaction) (tx : MosaicSupplyChangeTransaction)
    → ok (MosaicSupplyChange.size (record tx { abstract_transaction = a }))
      ≡ ok (MosaicSupplyChange.size tx)
unfolding MosaicSupplyChange.size
size_set-mosaic_supply_change a tx = refl

instance abbrev pub mosaic_supply_change_is_transaction :
    IsTransaction MosaicSupplyChangeTransaction
mosaic_supply_change_is_transaction = record {
  get_abstract_transaction = λ tx. tx.abstract_transaction;
  set_abstract_transaction = λ a tx. record tx { abstract_transaction = a };
  size = λ tx. ok (MosaicSupplyChange.size tx);
  get_set = λ a tx. refl;
  set_get = λ tx. refl;
  set_set = λ a b tx. refl;
  size_set = size_set-mosaic_supply_change;
}

pub size_set-transfer :
    (a : AbstractTransaction) (tx : TransferTransaction)
    → ok (Transfer.size (record tx { abstract_transaction = a })) ≡ ok (Transfer.size tx)
unfolding Transfer.size
size_set-transfer a tx = refl

instance abbrev pub transfer_is_transaction : IsTransaction TransferTransaction
transfer_is_transaction = record {
  get_abstract_transaction = λ tx. tx.abstract_transaction;
  set_abstract_transaction = λ a tx. record tx { abstract_transaction = a };
  size = λ tx. ok (Transfer.size tx);
  get_set = λ a tx. refl;
  set_get = λ tx. refl;
  set_set = λ a b tx. refl;
  size_set = size_set-transfer;
}

pub size_set-register_namespace :
    (a : AbstractTransaction) (tx : RegisterNamespaceTransaction)
    → ok (RegisterNamespace.size (record tx { abstract_transaction = a }))
      ≡ ok (RegisterNamespace.size tx)
unfolding RegisterNamespace.size
size_set-register_namespace a tx = refl

instance abbrev pub register_namespace_is_transaction : IsTransaction RegisterNamespaceTransaction
register_namespace_is_transaction = record {
  get_abstract_transaction = λ tx. tx.abstract_transaction;
  set_abstract_transaction = λ a tx. record tx { abstract_transaction = a };
  size = λ tx. ok (RegisterNamespace.size tx);
  get_set = λ a tx. refl;
  set_get = λ tx. refl;
  set_set = λ a b tx. refl;
  size_set = size_set-register_namespace;
}

pub size_set-lock_funds :
    (a : AbstractTransaction) (tx : LockFundsTransaction)
    → ok (LockFunds.size (record tx { abstract_transaction = a })) ≡ ok (LockFunds.size tx)
unfolding LockFunds.size
size_set-lock_funds a tx = refl

instance abbrev pub lock_funds_is_transaction : IsTransaction LockFundsTransaction
lock_funds_is_transaction = record {
  get_abstract_transaction = λ tx. tx.abstract_transaction;
  set_abstract_transaction = λ a tx. record tx { abstract_transaction = a };
  size = λ tx. ok (LockFunds.size tx);
  get_set = λ a tx. refl;
  set_get = λ tx. refl;
  set_set = λ a b tx. refl;
  size_set = size_set-lock_funds;
}

pub size_set-secret_lock :
    (a : AbstractTransaction) (tx : SecretLockTransaction)
    → ok (SecretLock.size (record tx { abstract_transaction = a })) ≡ ok (SecretLock.size tx)
unfolding SecretLock.size
size_set-secret_lock a tx = refl

instance abbrev pub secret_lock_is_transaction : IsTransaction SecretLockTransaction
secret_lock_is_transaction = record {
  get_abstract_transaction = λ tx. tx.abstract_transaction;
  set_abstract_transaction = λ a tx. record tx { abstract_transaction = a };
  size = λ tx. ok (SecretLock.size tx);
  get_set = λ a tx. refl;
  set_get = λ tx. refl;
  set_set = λ a b tx. refl;
  size_set = size_set-secret_lock;
}

pub size_set-secret_proof :
    (a : AbstractTransaction) (tx : SecretProofTransaction)
    → ok (SecretProof.size (record tx { abstract_transaction = a })) ≡ ok (SecretProof.size tx)
unfolding SecretProof.size
size_set-secret_proof a tx = refl

instance abbrev pub secret_proof_is_transaction : IsTransaction SecretProofTransaction
secret_proof_is_transaction = record {
  get_abstract_transaction = λ tx. tx.abstract_transaction;
  set_abstract_transaction = λ a tx. record tx { abstract_transaction = a };
  size = λ tx. ok (SecretProof.size tx);
  get_set = λ a tx. refl;
  set_get = λ tx. refl;
  set_set = λ a b tx. refl;
  size_set = size_set-secret_proof;
}
