-- ===== src/Client/Instances/Accounts.antt =====
-- The transactions of sdk/transaction_model.go meet its interface `Transaction`: those on accounts and names.
use go_xpx_chain_sdk.Transaction.AccountLink
use go_xpx_chain_sdk.Transaction.ModifyContract
use go_xpx_chain_sdk.Transaction.ModifyMultisig
use go_xpx_chain_sdk.Base.{ok, refl, ◌≡◌}
use go_xpx_chain_sdk.Client.{IsTransaction}
use go_xpx_chain_sdk.Transaction.{AbstractTransaction}
use go_xpx_chain_sdk.Transaction.AccountLink.{AccountLinkTransaction}
use go_xpx_chain_sdk.Transaction.AccountProperties.{
  AccountPropertiesAddressTransaction, AccountPropertiesEntityTypeTransaction,
  AccountPropertiesMosaicTransaction, address_properties_size, entity_type_properties_size,
  mosaic_properties_size,
}
use go_xpx_chain_sdk.Transaction.Alias.{
  AddressAliasTransaction, MosaicAliasTransaction, address_alias_size, mosaic_alias_size,
}
use go_xpx_chain_sdk.Transaction.ModifyContract.{ModifyContractTransaction}
use go_xpx_chain_sdk.Transaction.ModifyMetadata.{
  ModifyMetadataAddressTransaction, ModifyMetadataMosaicTransaction,
  ModifyMetadataNamespaceTransaction, metadata_address_size, metadata_mosaic_size,
  metadata_namespace_size,
}
use go_xpx_chain_sdk.Transaction.ModifyMultisig.{ModifyMultisigAccountTransaction}

pub size_set-address_alias :
    (a : AbstractTransaction) (tx : AddressAliasTransaction)
    → ok (
        address_alias_size (record tx {
          alias_transaction = record tx.alias_transaction { abstract_transaction = a };
        }))
      ≡ ok (address_alias_size tx)
unfolding address_alias_size
size_set-address_alias a tx = refl

instance abbrev pub address_alias_is_transaction : IsTransaction AddressAliasTransaction
address_alias_is_transaction = record {
  get_abstract_transaction = λ tx. tx.alias_transaction.abstract_transaction;
  set_abstract_transaction = λ a tx. record tx {
    alias_transaction = record tx.alias_transaction { abstract_transaction = a };
  };
  size = λ tx. ok (address_alias_size tx);
  get_set = λ a tx. refl;
  set_get = λ tx. refl;
  set_set = λ a b tx. refl;
  size_set = size_set-address_alias;
}

pub size_set-mosaic_alias :
    (a : AbstractTransaction) (tx : MosaicAliasTransaction)
    → ok (
        mosaic_alias_size (record tx {
          alias_transaction = record tx.alias_transaction { abstract_transaction = a };
        }))
      ≡ ok (mosaic_alias_size tx)
unfolding mosaic_alias_size
size_set-mosaic_alias a tx = refl

instance abbrev pub mosaic_alias_is_transaction : IsTransaction MosaicAliasTransaction
mosaic_alias_is_transaction = record {
  get_abstract_transaction = λ tx. tx.alias_transaction.abstract_transaction;
  set_abstract_transaction = λ a tx. record tx {
    alias_transaction = record tx.alias_transaction { abstract_transaction = a };
  };
  size = λ tx. ok (mosaic_alias_size tx);
  get_set = λ a tx. refl;
  set_get = λ tx. refl;
  set_set = λ a b tx. refl;
  size_set = size_set-mosaic_alias;
}

pub size_set-account_link :
    (a : AbstractTransaction) (tx : AccountLinkTransaction)
    → ok (AccountLink.size (record tx { abstract_transaction = a })) ≡ ok (AccountLink.size tx)
unfolding AccountLink.size
size_set-account_link a tx = refl

instance abbrev pub account_link_is_transaction : IsTransaction AccountLinkTransaction
account_link_is_transaction = record {
  get_abstract_transaction = λ tx. tx.abstract_transaction;
  set_abstract_transaction = λ a tx. record tx { abstract_transaction = a };
  size = λ tx. ok (AccountLink.size tx);
  get_set = λ a tx. refl;
  set_get = λ tx. refl;
  set_set = λ a b tx. refl;
  size_set = size_set-account_link;
}

pub size_set-account_properties_address :
    (a : AbstractTransaction) (tx : AccountPropertiesAddressTransaction)
    → ok (address_properties_size (record tx { abstract_transaction = a }))
      ≡ ok (address_properties_size tx)
unfolding address_properties_size
size_set-account_properties_address a tx = refl

instance abbrev pub account_properties_address_is_transaction :
    IsTransaction AccountPropertiesAddressTransaction
account_properties_address_is_transaction = record {
  get_abstract_transaction = λ tx. tx.abstract_transaction;
  set_abstract_transaction = λ a tx. record tx { abstract_transaction = a };
  size = λ tx. ok (address_properties_size tx);
  get_set = λ a tx. refl;
  set_get = λ tx. refl;
  set_set = λ a b tx. refl;
  size_set = size_set-account_properties_address;
}

pub size_set-account_properties_mosaic :
    (a : AbstractTransaction) (tx : AccountPropertiesMosaicTransaction)
    → ok (mosaic_properties_size (record tx { abstract_transaction = a }))
      ≡ ok (mosaic_properties_size tx)
unfolding mosaic_properties_size
size_set-account_properties_mosaic a tx = refl

instance abbrev pub account_properties_mosaic_is_transaction :
    IsTransaction AccountPropertiesMosaicTransaction
account_properties_mosaic_is_transaction = record {
  get_abstract_transaction = λ tx. tx.abstract_transaction;
  set_abstract_transaction = λ a tx. record tx { abstract_transaction = a };
  size = λ tx. ok (mosaic_properties_size tx);
  get_set = λ a tx. refl;
  set_get = λ tx. refl;
  set_set = λ a b tx. refl;
  size_set = size_set-account_properties_mosaic;
}

pub size_set-account_properties_entity_type :
    (a : AbstractTransaction) (tx : AccountPropertiesEntityTypeTransaction)
    → ok (entity_type_properties_size (record tx { abstract_transaction = a }))
      ≡ ok (entity_type_properties_size tx)
unfolding entity_type_properties_size
size_set-account_properties_entity_type a tx = refl

instance abbrev pub account_properties_entity_type_is_transaction :
    IsTransaction AccountPropertiesEntityTypeTransaction
account_properties_entity_type_is_transaction = record {
  get_abstract_transaction = λ tx. tx.abstract_transaction;
  set_abstract_transaction = λ a tx. record tx { abstract_transaction = a };
  size = λ tx. ok (entity_type_properties_size tx);
  get_set = λ a tx. refl;
  set_get = λ tx. refl;
  set_set = λ a b tx. refl;
  size_set = size_set-account_properties_entity_type;
}

pub size_set-modify_metadata_address :
    (a : AbstractTransaction) (tx : ModifyMetadataAddressTransaction)
    → ok (
        metadata_address_size (record tx {
          modify_metadata_transaction = record tx.modify_metadata_transaction {
            abstract_transaction = a;
          };
        }))
      ≡ ok (metadata_address_size tx)
unfolding metadata_address_size
size_set-modify_metadata_address a tx = refl

instance abbrev pub modify_metadata_address_is_transaction :
    IsTransaction ModifyMetadataAddressTransaction
modify_metadata_address_is_transaction = record {
  get_abstract_transaction = λ tx. tx.modify_metadata_transaction.abstract_transaction;
  set_abstract_transaction = λ a tx. record tx {
    modify_metadata_transaction = record tx.modify_metadata_transaction {
      abstract_transaction = a;
    };
  };
  size = λ tx. ok (metadata_address_size tx);
  get_set = λ a tx. refl;
  set_get = λ tx. refl;
  set_set = λ a b tx. refl;
  size_set = size_set-modify_metadata_address;
}

pub size_set-modify_metadata_mosaic :
    (a : AbstractTransaction) (tx : ModifyMetadataMosaicTransaction)
    → ok (
        metadata_mosaic_size (record tx {
          modify_metadata_transaction = record tx.modify_metadata_transaction {
            abstract_transaction = a;
          };
        }))
      ≡ ok (metadata_mosaic_size tx)
unfolding metadata_mosaic_size
size_set-modify_metadata_mosaic a tx = refl

instance abbrev pub modify_metadata_mosaic_is_transaction :
    IsTransaction ModifyMetadataMosaicTransaction
modify_metadata_mosaic_is_transaction = record {
  get_abstract_transaction = λ tx. tx.modify_metadata_transaction.abstract_transaction;
  set_abstract_transaction = λ a tx. record tx {
    modify_metadata_transaction = record tx.modify_metadata_transaction {
      abstract_transaction = a;
    };
  };
  size = λ tx. ok (metadata_mosaic_size tx);
  get_set = λ a tx. refl;
  set_get = λ tx. refl;
  set_set = λ a b tx. refl;
  size_set = size_set-modify_metadata_mosaic;
}

pub size_set-modify_metadata_namespace :
    (a : AbstractTransaction) (tx : ModifyMetadataNamespaceTransaction)
    → ok (
        metadata_namespace_size (record tx {
          modify_metadata_transaction = record tx.modify_metadata_transaction {
            abstract_transaction = a;
          };
        }))
      ≡ ok (metadata_namespace_size tx)
unfolding metadata_namespace_size
size_set-modify_metadata_namespace a tx = refl

instance abbrev pub modify_metadata_namespace_is_transaction :
    IsTransaction ModifyMetadataNamespaceTransaction
modify_metadata_namespace_is_transaction = record {
  get_abstract_transaction = λ tx. tx.modify_metadata_transaction.abstract_transaction;
  set_abstract_transaction = λ a tx. record tx {
    modify_metadata_transaction = record tx.modify_metadata_transaction {
      abstract_transaction = a;
    };
  };
  size = λ tx. ok (metadata_namespace_size tx);
  get_set = λ a tx. refl;
  set_get = λ tx. refl;
  set_set = λ a b tx. refl;
  size_set = size_set-modify_metadata_namespace;
}

pub size_set-modify_multisig_account :
    (a : AbstractTransaction) (tx : ModifyMultisigAccountTransaction)
    → ok (ModifyMultisig.size (record tx { abstract_transaction = a }))
      ≡ ok (ModifyMultisig.size tx)
unfolding ModifyMultisig.size
size_set-modify_multisig_account a tx = refl

instance abbrev pub modify_multisig_account_is_transaction :
    IsTransaction ModifyMultisigAccountTransaction
modify_multisig_account_is_transaction = record {
  get_abstract_transaction = λ tx. tx.abstract_transaction;
  set_abstract_transaction = λ a tx. record tx { abstract_transaction = a };
  size = λ tx. ok (ModifyMultisig.size tx);
  get_set = λ a tx. refl;
  set_get = λ tx. refl;
  set_set = λ a b tx. refl;
  size_set = size_set-modify_multisig_account;
}

pub size_set-modify_contract :
    (a : AbstractTransaction) (tx : ModifyContractTransaction)
    → ok (ModifyContract.size (record tx { abstract_transaction = a }))
      ≡ ok (ModifyContract.size tx)
unfolding ModifyContract.size
size_set-modify_contract a tx = refl

instance abbrev pub modify_contract_is_transaction : IsTransaction ModifyContractTransaction
modify_contract_is_transaction = record {
  get_abstract_transaction = λ tx. tx.abstract_transaction;
  set_abstract_transaction = λ a tx. record tx { abstract_transaction = a };
  size = λ tx. ok (ModifyContract.size tx);
  get_set = λ a tx. refl;
  set_get = λ tx. refl;
  set_set = λ a b tx. refl;
  size_set = size_set-modify_contract;
}
