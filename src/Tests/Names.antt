-- ===== src/Tests/Names.antt =====
-- Concrete aliases and registrations.
use go_xpx_chain_sdk.Transaction.Alias
use go_xpx_chain_sdk.Transaction.RegisterNamespace
use go_xpx_chain_sdk.Asset.{id}
use go_xpx_chain_sdk.Base.{[], arith, length, ok, refl, some, true, ◌++◌, ◌∷◌, ◌≡◌}
use go_xpx_chain_sdk.Schema.Format.{bytes_at, finished, number_at, offset_at, reads, slots_hold}
use go_xpx_chain_sdk.Tests.Flatbuffer.{layout}
use go_xpx_chain_sdk.Tests.Samples.{decoded, head, head-Carries, prx, recipient, recipient_decodes}
use go_xpx_chain_sdk.Transaction.{
  deadline_timestamp, new_abstract_transaction, to_blockchain_timestamp,
}
use go_xpx_chain_sdk.Transaction.Alias.{
  AddressAliasTransaction, address_alias-wire, address_alias_size, generate_address_alias_bytes,
}
use go_xpx_chain_sdk.Transaction.Entities.{
  address_alias_version, entity_address_alias, entity_register_namespace,
  register_namespace_version,
}
use go_xpx_chain_sdk.Transaction.Header.{header_bytes}
use go_xpx_chain_sdk.Transaction.RegisterNamespace.{
  RegisterNamespaceTransaction, of_parent, register_namespace-wire,
}
use go_xpx_chain_sdk.Transaction.Sizes.{address_size}
use go_xpx_chain_sdk.Uint64.{uint64_to_array}
use go_xpx_chain_sdk.Word.{from_le, to_le, zeros}

abbrev address_alias : AddressAliasTransaction
address_alias = record {
  alias_transaction = record {
    abstract_transaction = head entity_address_alias address_alias_version;
    action_type = 0;
    namespace_id = prx;
  };
  address = recipient;
}

address_alias_written :
    finished
      (layout (Alias.object address_alias.alias_transaction decoded address_size))
      (Alias.object address_alias.alias_transaction decoded address_size)
    ≡ true
unfolding finished layout Alias.object to_le new_abstract_transaction zeros number_at bytes_at
    from_le slots_hold offset_at reads uint64_to_array deadline_timestamp to_blockchain_timestamp id
address_alias_written = refl

address_alias-wire_example :
    (Alias.generate_address_alias_bytes layout address_alias
      ≡ ok (
          header_bytes
            (Alias.address_alias_size address_alias)
            address_alias.alias_transaction.abstract_transaction
          ++ Alias.body address_alias.alias_transaction decoded))
    × (length (
          header_bytes
            (Alias.address_alias_size address_alias)
            address_alias.alias_transaction.abstract_transaction
          ++ Alias.body address_alias.alias_transaction decoded)
        ≡ Alias.address_alias_size address_alias)
address_alias-wire_example =
    address_alias-wire layout address_alias decoded
      (head-Carries entity_address_alias address_alias_version) recipient_decodes refl
      address_alias_written

abbrev registration : RegisterNamespaceTransaction
registration = record {
  abstract_transaction = head entity_register_namespace register_namespace_version;
  namespace_id = prx;
  namespace_type = 1;
  namespace_name = b'x' ∷ (b'p' ∷ (b'x' ∷ []));
  duration = 0;
  parent_id = some prx;
}

registration_written :
    finished
      (layout (RegisterNamespace.object registration 0xb16d77fd8b6fb3be))
      (RegisterNamespace.object registration 0xb16d77fd8b6fb3be)
    ≡ true
unfolding finished layout RegisterNamespace.object to_le new_abstract_transaction zeros number_at
    bytes_at from_le slots_hold offset_at reads uint64_to_array deadline_timestamp
    to_blockchain_timestamp id
registration_written = refl

register_namespace-wire_example :
    (RegisterNamespace.generate_bytes layout registration
      ≡ ok (
          header_bytes (RegisterNamespace.size registration) registration.abstract_transaction
          ++ RegisterNamespace.body registration 0xb16d77fd8b6fb3be))
    × (length (
          header_bytes (RegisterNamespace.size registration) registration.abstract_transaction
          ++ RegisterNamespace.body registration 0xb16d77fd8b6fb3be)
        ≡ RegisterNamespace.size registration)
register_namespace-wire_example =
    register_namespace-wire layout registration 0xb16d77fd8b6fb3be
      (head-Carries entity_register_namespace register_namespace_version)
      (of_parent (λ e. omega arith) refl) (omega arith) registration_written
