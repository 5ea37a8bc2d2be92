-- ===== src/Tests/Values.antt =====
-- Concrete identifiers, versions and names.
use Prim.Native.Nat.{bit_or}
use go_xpx_chain_sdk.Base.{
  Bytes, List, [], arith, length, ok, refl, replicate, some, true, ◌%◌, ◌++◌, ◌^◌, ◌↔◌, ◌∷◌, ◌≡◌,
  ◌≤◌,
}
use go_xpx_chain_sdk.Account.{mijin_test}
use go_xpx_chain_sdk.Asset.{NamespaceId, namespace_bit, new_namespace_id}
use go_xpx_chain_sdk.Namespace.{
  generate_namespace_id, generate_namespace_path, last, little_endian_uint64,
  new_namespace_id_from_name, path_from, split, valid_namespace,
}
use go_xpx_chain_sdk.Namespace.Paths.{
  all_namespaces, are_valid, generate_namespace_id_total, generate_namespace_path_iff,
  generate_namespace_path_lem, new_namespace_id_from_name-dot,
}
use go_xpx_chain_sdk.Tests.Samples.{deadline}
use go_xpx_chain_sdk.Transaction.RegisterNamespace.{
  RegisterNamespaceTransaction, new_register_sub_namespace_transaction, registered_identifier,
}
use go_xpx_chain_sdk.Uint64.{get_two_bytes_by_shift, has_bits, new_block_chain_version}
use go_xpx_chain_sdk.Uint64.Version.{version_components}
use go_xpx_chain_sdk.Word.{from_le}

version_components_example :
    let v = new_block_chain_version 1 300 2 7 in
    (get_two_bytes_by_shift v 48 ≡ 1 % 256)
    × (get_two_bytes_by_shift v 32 ≡ 300 % 256)
    × (get_two_bytes_by_shift v 16 ≡ 2 % 256)
    × (get_two_bytes_by_shift v 0 ≡ 7 % 256)
version_components_example =
    version_components 1 300 2 7 (omega arith) (omega arith) (omega arith) (omega arith)

-- A digest that is the same for every text, with the top bit of its first eight bytes unset.
abbrev sha3 : Bytes → Bytes
sha3 b = replicate 32 17

sha3_digest : (b : Bytes) → length (sha3 b) ≡ 32
sha3_digest b = refl

abbrev prx : Bytes
prx = b'p' ∷ (b'r' ∷ (b'x' ∷ []))

abbrev xpx : Bytes
xpx = b'x' ∷ (b'p' ∷ (b'x' ∷ []))

abbrev hashed : NamespaceId
hashed = record { base_int64 = bit_or 0x1111111111111111 (2 ^ 63) }

generate_namespace_id_total_example :
    (n : NamespaceId) × (generate_namespace_id sha3 xpx 7 ≡ ok n)
    × (has_bits n.base_int64 namespace_bit ≡ true)
generate_namespace_id_total_example = generate_namespace_id_total sha3 sha3_digest xpx 7

generate_namespace_path_iff_example :
    ((path : List NamespaceId) × (generate_namespace_path sha3 (prx ++ (b'.' ∷ xpx)) ≡ ok path)) ↔ (
      (length (split (prx ++ (b'.' ∷ xpx))) ≤ 3) × (are_valid (split (prx ++ (b'.' ∷ xpx))) ≡ true))
generate_namespace_path_iff_example =
    generate_namespace_path_iff sha3 sha3_digest (prx ++ (b'.' ∷ xpx))

prx_path : generate_namespace_path sha3 prx ≡ ok (hashed ∷ [])
unfolding generate_namespace_path path_from generate_namespace_id valid_namespace split
    new_namespace_id little_endian_uint64 has_bits from_le
prx_path = refl

generate_namespace_path_lem_example :
    (length (hashed ∷ []) ≡ length (split prx))
    × (length (hashed ∷ []) ≤ 3)
    × (all_namespaces (hashed ∷ []) ≡ true)
generate_namespace_path_lem_example = generate_namespace_path_lem sha3 sha3_digest prx prx_path

prx_known : new_namespace_id_from_name sha3 prx ≡ ok hashed
unfolding new_namespace_id_from_name last
prx_known = rw prx_path refl

two_parts : length (split prx) ≤ 2
unfolding split
two_parts = omega arith

xpx_valid : valid_namespace xpx ≡ true
unfolding valid_namespace
xpx_valid = refl

new_namespace_id_from_name-dot_example :
    new_namespace_id_from_name sha3 (prx ++ (b'.' ∷ xpx))
    ≡ generate_namespace_id sha3 xpx hashed.base_int64
new_namespace_id_from_name-dot_example =
    new_namespace_id_from_name-dot sha3 sha3_digest prx xpx prx_known two_parts xpx_valid

registered_identifier_example :
    (tx : RegisterNamespaceTransaction) × (new_register_sub_namespace_transaction sha3 deadline xpx
        (some hashed)
        mijin_test
      ≡ ok tx)
    × (new_namespace_id_from_name sha3 (prx ++ (b'.' ∷ xpx)) ≡ ok tx.namespace_id)
    × (tx.parent_id ≡ some hashed)
registered_identifier_example =
    registered_identifier sha3 sha3_digest deadline prx xpx hashed mijin_test prx_known
      (omega arith) two_parts xpx_valid
