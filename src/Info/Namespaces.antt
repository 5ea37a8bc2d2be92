-- ===== src/Info/Namespaces.antt =====
-- sdk/namespace_internal.go: names, aliases and infos of namespaces.
use go_xpx_chain_sdk.Base.{
  Bool, Bytes, List, Option, Result, [], deref, err, err_nil_namespace_id, if◌then◌else◌, none, ok,
  some, ℕ, ◌%◌, ◌++◌, ◌==◌, ◌>>=◌, ◌∷◌,
}
use go_xpx_chain_sdk.Account.{new_account_from_public_key, new_address_from_base32}
use go_xpx_chain_sdk.Asset.{
  MosaicId, NamespaceId, mosaic_id_dto_to_struct, namespace_id_dto_to_struct,
}
use go_xpx_chain_sdk.Info.{all_to_struct}
use go_xpx_chain_sdk.Secret.{Hashes}
use go_xpx_chain_sdk.Transaction.{Address, PublicAccount}
use go_xpx_chain_sdk.Uint64.{to_uint64}

pub record NamespaceName : Type 0 where
  pub namespace_id : NamespaceId
  pub full_name : Bytes

unfoldable pub namespace_name_dto_to_struct : (ℕ × ℕ) × Bytes → Result NamespaceName
unfolding namespace_id_dto_to_struct
namespace_name_dto_to_struct (id, full_name) = do
  namespace_id ← namespace_id_dto_to_struct id
  ok (record { namespace_id = namespace_id; full_name = full_name })

unfoldable pub namespace_name_dtos_to_struct : List ((ℕ × ℕ) × Bytes) → Result (List NamespaceName)
unfolding all_to_struct namespace_name_dto_to_struct
namespace_name_dtos_to_struct dtos = all_to_struct namespace_name_dto_to_struct dtos

pub record NamespaceAliasDto : Type 0 where
  pub mosaic_id : Option (ℕ × ℕ)
  pub address : Bytes
  pub type : ℕ

pub record NamespaceAlias : Type 0 where
  pub mosaic_id : Option MosaicId
  pub address : Option Address
  pub type : ℕ

abbrev pub address_alias_type : ℕ
address_alias_type = 2

abbrev pub mosaic_alias_type : ℕ
mosaic_alias_type = 1

-- Another type gives an alias of nothing.
unfoldable pub namespace_alias_dto_to_struct : NamespaceAliasDto → Result NamespaceAlias
unfolding new_address_from_base32 mosaic_id_dto_to_struct
namespace_alias_dto_to_struct dto =
    if dto.type == address_alias_type
    then (do
      a ← new_address_from_base32 dto.address
      ok (record { mosaic_id = none; address = some a; type = dto.type }))
    else if dto.type == mosaic_alias_type
    then (do
      id ← deref dto.mosaic_id
      mosaic_id ← mosaic_id_dto_to_struct id
      ok (record { mosaic_id = some mosaic_id; address = none; type = dto.type }))
    else ok (record { mosaic_id = none; address = none; type = dto.type })

-- `namespaceInfoDTO`, with what is used of its meta data.
pub record NamespaceInfoDto : Type 0 where
  pub active : Bool
  pub type : ℕ
  pub depth : ℕ
  pub level0 : Option (ℕ × ℕ)
  pub level1 : Option (ℕ × ℕ)
  pub level2 : Option (ℕ × ℕ)
  pub alias : Option NamespaceAliasDto
  pub parent_id : ℕ × ℕ
  pub owner : Bytes
  pub start_height : ℕ × ℕ
  pub end_height : ℕ × ℕ

-- The parent is a pointer to an info of which only the identifier is set.
pub record NamespaceInfo : Type 0 where
  pub namespace_id : NamespaceId
  pub active : Bool
  pub type_space : ℕ
  pub depth : ℕ
  pub levels : List NamespaceId
  pub alias : Option NamespaceAlias
  pub parent : Option NamespaceId
  pub owner : PublicAccount
  pub start_height : ℕ
  pub end_height : ℕ

unfoldable pub extract_level : Option (ℕ × ℕ) → List NamespaceId → Result (List NamespaceId)
unfolding namespace_id_dto_to_struct
extract_level none levels = ok levels
extract_level (some level) levels = do
  ns_name ← namespace_id_dto_to_struct level
  ok (levels ++ (ns_name ∷ []))

unfoldable pub extract_levels : NamespaceInfoDto → Result (List NamespaceId)
unfolding extract_level
extract_levels ref = do
  levels0 ← extract_level ref.level0 []
  levels1 ← extract_level ref.level1 levels0
  extract_level ref.level2 levels1

-- `levels[len(levels)-1]`, where there are levels.
unfoldable pub last_level : List NamespaceId → Result NamespaceId
last_level [] = err err_nil_namespace_id
last_level (n ∷ []) = ok n
last_level (n ∷ (m ∷ ns)) = last_level (m ∷ ns)

abbrev pub parent_of : NamespaceId → Option NamespaceId
parent_of id = if id.base_int64 == 0 then none else some id

module _ (crypto : Hashes) where
  -- An alias that is nil is followed.
  unfoldable pub namespace_info_dto_to_struct : NamespaceInfoDto → Result NamespaceInfo
  unfolding extract_levels last_level namespace_alias_dto_to_struct new_account_from_public_key
      namespace_id_dto_to_struct
  namespace_info_dto_to_struct ref = do
    pub_acc ← new_account_from_public_key crypto ref.owner (ref.type % 256)
    parent_id ← namespace_id_dto_to_struct ref.parent_id
    levels ← extract_levels ref
    namespace_id ← last_level levels
    alias_dto ← deref ref.alias
    alias ← namespace_alias_dto_to_struct alias_dto
    ok (record {
      namespace_id = namespace_id;
      active = ref.active;
      type_space = ref.type;
      depth = ref.depth;
      levels = levels;
      alias = some alias;
      parent = parent_of parent_id;
      owner = pub_acc;
      start_height = to_uint64 ref.start_height;
      end_height = to_uint64 ref.end_height;
    })

  unfoldable pub namespace_info_dtos_to_struct : List NamespaceInfoDto → Result (List NamespaceInfo)
  unfolding all_to_struct namespace_info_dto_to_struct
  namespace_info_dtos_to_struct dtos = all_to_struct namespace_info_dto_to_struct dtos
