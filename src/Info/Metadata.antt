-- ===== src/Info/Metadata.antt =====
-- sdk/metadata_internal.go and sdk/contract_internal.go: infos of metadata and of contracts.
use go_xpx_chain_sdk.Base.{
  Bool-cases, Bytes, List, Option, Result, [], ap, false, if◌then◌else◌, inl, inr, none, ok, refl,
  some, sym, ℕ, ◌>>=◌, ◌∙◌, ◌∷◌, ◌≡◌,
}
use go_xpx_chain_sdk.Account.{new_address, new_address_from_base32}
use go_xpx_chain_sdk.Asset.{
  MosaicId, NamespaceId, mosaic_id_dto_to_struct, namespace_id_dto_to_struct,
}
use go_xpx_chain_sdk.Base.Text.{if_twice, same, same-eq, same_refl}
use go_xpx_chain_sdk.Info.{all_to_struct}
use go_xpx_chain_sdk.Transaction.{Address}
use go_xpx_chain_sdk.Transaction.Responses.{hash_dto_hash}
use go_xpx_chain_sdk.Uint64.{to_uint64}

-- `map[string]string`, found by key.
abbrev pub MetadataFields : Type 0
MetadataFields = List (Bytes × Bytes)

unfoldable pub set_value : Bytes → Bytes → MetadataFields → MetadataFields
unfolding same
set_value key value [] = (key, value) ∷ []
set_value key value ((k, v) ∷ rest) =
    let others = set_value key value rest in
    if same k key then (key, value) ∷ rest else (k, v) ∷ others

unfoldable pub value_of : Bytes → MetadataFields → Option Bytes
unfolding same
value_of key [] = none
value_of key ((k, v) ∷ rest) = let found = value_of key rest in if same k key then some v else found

-- `metadataInfoDTO`, whose fields are keys with values.
pub record MetadataInfoDto : Type 0 where
  pub metadata_type : ℕ
  pub fields : List (Bytes × Bytes)

pub record MetadataInfo : Type 0 where
  pub metadata_type : ℕ
  pub fields : MetadataFields

-- The loop over the fields.
unfoldable pub set_values : List (Bytes × Bytes) → MetadataFields → MetadataFields
unfolding set_value
set_values [] fields = fields
set_values ((key, value) ∷ more) fields = set_values more (set_value key value fields)

unfoldable pub metadata_info_dto_to_struct : MetadataInfoDto → MetadataInfo
unfolding set_values
metadata_info_dto_to_struct ref = record {
  metadata_type = ref.metadata_type;
  fields = set_values ref.fields [];
}

-- The address may be nil.
pub record AddressMetadataInfo : Type 0 where
  pub metadata_info : MetadataInfo
  pub address : Option Address

unfoldable pub address_metadata_info_dto_to_struct :
    MetadataInfoDto × Bytes → Result AddressMetadataInfo
unfolding metadata_info_dto_to_struct new_address_from_base32
address_metadata_info_dto_to_struct (ref, []) =
    ok (record { metadata_info = metadata_info_dto_to_struct ref; address = none })
address_metadata_info_dto_to_struct (ref, c ∷ text) = do
  a ← new_address_from_base32 (c ∷ text)
  ok (record { metadata_info = metadata_info_dto_to_struct ref; address = some a })

pub record MosaicMetadataInfo : Type 0 where
  pub metadata_info : MetadataInfo
  pub mosaic_id : MosaicId

unfoldable pub mosaic_metadata_info_dto_to_struct :
    MetadataInfoDto × (ℕ × ℕ) → Result MosaicMetadataInfo
unfolding metadata_info_dto_to_struct mosaic_id_dto_to_struct
mosaic_metadata_info_dto_to_struct (ref, id) = do
  mosaic_id ← mosaic_id_dto_to_struct id
  ok (record { metadata_info = metadata_info_dto_to_struct ref; mosaic_id = mosaic_id })

pub record NamespaceMetadataInfo : Type 0 where
  pub metadata_info : MetadataInfo
  pub namespace_id : NamespaceId

unfoldable pub namespace_metadata_info_dto_to_struct :
    MetadataInfoDto × (ℕ × ℕ) → Result NamespaceMetadataInfo
unfolding metadata_info_dto_to_struct namespace_id_dto_to_struct
namespace_metadata_info_dto_to_struct (ref, id) = do
  namespace_id ← namespace_id_dto_to_struct id
  ok (record { metadata_info = metadata_info_dto_to_struct ref; namespace_id = namespace_id })

unfoldable pub address_metadata_info_dtos_to_struct :
    List (MetadataInfoDto × Bytes) → Result (List AddressMetadataInfo)
unfolding all_to_struct address_metadata_info_dto_to_struct
address_metadata_info_dtos_to_struct dtos = all_to_struct address_metadata_info_dto_to_struct dtos

unfoldable pub mosaic_metadata_info_dtos_to_struct :
    List (MetadataInfoDto × (ℕ × ℕ)) → Result (List MosaicMetadataInfo)
unfolding all_to_struct mosaic_metadata_info_dto_to_struct
mosaic_metadata_info_dtos_to_struct dtos = all_to_struct mosaic_metadata_info_dto_to_struct dtos

unfoldable pub namespace_metadata_info_dtos_to_struct :
    List (MetadataInfoDto × (ℕ × ℕ)) → Result (List NamespaceMetadataInfo)
unfolding all_to_struct namespace_metadata_info_dto_to_struct
namespace_metadata_info_dtos_to_struct dtos =
    all_to_struct namespace_metadata_info_dto_to_struct dtos

pub record ContractInfoDto : Type 0 where
  pub multisig : Bytes
  pub multisig_address : Bytes
  pub start : ℕ × ℕ
  pub duration : ℕ × ℕ
  pub hash : Bytes
  pub customers : List Bytes
  pub executors : List Bytes
  pub verifiers : List Bytes

pub record ContractInfo : Type 0 where
  pub multisig : Bytes
  pub multisig_address : Address
  pub start : ℕ
  pub duration : ℕ
  pub content : Option Bytes
  pub customers : List Bytes
  pub executors : List Bytes
  pub verifiers : List Bytes

unfoldable pub contract_info_dto_to_struct : ℕ → ContractInfoDto → Result ContractInfo
unfolding hash_dto_hash new_address
contract_info_dto_to_struct network_type contract = do
  hash ← hash_dto_hash contract.hash
  ok (record {
    multisig = contract.multisig;
    multisig_address = new_address contract.multisig_address network_type;
    start = to_uint64 contract.start;
    duration = to_uint64 contract.duration;
    content = hash;
    customers = contract.customers;
    executors = contract.executors;
    verifiers = contract.verifiers;
  })

unfoldable pub contract_info_dtos_to_struct : ℕ → List ContractInfoDto → Result (List ContractInfo)
unfolding all_to_struct contract_info_dto_to_struct
contract_info_dtos_to_struct network_type dtos =
    all_to_struct (contract_info_dto_to_struct network_type) dtos

value_of-set_value :
    (key new value : Bytes) (fields : MetadataFields)
    → value_of key (set_value new value fields)
      ≡ (if same new key then some value else value_of key fields)
unfolding value_of set_value
value_of-set_value key new value [] = refl
value_of-set_value key new value ((k, v) ∷ rest) = elim (Bool-cases (same k new)) [
  | inl t ↦
      let is_new : k ≡ new = same-eq k new t in
      rw (is_new, same_refl new) (if_twice (same new key) (some value) (some v) (value_of key rest))
  | inr f ↦ elim (Bool-cases (same new key)) [
    | inl t ↦
        let is_key : new ≡ key = same-eq new key t in
        let other : same k key ≡ false = ap (same k) (sym is_key) ∙ f in
        rw (f, other, value_of-set_value key new value rest, t) refl
    | inr g ↦ rw (f, value_of-set_value key new value rest, g) refl
  ]
]

-- The last value that a list of fields gives a key, or else another one.
pub last_value : Bytes → List (Bytes × Bytes) → Option Bytes → Option Bytes
unfolding same
last_value key [] other = other
last_value key ((k, v) ∷ more) other = last_value key more (if same k key then some v else other)

-- The fields of an info have for every key the last value of the response, whatever keys it repeats.
pub metadata_info_dto_to_struct_lem :
    (ref : MetadataInfoDto) (key : Bytes)
    → value_of key (metadata_info_dto_to_struct ref).fields ≡ last_value key ref.fields none
unfolding metadata_info_dto_to_struct value_of set_values last_value
metadata_info_dto_to_struct_lem ref key = values ref.fields []
  where
    values :
        (more : List (Bytes × Bytes)) (fields : MetadataFields)
        → value_of key (set_values more fields) ≡ last_value key more (value_of key fields)
    values [] fields = refl
    values ((k, v) ∷ more) fields =
        values more (set_value k v fields)
        ∙ ap (last_value key more) (value_of-set_value key k v fields)
