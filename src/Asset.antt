-- ===== src/Asset.antt =====
-- Asset identifiers and mosaics: the pure parts of sdk/namespace_model.go, sdk/mosaic_model.go,
-- sdk/mosaic_internal.go and sdk/namespace_internal.go, with `assetIdDTO` of sdk/sdk_internal.go.
pub mod Identifiers
pub mod Properties
pub mod Nonce
use go_xpx_chain_sdk.Base.{
  ℕ, ◌+◌, ◌*◌, ◌%◌, ◌^◌, List, [], ◌∷◌, Bool, not, ◌&&◌, Option, none, some, ◌==◌, Bytes,
  if◌then◌else◌, Result, ok, err, ◌>>=◌, err_wrong_bit_mosaic_id, err_wrong_bit_namespace_id,
  err_nil_asset_id, new_error,
}
use go_xpx_chain_sdk.Uint64.{u64, to_uint64, has_bits, uint64_to_hex}

abbrev pub namespace_bit : ℕ
namespace_bit = 2 ^ 63

pub record NamespaceId : Type 0 where
  pub base_int64 : ℕ

pub record MosaicId : Type 0 where
  pub base_int64 : ℕ

-- The interface `AssetId` and the two types that implement it.
pub data AssetId : Type 0 where
  namespace_asset : NamespaceId → AssetId
  mosaic_asset : MosaicId → AssetId

pub data AssetIdType : Type 0 where
  namespace_asset_id_type mosaic_asset_id_type : AssetIdType

-- `AssetId.Type`
unfoldable pub asset_type : AssetId → AssetIdType
asset_type (namespace_asset n) = namespace_asset_id_type
asset_type (mosaic_asset m) = mosaic_asset_id_type

-- `AssetId.Id`
unfoldable pub id : AssetId → ℕ
id (namespace_asset n) = n.base_int64
id (mosaic_asset m) = m.base_int64

-- `AssetId.Equals` compares the numbers and not the types.
unfoldable pub equals : AssetId → AssetId → Bool
unfolding id
equals a b = id a == id b

-- `AssetId.String`
unfoldable pub to_hex_string : AssetId → Bytes
unfolding id uint64_to_hex
to_hex_string a = uint64_to_hex (id a)

unfoldable pub new_namespace_id : ℕ → Result NamespaceId
new_namespace_id n =
    if not (n == 0) && not (has_bits n namespace_bit)
    then err err_wrong_bit_namespace_id
    else ok (record { base_int64 = n })

unfoldable pub new_mosaic_id : ℕ → Result MosaicId
new_mosaic_id n =
    if has_bits n namespace_bit then err err_wrong_bit_mosaic_id else ok (record { base_int64 = n })

-- `namespaceIdDTO.toStruct`, `mosaicIdDTO.toStruct`, `assetIdDTO.toStruct`
unfoldable pub namespace_id_dto_to_struct : ℕ × ℕ → Result NamespaceId
unfolding new_namespace_id
namespace_id_dto_to_struct dto = new_namespace_id (to_uint64 dto)

unfoldable pub mosaic_id_dto_to_struct : ℕ × ℕ → Result MosaicId
unfolding new_mosaic_id
mosaic_id_dto_to_struct dto = new_mosaic_id (to_uint64 dto)

unfoldable pub asset_id_dto_to_struct : ℕ × ℕ → Result AssetId
unfolding namespace_id_dto_to_struct mosaic_id_dto_to_struct
asset_id_dto_to_struct dto =
    if has_bits (to_uint64 dto) namespace_bit
    then (do n ← namespace_id_dto_to_struct dto; ok (namespace_asset n))
    else (do m ← mosaic_id_dto_to_struct dto; ok (mosaic_asset m))

pub record Mosaic : Type 0 where
  pub asset_id : AssetId
  pub amount : ℕ

-- `NewMosaic`; an interface value may be nil.
unfoldable pub new_mosaic : Option AssetId → ℕ → Result Mosaic
new_mosaic none amount = err err_nil_asset_id
new_mosaic (some a) amount = ok (record { asset_id = a; amount = amount })

-- `mosaicDTO.toStruct`
unfoldable pub mosaic_dto_to_struct : (ℕ × ℕ) × (ℕ × ℕ) → Result Mosaic
unfolding new_mosaic
mosaic_dto_to_struct (asset, amount) = do
  a ← asset_id_dto_to_struct asset
  new_mosaic (some a) (to_uint64 amount)

-- `mosaicIdDTOs.toStruct` and `namespaceIdDTOs.toStruct`: the first bad identifier ends the loop.
unfoldable pub mosaic_id_dtos_to_struct : List (ℕ × ℕ) → Result (List MosaicId)
mosaic_id_dtos_to_struct [] = ok []
mosaic_id_dtos_to_struct (m ∷ ms) = do
  first ← mosaic_id_dto_to_struct m
  rest ← mosaic_id_dtos_to_struct ms
  ok (first ∷ rest)

unfoldable pub namespace_id_dtos_to_struct : List (ℕ × ℕ) → Result (List NamespaceId)
namespace_id_dtos_to_struct [] = ok []
namespace_id_dtos_to_struct (n ∷ ns) = do
  first ← namespace_id_dto_to_struct n
  rest ← namespace_id_dtos_to_struct ns
  ok (first ∷ rest)

pub data MosaicPropertyId : Type 0 where
  flags_id divisibility_id duration_id : MosaicPropertyId

-- A property identifier is a byte.
abbrev pub property_id : ℕ → Option MosaicPropertyId
property_id n =
    if n == 0
    then some flags_id
    else if n == 1
    then some divisibility_id
    else if n == 2
    then some duration_id
    else none

pub record MosaicProperty : Type 0 where
  pub property : ℕ
  pub value : ℕ

pub record MosaicProperties : Type 0 where
  pub supply_mutable : Bool
  pub transferable : Bool
  pub divisibility : ℕ
  pub optional_properties : List MosaicProperty

unfoldable pub new_mosaic_properties : Bool → Bool → ℕ → ℕ → MosaicProperties
new_mosaic_properties supply_mutable transferable divisibility duration = record {
  supply_mutable = supply_mutable;
  transferable = transferable;
  divisibility = divisibility;
  optional_properties =
      if duration == 0 then [] else (record { property = 2; value = duration }) ∷ [];
}

-- `MosaicProperties.Duration`
unfoldable pub find_duration : List MosaicProperty → ℕ
find_duration [] = 0
find_duration (p ∷ ps) = if p.property == 2 then p.value else find_duration ps

unfoldable pub duration : MosaicProperties → ℕ
unfolding find_duration
duration properties = find_duration properties.optional_properties

-- The loop of `mosaicPropertiesDTO.toStruct` over the three variables that it sets.
abbrev set_property : Option MosaicPropertyId → ℕ → ℕ × ℕ × ℕ → Result (ℕ × ℕ × ℕ)
set_property none value (f, v, d) = err (new_error "Unknown Property Id")
set_property (some flags_id) value (f, v, d) = ok (value, v, d)
set_property (some divisibility_id) value (f, v, d) = ok (f, value % 256, d)
set_property (some duration_id) value (f, v, d) = ok (f, v, value)

unfoldable pub read_properties : List (ℕ × (ℕ × ℕ)) → ℕ × ℕ × ℕ → Result (ℕ × ℕ × ℕ)
read_properties [] acc = ok acc
read_properties ((p, dto) ∷ ps) acc = do
  next ← set_property (property_id p) (to_uint64 dto) acc
  read_properties ps next

unfoldable pub mosaic_properties_dto_to_struct : List (ℕ × (ℕ × ℕ)) → Result MosaicProperties
unfolding read_properties new_mosaic_properties
mosaic_properties_dto_to_struct dto = do
  (flags, divisibility, duration) ← read_properties dto (0, 0, 0)
  ok (new_mosaic_properties (has_bits flags 1) (has_bits flags 2) divisibility duration)
