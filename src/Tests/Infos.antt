-- ===== src/Tests/Infos.antt =====
-- A mosaic and two namespaces that are resolved to mosaics.
use go_xpx_chain_sdk.Base.{List, Result, [], map, none, ok, refl, replicate, some, true, ◌∷◌, ◌≡◌}
use go_xpx_chain_sdk.Asset.{
  MosaicId, NamespaceId, mosaic_asset, namespace_asset, new_mosaic_properties,
}
use go_xpx_chain_sdk.Info.Mosaics.{MosaicInfo}
use go_xpx_chain_sdk.Info.Namespaces.{NamespaceAlias, NamespaceInfo, mosaic_alias_type}
use go_xpx_chain_sdk.Info.Resolver.{
  AreResolved, a_mosaic, a_namespace, get_mosaic_infos_by_asset_ids,
  get_mosaic_infos_by_asset_ids_lem, no_identifier, no_namespace, one_namespace,
}
use go_xpx_chain_sdk.Tests.Samples.{prx, recipient}
use go_xpx_chain_sdk.Transaction.{PublicAccount}

abbrev owner : PublicAccount
owner = record { address = recipient; public_key = replicate 64 b'a' }

abbrev mosaic : MosaicId
mosaic = record { base_int64 = 0x0dc67fbe1cad29e3 }

abbrev mosaic_info : MosaicInfo
mosaic_info = record {
  mosaic_id = mosaic;
  supply = 100;
  height = 1;
  owner = owner;
  revision = 1;
  properties = new_mosaic_properties true true 0 0;
}

abbrev namespace_info : NamespaceInfo
namespace_info = record {
  namespace_id = prx;
  active = true;
  type_space = 0;
  depth = 1;
  levels = prx ∷ [];
  alias = some (record { mosaic_id = some mosaic; address = none; type = mosaic_alias_type });
  parent = none;
  owner = owner;
  start_height = 1;
  end_height = 2;
}

-- Every mosaic is known, and every namespace is an alias of the mosaic with its number.
abbrev info_of : MosaicId → MosaicInfo
info_of m = record mosaic_info { mosaic_id = m }

abbrev same_number : NamespaceId → MosaicId
same_number n = record { base_int64 = n.base_int64 }

abbrev alias_of : NamespaceId → NamespaceAlias
alias_of n = record { mosaic_id = some (same_number n); address = none; type = mosaic_alias_type }

abbrev known : NamespaceId → Result NamespaceInfo
known n = ok (record namespace_info { namespace_id = n; alias = some (alias_of n) })

abbrev infos_of : List MosaicId → Result (List MosaicInfo)
infos_of ms = ok (map info_of ms)

abbrev other_space : NamespaceId
other_space = record { base_int64 = 0x85bbea6cc462b244 }

two-AreResolved :
    AreResolved known
      (λ m. ok (info_of m))
      infos_of
      (prx ∷ (other_space ∷ []))
      (info_of (same_number prx) ∷ (info_of (same_number other_space) ∷ []))
two-AreResolved = one_namespace refl refl refl refl (one_namespace refl refl refl refl no_namespace)

get_mosaic_infos_by_asset_ids_lem_example :
    get_mosaic_infos_by_asset_ids known
      (λ m. ok (info_of m))
      infos_of
      (some (namespace_asset prx)
        ∷ (some (mosaic_asset mosaic) ∷ (some (namespace_asset other_space) ∷ [])))
    ≡ ok (
        some (info_of mosaic)
        ∷ (some (info_of (same_number prx)) ∷ (some (info_of (same_number other_space)) ∷ [])))
get_mosaic_infos_by_asset_ids_lem_example =
    get_mosaic_infos_by_asset_ids_lem known (λ m. ok (info_of m)) infos_of
      (some (namespace_asset prx))
      (some (mosaic_asset mosaic) ∷ (some (namespace_asset other_space) ∷ []))
      (prx ∷ (other_space ∷ [])) (mosaic ∷ []) (info_of mosaic ∷ [])
      (info_of (same_number prx) ∷ (info_of (same_number other_space) ∷ []))
      (a_namespace prx (a_mosaic mosaic (a_namespace other_space no_identifier)))
      (λ some_mosaic. refl) two-AreResolved
