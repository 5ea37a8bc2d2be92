-- ===== src/Info/Resolver.antt =====
-- sdk/resolver.go. The services it asks, which send requests to a node, are parameters.
use go_xpx_chain_sdk.Base.{
  List, Option, Result, [], ap, append-nil, append_assoc, err, err_empty_asset_ids,
  err_nil_asset_id, length, map, new_error, none, ok, refl, replicate, some, sym, ℕ, ◌++◌, ◌>>=◌,
  ◌∙◌, ◌∷◌, ◌≡◌, ◌≢◌,
}
use go_xpx_chain_sdk.Asset.{AssetId, MosaicId, NamespaceId, mosaic_asset, namespace_asset}
use go_xpx_chain_sdk.Info.Mosaics.{MosaicInfo}
use go_xpx_chain_sdk.Info.Namespaces.{NamespaceAlias, NamespaceInfo}

-- The namespaces and the mosaics among asset identifiers, in order. An identifier may be nil.
unfoldable pub by_type : List (Option AssetId) → Result (List NamespaceId × List MosaicId)
by_type [] = ok ([], [])
by_type (none ∷ ids) = err err_nil_asset_id
by_type (some (namespace_asset n) ∷ ids) = do (ns, ms) ← by_type ids; ok (n ∷ ns, ms)
by_type (some (mosaic_asset m) ∷ ids) = do (ns, ms) ← by_type ids; ok (ns, m ∷ ms)

abbrev not_aliased : Result MosaicInfo
not_aliased = err (new_error "Namespace is not aliased to Mosaic")

-- Which of some identifiers, none of them nil, are namespaces, and which are mosaics.
pub data AreSplit : List (Option AssetId) → List NamespaceId → List MosaicId → Type 0 where
  no_identifier : AreSplit [] [] []
  a_namespace :
      {ids : List (Option AssetId)} {ns : List NamespaceId} {ms : List MosaicId} (n : NamespaceId)
      → AreSplit ids ns ms
      → AreSplit (some (namespace_asset n) ∷ ids) (n ∷ ns) ms
  a_mosaic :
      {ids : List (Option AssetId)} {ns : List NamespaceId} {ms : List MosaicId} (m : MosaicId)
      → AreSplit ids ns ms
      → AreSplit (some (mosaic_asset m) ∷ ids) ns (m ∷ ms)

by_type_lem :
    {ids : List (Option AssetId)} {ns : List NamespaceId} {ms : List MosaicId}
    → AreSplit ids ns ms
    → by_type ids ≡ ok (ns, ms)
unfolding by_type
by_type_lem no_identifier = refl
by_type_lem (a_namespace n others) = rw (by_type_lem others) refl
by_type_lem (a_mosaic m others) = rw (by_type_lem others) refl

module _ (get_namespace_info : NamespaceId → Result NamespaceInfo)
    (get_mosaic_info : MosaicId → Result MosaicInfo)
    (get_mosaic_infos : List MosaicId → Result (List MosaicInfo)) where
  abbrev pub info_of_alias : Option NamespaceAlias → Result MosaicInfo
  info_of_alias none = not_aliased
  info_of_alias (some alias) = elim alias.mosaic_id [
    | none ↦ not_aliased
    | some m ↦ get_mosaic_info m
  ]

  unfoldable pub get_mosaic_info_by_asset_id : Option AssetId → Result MosaicInfo
  get_mosaic_info_by_asset_id none = err err_nil_asset_id
  get_mosaic_info_by_asset_id (some (namespace_asset n)) = do
    namespace_info ← get_namespace_info n
    info_of_alias namespace_info.alias
  get_mosaic_info_by_asset_id (some (mosaic_asset m)) = get_mosaic_info m

  -- The loop that resolves namespaces: `infos` is the slice so far, of pointers.
  unfoldable pub append_namespaces :
      List NamespaceId → List (Option MosaicInfo) → Result (List (Option MosaicInfo))
  unfolding get_mosaic_info_by_asset_id
  append_namespaces [] infos = ok infos
  append_namespaces (n ∷ ns) infos = do
    info ← get_mosaic_info_by_asset_id (some (namespace_asset n))
    append_namespaces ns (infos ++ (some info ∷ []))

  -- The slice before that loop: it is made as long as the identifiers are many, and replaced where there
  -- are mosaics among them.
  unfoldable pub infos_of_mosaics : ℕ → List MosaicId → Result (List (Option MosaicInfo))
  infos_of_mosaics count [] = ok (replicate count none)
  infos_of_mosaics count (m ∷ ms) = do infos ← get_mosaic_infos (m ∷ ms); ok (map some infos)

  unfoldable pub get_mosaic_infos_by_asset_ids :
      List (Option AssetId) → Result (List (Option MosaicInfo))
  unfolding by_type infos_of_mosaics append_namespaces
  get_mosaic_infos_by_asset_ids [] = err err_empty_asset_ids
  get_mosaic_infos_by_asset_ids (id ∷ ids) = do
    (ns, ms) ← by_type (id ∷ ids)
    infos ← infos_of_mosaics (length (id ∷ ids)) ms
    append_namespaces ns infos

  -- Namespaces with the infos of the mosaics that they are aliases of.
  pub data AreResolved : List NamespaceId → List MosaicInfo → Type 0 where
    no_namespace : AreResolved [] []
    one_namespace :
        {n : NamespaceId} {i : NamespaceInfo} {alias : NamespaceAlias} {m : MosaicId}
        {info : MosaicInfo} {ns : List NamespaceId} {infos : List MosaicInfo}
        → get_namespace_info n ≡ ok i
        → i.alias ≡ some alias
        → alias.mosaic_id ≡ some m
        → get_mosaic_info m ≡ ok info
        → AreResolved ns infos
        → AreResolved (n ∷ ns) (info ∷ infos)

  one_namespace_lem :
      (n : NamespaceId) (i : NamespaceInfo) (alias : NamespaceAlias) (m : MosaicId)
      (info : MosaicInfo)
      → get_namespace_info n ≡ ok i
      → i.alias ≡ some alias
      → alias.mosaic_id ≡ some m
      → get_mosaic_info m ≡ ok info
      → get_mosaic_info_by_asset_id (some (namespace_asset n)) ≡ ok info
  unfolding get_mosaic_info_by_asset_id
  one_namespace_lem n i alias m info known aliased to_mosaic there =
      rw (known, aliased, to_mosaic) there

  append_namespaces_lem :
      {ns : List NamespaceId} {resolved : List MosaicInfo} (infos : List (Option MosaicInfo))
      → AreResolved ns resolved
      → append_namespaces ns infos ≡ ok (infos ++ map some resolved)
  unfolding append_namespaces
  append_namespaces_lem infos no_namespace = ap ok (sym (append-nil infos))
  append_namespaces_lem infos
        (one_namespace {n} {i} {alias} {m} {info} {ns} {infos = rest} known aliased to_mosaic there
          others) =
      rw (one_namespace_lem n i alias m info known aliased to_mosaic there) (
        append_namespaces_lem (infos ++ (some info ∷ [])) others
        ∙ ap ok (append_assoc infos (some info ∷ []) (map some rest)))

  -- What comes before the infos of the namespaces.
  abbrev pub before : ℕ → List MosaicId → List MosaicInfo → List (Option MosaicInfo)
  before count [] infos = replicate count none
  before count (m ∷ ms) infos = map some infos

  infos_of_mosaics_lem :
      (count : ℕ) (ms : List MosaicId) (infos : List MosaicInfo)
      → (ms ≢ [] → get_mosaic_infos ms ≡ ok infos)
      → infos_of_mosaics count ms ≡ ok (before count ms infos)
  unfolding infos_of_mosaics
  infos_of_mosaics_lem count [] infos h = refl
  infos_of_mosaics_lem count (m ∷ ms) infos h = rw (h (λ e. cc)) refl

  -- None of the identifiers is nil, and each namespace among them is an alias of a mosaic with an info.
  -- With mosaics among them, the infos are those that their service returns for the mosaics in order, and
  -- then those of the namespaces in order. With namespaces only, as many nil pointers as there are
  -- identifiers come before the infos of the namespaces.
  pub get_mosaic_infos_by_asset_ids_lem :
      (id : Option AssetId) (ids : List (Option AssetId)) (ns : List NamespaceId)
      (ms : List MosaicId) (infos resolved : List MosaicInfo)
      → AreSplit (id ∷ ids) ns ms
      → (ms ≢ [] → get_mosaic_infos ms ≡ ok infos)
      → AreResolved ns resolved
      → get_mosaic_infos_by_asset_ids (id ∷ ids)
        ≡ ok (before (length (id ∷ ids)) ms infos ++ map some resolved)
  unfolding get_mosaic_infos_by_asset_ids
  get_mosaic_infos_by_asset_ids_lem id ids ns ms infos resolved e f r =
      rw (by_type_lem e, infos_of_mosaics_lem (length (id ∷ ids)) ms infos f)
        (append_namespaces_lem (before (length (id ∷ ids)) ms infos) r)
