-- ===== src/Account/Responses.antt =====
-- What sdk/account_internal.go and sdk/websocket_model.go make of responses about accounts: multisig
-- accounts and their graph, properties, names, and the subject of a message.
use go_xpx_chain_sdk.Base.{
  Bytes, List, Option, Result, [], if◌then◌else◌, none, ok, some, ℕ, ◌==◌, ◌>>=◌, ◌∷◌,
}
use go_xpx_chain_sdk.Account.{
  encoded_string_to_addresses, new_account_from_public_key, new_address_from_base32,
}
use go_xpx_chain_sdk.Asset.{MosaicId, mosaic_id_dtos_to_struct}
use go_xpx_chain_sdk.Base.Text.{same}
use go_xpx_chain_sdk.Secret.{Hashes}
use go_xpx_chain_sdk.Transaction.{Address, PublicAccount}
use go_xpx_chain_sdk.Transaction.Entities.{
  allow_address, allow_mosaic, allow_transaction, block_address, block_mosaic, block_transaction,
}

-- The counts have 32 bits.
pub record MultisigAccountInfoDto : Type 0 where
  pub account : Bytes
  pub min_approval : ℕ
  pub min_removal : ℕ
  pub cosignatories : List Bytes
  pub multisig_accounts : List Bytes

pub record MultisigAccountInfo : Type 0 where
  pub account : PublicAccount
  pub min_approval : ℕ
  pub min_removal : ℕ
  pub cosignatories : List PublicAccount
  pub multisig_accounts : List PublicAccount

-- `map[int32][]*MultisigAccountInfo`, by level.
abbrev pub Levels : Type 0
Levels = List (ℕ × List MultisigAccountInfo)

unfoldable pub set_level : ℕ → List MultisigAccountInfo → Levels → Levels
set_level level infos [] = (level, infos) ∷ []
set_level level infos ((l, is) ∷ rest) =
    let others = set_level level infos rest in
    if l == level then (l, infos) ∷ rest else (l, is) ∷ others

module _ (crypto : Hashes) (network_type : ℕ) where
  unfoldable pub accounts_from_public_keys : List Bytes → Result (List PublicAccount)
  unfolding new_account_from_public_key
  accounts_from_public_keys [] = ok []
  accounts_from_public_keys (key ∷ keys) = do
    account ← new_account_from_public_key crypto key network_type
    accounts ← accounts_from_public_keys keys
    ok (account ∷ accounts)

  unfoldable pub multisig_account_info_dto_to_struct :
      MultisigAccountInfoDto → Result MultisigAccountInfo
  unfolding accounts_from_public_keys new_account_from_public_key
  multisig_account_info_dto_to_struct dto = do
    account ← new_account_from_public_key crypto dto.account network_type
    cosignatories ← accounts_from_public_keys dto.cosignatories
    multisig_accounts ← accounts_from_public_keys dto.multisig_accounts
    ok (record {
      account = account;
      min_approval = dto.min_approval;
      min_removal = dto.min_removal;
      cosignatories = cosignatories;
      multisig_accounts = multisig_accounts;
    })

  unfoldable pub multisig_entries_to_struct :
      List MultisigAccountInfoDto → Result (List MultisigAccountInfo)
  unfolding multisig_account_info_dto_to_struct
  multisig_entries_to_struct [] = ok []
  multisig_entries_to_struct (dto ∷ dtos) = do
    info ← multisig_account_info_dto_to_struct dto
    infos ← multisig_entries_to_struct dtos
    ok (info ∷ infos)

  -- The loop over the entries: `ms` is the map so far.
  unfoldable pub graph_from : List (ℕ × List MultisigAccountInfoDto) → Levels → Result Levels
  unfolding multisig_entries_to_struct set_level
  graph_from [] ms = ok ms
  graph_from ((level, dtos) ∷ entries) ms = do
    infos ← multisig_entries_to_struct dtos
    graph_from entries (set_level level infos ms)

  unfoldable pub multisig_account_graph_info_dtos_to_struct :
      List (ℕ × List MultisigAccountInfoDto) → Result Levels
  unfolding graph_from
  multisig_account_graph_info_dtos_to_struct dto = graph_from dto []

pub record AccountName : Type 0 where
  pub address : Address
  pub names : List Bytes

unfoldable pub account_names_dto_to_struct : Bytes × List Bytes → Result AccountName
unfolding new_address_from_base32
account_names_dto_to_struct (address, names) = do
  a ← new_address_from_base32 address
  ok (record { address = a; names = names })

unfoldable pub account_names_dtos_to_struct : List (Bytes × List Bytes) → Result (List AccountName)
unfolding account_names_dto_to_struct
account_names_dtos_to_struct [] = ok []
account_names_dtos_to_struct (dto ∷ dtos) = do
  name ← account_names_dto_to_struct dto
  names ← account_names_dtos_to_struct dtos
  ok (name ∷ names)

pub record PropertiesDto : Type 0 where
  pub property_type : ℕ
  pub mosaic_ids : List (ℕ × ℕ)
  pub addresses : List Bytes
  pub entity_types : List ℕ

pub record AccountProperties : Type 0 where
  pub address : Address
  pub allowed_addresses : List Address
  pub allowed_mosaic_id : List MosaicId
  pub allowed_entity_types : List ℕ
  pub blocked_addresses : List Address
  pub blocked_mosaic_id : List MosaicId
  pub blocked_entity_types : List ℕ

-- The switch over the type of a property; an unknown type is passed over.
unfoldable pub set_property : PropertiesDto → AccountProperties → Result AccountProperties
unfolding encoded_string_to_addresses mosaic_id_dtos_to_struct
set_property p properties =
    if p.property_type == allow_address
    then (do
      items ← encoded_string_to_addresses p.addresses
      ok (record properties { allowed_addresses = items }))
    else if p.property_type == allow_mosaic
    then (do
      items ← mosaic_id_dtos_to_struct p.mosaic_ids
      ok (record properties { allowed_mosaic_id = items }))
    else if p.property_type == allow_transaction
    then ok (record properties { allowed_entity_types = p.entity_types })
    else if p.property_type == block_address
    then (do
      items ← encoded_string_to_addresses p.addresses
      ok (record properties { blocked_addresses = items }))
    else if p.property_type == block_mosaic
    then (do
      items ← mosaic_id_dtos_to_struct p.mosaic_ids
      ok (record properties { blocked_mosaic_id = items }))
    else if p.property_type == block_transaction
    then ok (record properties { blocked_entity_types = p.entity_types })
    else ok properties

unfoldable pub set_properties : List PropertiesDto → AccountProperties → Result AccountProperties
unfolding set_property
set_properties [] properties = ok properties
set_properties (p ∷ ps) properties = do next ← set_property p properties; set_properties ps next

unfoldable pub account_properties_dto_to_struct :
    Bytes × List PropertiesDto → Result AccountProperties
unfolding set_properties new_address_from_base32
account_properties_dto_to_struct (address, ps) = do
  a ← new_address_from_base32 address
  set_properties ps (record {
    address = a;
    allowed_addresses = [];
    allowed_mosaic_id = [];
    allowed_entity_types = [];
    blocked_addresses = [];
    blocked_mosaic_id = [];
    blocked_entity_types = [];
  })

unfoldable pub account_properties_dtos_to_struct :
    List (Bytes × List PropertiesDto) → Result (List AccountProperties)
unfolding account_properties_dto_to_struct
account_properties_dtos_to_struct [] = ok []
account_properties_dtos_to_struct (dto ∷ dtos) = do
  properties ← account_properties_dto_to_struct dto
  more ← account_properties_dtos_to_struct dtos
  ok (properties ∷ more)

-- The address of a message about blocks is nil.
pub record WsMessageInfo : Type 0 where
  pub address : Option Address
  pub channel_name : Bytes

abbrev pub block_channel : Bytes
block_channel = b'b' ∷ (b'l' ∷ (b'o' ∷ (b'c' ∷ (b'k' ∷ []))))

unfoldable pub ws_message_info_dto_to_struct : Bytes × Bytes → Result WsMessageInfo
unfolding same new_address_from_base32
ws_message_info_dto_to_struct (channel_name, address) =
    if same channel_name block_channel
    then ok (record { address = none; channel_name = channel_name })
    else (do
      a ← new_address_from_base32 address
      ok (record { address = some a; channel_name = channel_name }))
