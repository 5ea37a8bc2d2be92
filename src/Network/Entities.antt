-- ===== src/Network/Entities.antt =====
-- The supported entities of sdk/network_model.go and sdk/network_internal.go. jsoniter, which turns their
-- structures into text and back, is a parameter.
use go_xpx_chain_sdk.Base.{
  Bool, Bytes, List, Option, Result, [], err, false, if◌then◌else◌, leb, ltb, new_error, none, ok,
  some, true, ℕ, ◌%◌, ◌&&◌, ◌*◌, ◌+◌, ◌-◌, ◌/◌, ◌==◌, ◌>>=◌, ◌^◌, ◌∷◌,
}

pub record Entity : Type 0 where
  pub name : Bytes
  pub type : ℕ
  pub supported_versions : List ℕ

-- `entityDTO`: the type is a decimal number.
pub record EntityDto : Type 0 where
  pub name : Bytes
  pub type : Bytes
  pub supported_versions : List ℕ

-- `Entities map[EntityType]*Entity`, found by their types.
pub record SupportedEntities : Type 0 where
  pub entities : List Entity

pub new_supported_entities : SupportedEntities
new_supported_entities = record { entities = [] }

-- `fmt.Sprintf("%d", n)` of a 16-bit number.
unfoldable pub print_decimal : ℕ → Bytes
print_decimal n =
    let d = λ (k : ℕ). b'0' + n / k % 10 in
    if ltb n 10
    then d 1 ∷ []
    else if ltb n 100
    then d 10 ∷ (d 1 ∷ [])
    else if ltb n 1000
    then d 100 ∷ (d 10 ∷ (d 1 ∷ []))
    else if ltb n 10000
    then d 1000 ∷ (d 100 ∷ (d 10 ∷ (d 1 ∷ [])))
    else d 10000 ∷ (d 1000 ∷ (d 100 ∷ (d 10 ∷ (d 1 ∷ []))))

-- `strconv.ParseUint(s, 10, 16)`: digits only, one at least, and a value of 16 bits.
unfoldable pub parse_digits : ℕ → Bytes → Option ℕ
parse_digits n [] = if ltb n (2 ^ 16) then some n else none
parse_digits n (c ∷ cs) =
    let rest = parse_digits (n * 10 + (c - b'0')) cs in
    if leb b'0' c && leb c b'9' then rest else none

unfoldable pub parse_uint : Bytes → Option ℕ
unfolding parse_digits
parse_uint [] = none
parse_uint (c ∷ cs) = parse_digits 0 (c ∷ cs)

-- `entityDTO.toStruct`
unfoldable pub entity_dto_to_struct : EntityDto → Result Entity
unfolding parse_uint
entity_dto_to_struct dto = elim (parse_uint dto.type) [
  | none ↦ err (new_error "strconv.ParseUint")
  | some n ↦ ok (record { name = dto.name; type = n; supported_versions = dto.supported_versions })
]

-- `ref.Entities[entity.Type] = entity`
unfoldable pub set_entity : Entity → List Entity → List Entity
set_entity new [] = new ∷ []
set_entity new (e ∷ es) =
    let others = set_entity new es in if e.type == new.type then new ∷ es else e ∷ others

-- `supportedEntitiesDTO.toStruct`
unfoldable pub supported_entities_dto_to_struct :
    List EntityDto → List Entity → Result (List Entity)
unfolding entity_dto_to_struct set_entity
supported_entities_dto_to_struct [] es = ok es
supported_entities_dto_to_struct (dto ∷ dtos) es = do
  entity ← entity_dto_to_struct dto
  supported_entities_dto_to_struct dtos (set_entity entity es)

-- `dto.Entities[i].Name < dto.Entities[j].Name`, byte by byte.
unfoldable pub text_le : Bytes → Bytes → Bool
text_le [] ys = true
text_le (x ∷ xs) [] = false
text_le (x ∷ xs) (y ∷ ys) =
    let rest = text_le xs ys in if ltb x y then true else if x == y then rest else false

unfoldable pub to_dto : Entity → EntityDto
unfolding print_decimal
to_dto e = record {
  name = e.name;
  type = print_decimal e.type;
  supported_versions = e.supported_versions;
}

unfoldable pub insert_by_name : EntityDto → List EntityDto → List EntityDto
unfolding text_le
insert_by_name d [] = d ∷ []
insert_by_name d (e ∷ es) =
    let later = insert_by_name d es in if text_le d.name e.name then d ∷ (e ∷ es) else e ∷ later

-- The structure that `MarshalBinary` prints: the entities in the order of their names.
unfoldable pub sorted_dtos : List Entity → List EntityDto
unfolding to_dto insert_by_name
sorted_dtos [] = []
sorted_dtos (e ∷ es) = insert_by_name (to_dto e) (sorted_dtos es)

pub entities_marshal_binary : (List EntityDto → Result Bytes) → SupportedEntities → Result Bytes
unfolding sorted_dtos
entities_marshal_binary json_marshal_indent s = json_marshal_indent (sorted_dtos s.entities)

pub entities_unmarshal_binary :
    (Bytes → Result (List EntityDto)) → SupportedEntities → Bytes → Result SupportedEntities
unfolding supported_entities_dto_to_struct
entities_unmarshal_binary json_unmarshal s text = do
  dtos ← json_unmarshal text
  es ← supported_entities_dto_to_struct dtos s.entities
  ok (record { entities = es })
