-- ===== src/Schema.antt =====
-- sdk/sdk_schema.go: the walk over a finished flatbuffer that writes a transaction's wire bytes.
-- An index or a slice out of range is a panic. The names of the attributes are kept and not read.
pub mod Definitions
pub mod Format
pub mod Decoding
mod Reads
use go_xpx_chain_sdk.Base.{
  ℕ, zero, suc, ◌+◌, ◌-◌, ◌*◌, ◌%◌, ◌^◌, String, List, [], ◌∷◌, ◌++◌, Bytes, Result, ok, panic,
  ◌>>=◌, ltb, ◌==◌, if◌then◌else◌,
}
use go_xpx_chain_sdk.Word.{from_le, slice}

-- uint32 arithmetic wraps.
abbrev pub u32 : ℕ → ℕ
u32 n = n % 2 ^ 32

abbrev pub VarSize : Type 0
VarSize = ℕ

abbrev pub byte_size : VarSize
byte_size = 1

abbrev pub short_size : VarSize
short_size = 2

abbrev pub int_size : VarSize
int_size = 4

mutual
  pub data SchemaAttribute : Type 0 where
    array_attribute : String → VarSize → SchemaAttribute
    scalar_attribute : String → VarSize → SchemaAttribute
    table_array_attribute : String → Schema → SchemaAttribute
    table_attribute : String → Schema → SchemaAttribute

  pub data Schema : Type 0 where
    no_attribute : Schema
    attribute : SchemaAttribute → Schema → Schema

pub read_uint32 : ℕ → Bytes → Result ℕ
read_uint32 offset buffer = do bytes ← slice buffer offset (u32 (offset + 4)); ok (from_le bytes)

pub read_uint16 : ℕ → Bytes → Result ℕ
read_uint16 offset buffer = do bytes ← slice buffer offset (u32 (offset + 2)); ok (from_le bytes)

pub offset : ℕ → ℕ → Bytes → Result ℕ
unfolding read_uint32 read_uint16
offset inner position buffer = do
  back ← read_uint32 inner buffer
  let vtable = u32 (inner + 2 ^ 32 - back)
  size ← read_uint16 vtable buffer
  if ltb position size then read_uint16 (u32 (vtable + position)) buffer else ok 0

pub vector_length : ℕ → Bytes → Result ℕ
unfolding read_uint32
vector_length offset buffer = do
  rel ← read_uint32 offset buffer
  read_uint32 (u32 (offset + rel)) buffer

pub indirect : ℕ → Bytes → Result ℕ
unfolding read_uint32
indirect offset buffer = do rel ← read_uint32 offset buffer; ok (u32 (offset + rel))

pub vector : ℕ → Bytes → Result ℕ
unfolding read_uint32
vector offset buffer = do rel ← read_uint32 offset buffer; ok (u32 (u32 (offset + rel) + 4))

pub find_param : ℕ → ℕ → Bytes → VarSize → Result Bytes
find_param inner position buffer size = do
  off ← offset inner position buffer
  if off == 0
      then ok (0 ∷ [])
      else slice buffer (u32 (off + inner)) (u32 (u32 (off + inner) + size))

-- The vector is looked up before the test for an absent field, and may panic there.
pub find_vector : ℕ → ℕ → Bytes → VarSize → Result Bytes
find_vector inner position buffer size = do
  off ← offset inner position buffer
  let offset_long = u32 (off + inner)
  vec_start ← vector offset_long buffer
  count ← vector_length offset_long buffer
  let vec_length = u32 (count * size)
  if off == 0 then ok (0 ∷ []) else slice buffer vec_start (u32 (vec_start + vec_length))

pub find_object_start_position : ℕ → ℕ → Bytes → Result ℕ
find_object_start_position inner position buffer = do
  off ← offset inner position buffer
  indirect (u32 (off + inner)) buffer

pub find_array_length : ℕ → ℕ → Bytes → Result ℕ
find_array_length inner position buffer = do
  off ← offset inner position buffer
  if off == 0 then ok 0 else vector_length (u32 (inner + off)) buffer

pub find_object_array_element_start_position : ℕ → ℕ → Bytes → ℕ → Result ℕ
find_object_array_element_start_position inner position buffer i = do
  off ← offset inner position buffer
  vec ← vector (u32 (inner + off)) buffer
  indirect (u32 (vec + u32 (i * 4))) buffer

-- The loop of `tableArrayAttribute.serialize`: `left` elements are still to be written, from `i` on.
pub serialize_elements : (ℕ → Result ℕ) → (ℕ → Result Bytes) → ℕ → ℕ → Result Bytes
serialize_elements start element zero i = ok []
serialize_elements start element (suc left) i = do
  position ← start i
  tmp ← element position
  more ← serialize_elements start element left (i + 1)
  ok (tmp ++ more)

mutual
  pub serialize_attribute : SchemaAttribute → Bytes → ℕ → ℕ → Result Bytes
  serialize_attribute (array_attribute name size) buffer position inner =
      find_vector inner position buffer size
  serialize_attribute (scalar_attribute name size) buffer position inner =
      find_param inner position buffer size
  serialize_attribute (table_array_attribute name schema) buffer position inner = do
    array_length ← find_array_length inner position buffer
    serialize_elements (find_object_array_element_start_position inner position buffer)
        (λ start. serialize_from schema 0 buffer start) array_length 0
  serialize_attribute (table_attribute name schema) buffer position inner = do
    start ← find_object_start_position inner position buffer
    serialize_from schema 0 buffer start

  -- The loop over a schema, from its `j`-th attribute on.
  pub serialize_from : Schema → ℕ → Bytes → ℕ → Result Bytes
  serialize_from no_attribute j buffer inner = ok []
  serialize_from (attribute a rest) j buffer inner = do
    tmp ← serialize_attribute a buffer (u32 (4 + u32 (j * 2))) inner
    more ← serialize_from rest (j + 1) buffer inner
    ok (tmp ++ more)

-- `schema.serialize`: the root object stands where the first byte says. An empty schema reads
-- nothing.
pub serialize : Schema → Bytes → Result Bytes
serialize no_attribute bytes = ok []
serialize (attribute a rest) [] = panic
serialize (attribute a rest) (b ∷ bytes) = serialize_from (attribute a rest) 0 (b ∷ bytes) b
