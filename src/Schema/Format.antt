-- ===== src/Schema/Format.antt =====
-- What a finished flatbuffer holds, read off the published layout of the format and independent of
-- the walk of sdk/sdk_schema.go: an object is a list of slots, found through its table of offsets.
use go_xpx_chain_sdk.Base.{
  ℕ, suc, ◌+◌, ◌-◌, ◌*◌, ◌%◌, ◌^◌, [], ◌∷◌, ◌++◌, Bytes, Bool, true, false, ◌&&◌, Option, none,
  some, length, take, drop, ltb, leb, ◌==◌, if◌then◌else◌,
}
use go_xpx_chain_sdk.Word.{from_le, to_le}
use go_xpx_chain_sdk.Schema.{
  Schema, SchemaAttribute, no_attribute, attribute, array_attribute, scalar_attribute,
  table_array_attribute, table_attribute,
}

-- What the program asked the flatbuffers builder to put in one slot of an object: nothing, a scalar of
-- so many bytes, a vector with its element size and its bytes, an object, or a vector of objects.
mutual
  pub data Slot : Type 0 where
    unset : Slot
    number : ℕ → ℕ → Slot
    vector : ℕ → Bytes → Slot
    object : Slots → Slot
    objects : Objects → Slot

  pub data Slots : Type 0 where
    no_slot : Slots
    slot : Slot → Slots → Slots

  pub data Objects : Type 0 where
    no_object : Objects
    one_object : Slots → Objects → Objects

abbrev pub count : Objects → ℕ
count no_object = 0
count (one_object t ts) = suc (count ts)

-- The bytes at an address.
unfoldable pub bytes_at : Bytes → ℕ → ℕ → Option Bytes
bytes_at buffer at n = if leb (at + n) (length buffer) then some (take n (drop at buffer)) else none

abbrev pub check {ℓ} : {A : Type ℓ} → Option A → (A → Bool) → Bool
check none f = false
check (some a) f = f a

unfoldable pub number_at : Bytes → ℕ → ℕ → (ℕ → Bool) → Bool
number_at buffer at n f = check (bytes_at buffer at n) (λ bytes. f (from_le bytes))

-- The bytes `bs` stand at an address.
unfoldable pub bytes_eq : Bytes → Bytes → Bool
bytes_eq [] [] = true
bytes_eq (a ∷ as') (b ∷ bs) = a == b && bytes_eq as' bs
bytes_eq _ _ = false

unfoldable pub reads : Bytes → ℕ → Bytes → Bool
unfolding bytes_eq
reads buffer at bs = check (bytes_at buffer at (length bs)) (λ found. bytes_eq found bs)

-- The offset of the `j`-th slot of the object at `at`: 0 where its table has none.
-- The distance to the table is signed, in two's complement.
unfoldable pub offset_at : Bytes → ℕ → ℕ → (ℕ → Bool) → Bool
offset_at buffer at j f = number_at buffer at 4 λ back.
    let table = (at + 2 ^ 32 - back) % 2 ^ 32 in
    number_at buffer table 2
      λ size. if ltb (4 + j * 2) size then number_at buffer (table + (4 + j * 2)) 2 f else f 0

unfoldable mutual
  pub slot_holds : Slot → Bytes → ℕ → ℕ → Bool
  slot_holds unset buffer at off = off == 0
  -- The builder stores no scalar that equals its default, which is 0 in every call of the program.
  slot_holds (number n v) buffer at off =
      if v == 0 then off == 0 else ltb 0 off && reads buffer (at + off) (to_le n v)
  slot_holds (vector n bs) buffer at off =
      ltb 0 off
      && number_at buffer (at + off) 4 λ rel.
        number_at buffer (at + off + rel) 4 (λ k. k * n == length bs)
        && reads buffer (at + off + rel + 4) bs
  slot_holds (object t) buffer at off =
      ltb 0 off && number_at buffer (at + off) 4 (λ rel. slots_hold t 0 buffer (at + off + rel))
  slot_holds (objects ts) buffer at off =
      ltb 0 off
      && number_at buffer (at + off) 4 λ rel.
        number_at buffer (at + off + rel) 4 (λ k. k == count ts)
        && objects_hold ts buffer (at + off + rel + 4)

  -- The object at `at` has these slots, from its `j`-th slot on. The table of offsets counts its own
  -- bytes in 16 bits, so it has fewer than 2 ^ 15 entries.
  pub slots_hold : Slots → ℕ → Bytes → ℕ → Bool
  slots_hold no_slot j buffer at = true
  slots_hold (slot s rest) j buffer at =
      ltb j 0x7ffe
      && (offset_at buffer at j (λ off. slot_holds s buffer at off)
          && slots_hold rest (suc j) buffer at)

  -- The offsets at `at` lead to these objects.
  pub objects_hold : Objects → Bytes → ℕ → Bool
  objects_hold no_object buffer at = true
  objects_hold (one_object t ts) buffer at =
      number_at buffer at 4 (λ rel. slots_hold t 0 buffer (at + rel))
      && objects_hold ts buffer (at + 4)

-- The object has the shape that a schema reads.
unfoldable mutual
  pub slot_fits : Slot → SchemaAttribute → Bool
  slot_fits unset (scalar_attribute name size) = true
  slot_fits (number n v) (scalar_attribute name size) = n == size
  slot_fits (vector n bs) (array_attribute name size) = n == size
  slot_fits (object t) (table_attribute name schema) = fits t schema
  slot_fits (objects ts) (table_array_attribute name schema) = objects_fit ts schema
  slot_fits _ _ = false

  pub fits : Slots → Schema → Bool
  fits no_slot no_attribute = true
  fits (slot s rest) (attribute a more) = slot_fits s a && fits rest more
  fits _ _ = false

  pub objects_fit : Objects → Schema → Bool
  objects_fit no_object schema = true
  objects_fit (one_object t ts) schema = fits t schema && objects_fit ts schema

-- The wire bytes of an object: its slots one after the other, a missing scalar as one zero byte.
unfoldable mutual
  pub wire_slot : Slot → Bytes
  wire_slot unset = 0 ∷ []
  wire_slot (number n v) = if v == 0 then 0 ∷ [] else to_le n v
  wire_slot (vector n bs) = bs
  wire_slot (object t) = wire t
  wire_slot (objects ts) = wire_objects ts

  pub wire : Slots → Bytes
  wire no_slot = []
  wire (slot s rest) = wire_slot s ++ wire rest

  pub wire_objects : Objects → Bytes
  wire_objects no_object = []
  wire_objects (one_object t ts) = wire t ++ wire_objects ts

-- A finished buffer: its first four bytes say where the root object stands, and `sdk/sdk_schema.go`
-- reads the first of them only, so the root has to stand in the first 256 bytes.
unfoldable pub finished : Bytes → Slots → Bool
finished buffer t =
    ltb (length buffer) (2 ^ 32)
    && number_at buffer 0 4 (λ root. ltb root 256 && slots_hold t 0 buffer root)
