-- ===== src/Schema/Decoding.antt =====
-- The walk of sdk/sdk_schema.go over a buffer that holds an object writes the object's wire bytes.
use go_xpx_chain_sdk.Base.{
  ℕ, suc, ◌+◌, ◌*◌, ◌^◌, ◌≤◌, ◌<◌, ◌≡◌, refl, ◌∙◌, fun_ext, [], ◌∷◌, Bytes, Bool, true, some, ◌&&◌,
  length, ltb, ◌==◌, Result, ok, arith, and_split, Bool-cases, inl, inr, if◌then◌else◌, ltb→lt,
  ==_iff,
}
use native.Mathlib.Numerals.{add-one}
use go_xpx_chain_sdk.Word.{from_le, to_le, length-to_le}
use go_xpx_chain_sdk.Schema.{
  u32, offset, indirect, vector, vector_length, find_param, find_vector, find_object_start_position,
  find_array_length, find_object_array_element_start_position, serialize_elements,
  serialize_attribute, serialize_from, serialize, Schema, SchemaAttribute, no_attribute, attribute,
  scalar_attribute, array_attribute, table_attribute, table_array_attribute,
}
use go_xpx_chain_sdk.Schema.Format
use go_xpx_chain_sdk.Schema.Format.{
  number_at, reads, Slot, Slots, Objects, unset, number, object, objects, no_slot, slot, no_object,
  one_object, slots_hold, fits, wire, finished,
}
use go_xpx_chain_sdk.Schema.Reads.{
  number_at_inv, position, offset_inv, read_uint32_inv, slice_of_reads,
}

module _ (buffer : Bytes) (short : length buffer < 2 ^ 32) where
  find_param_lem :
      (at j off size : ℕ) (bs : Bytes)
      → offset at (position j) buffer ≡ ok off
      → 0 < off
      → reads buffer (at + off) bs ≡ true
      → length bs ≡ size
      → find_param at (position j) buffer size ≡ ok bs
  unfolding find_param
  find_param_lem at j off size bs e p r n =
      let (s, b) = slice_of_reads buffer short (at + off) bs r in ground (arith, s, b)

  find_vector_lem :
      (at j off n : ℕ) (bs : Bytes)
      → offset at (position j) buffer ≡ ok off
      → 0 < off
      → number_at buffer (at + off) 4 (λ rel.
        number_at buffer (at + off + rel) 4 (λ k. k * n == length bs)
        && reads buffer (at + off + rel + 4) bs)
        ≡ true
      → find_vector at (position j) buffer n ≡ ok bs
  unfolding find_vector vector vector_length
  find_vector_lem at j off n bs e p h =
      let (rel, e1, b1, q1) = read_uint32_inv buffer short (at + off) _ h in
      let (c, r) = and_split _ _ q1 in
      let (k, e2, b2, q2) = read_uint32_inv buffer short (at + off + rel) _ c in
      let (s, b) = slice_of_reads buffer short (at + off + rel + 4) bs r in
      ground (arith, e1, b1, e2, b2, q2, s, b)

  -- Where the vector of offsets starts, the loop's element positions are plain.
  abbrev element_at : ℕ → ℕ → Result ℕ
  element_at base i = indirect (u32 (base + u32 (i * 4))) buffer

  object_start_lem :
      (at j off : ℕ) (f : ℕ → Bool)
      → offset at (position j) buffer ≡ ok off
      → number_at buffer (at + off) 4 f ≡ true
      → (rel : ℕ) × (find_object_start_position at (position j) buffer ≡ ok (u32 (at + off + rel)))
        × (f rel ≡ true)
  unfolding find_object_start_position indirect
  object_start_lem at j off f e h =
      let (rel, e1, b1, q1) = read_uint32_inv buffer short (at + off) _ h in
      (rel, ground (arith, e1, b1), q1)

  array_lem :
      (at j off n : ℕ) (f : ℕ → Bool)
      → offset at (position j) buffer ≡ ok off
      → 0 < off
      → number_at buffer
          (at + off)
          4
          (λ rel. number_at buffer (at + off + rel) 4 (λ k. k == n) && f rel)
        ≡ true
      → (rel : ℕ) × (find_array_length at (position j) buffer ≡ ok n)
        × ((i : ℕ)
            → find_object_array_element_start_position at (position j) buffer i
              ≡ element_at (at + off + rel + 4) i)
        × (f rel ≡ true)
  unfolding find_array_length find_object_array_element_start_position vector vector_length
  array_lem at j off n f e p h =
      let (rel, e1, b1, q1) = read_uint32_inv buffer short (at + off) _ h in
      let (c, r) = and_split _ _ q1 in
      let (k, e2, b2, q2) = read_uint32_inv buffer short (at + off + rel) _ c in
      (rel, ground (arith, e1, b1, e2, b2, q2), λ i. ground (arith, e1, b1, b2), r)

  absent_lem :
      (at j off size : ℕ)
      → offset at (position j) buffer ≡ ok off
      → (off == 0) ≡ true
      → find_param at (position j) buffer size ≡ ok (0 ∷ [])
  unfolding find_param
  absent_lem at j off size e h = rw (e, h)

  number_lem :
      (at j off n v size : ℕ)
      → offset at (position j) buffer ≡ ok off
      → (if v == 0 then off == 0 else ltb 0 off && reads buffer (at + off) (to_le n v)) ≡ true
      → n ≡ size
      → find_param at (position j) buffer size ≡ ok (if v == 0 then 0 ∷ [] else to_le n v)
  number_lem at j off n v size e h f = elim (Bool-cases (v == 0)) [
    | inl left_out ↦ rw left_out (absent_lem at j off size e (rw left_out at h))
    | inr stored ↦
        let (p, r) = and_split _ _ (rw stored at h) in
        rw stored
          (find_param_lem at j off size (to_le n v) e (ltb→lt 0 off p) r (length-to_le n v ∙ f))
  ]

  -- One round of the loop over the objects of a vector.
  element_lem :
      (base i at : ℕ) (f : ℕ → Bool)
      → at ≡ base + i * 4
      → number_at buffer at 4 f ≡ true
      → (rel : ℕ) × (element_at base i ≡ ok (u32 (at + rel))) × (f rel ≡ true)
  unfolding indirect
  element_lem base i at f p h =
      let (rel, e1, b1, q1) = read_uint32_inv buffer short at _ h in
      (rel, ground (arith, e1, b1), q1)

  -- An object that is read at all stands at an address that fits 32 bits.
  start_lem :
      (t : Slots) (schema : Schema) (at j : ℕ)
      → slots_hold t j buffer at ≡ true
      → fits t schema ≡ true
      → serialize_from schema j buffer (u32 at) ≡ serialize_from schema j buffer at
  unfolding slots_hold fits serialize_from Format.offset_at
  start_lem no_slot no_attribute at j h f = refl
  start_lem (slot s rest) (attribute a more) at j h f =
      let (small, h') = and_split _ _ h in
      let (here, there) = and_split _ _ h' in
      let (back, e, b, q) = read_uint32_inv buffer short at _ here in rw (inside at b)
    where
      inside : (n : ℕ) → n + 4 ≤ length buffer → u32 n ≡ n
      inside n b = omega arith
  start_lem _ _ at j h f = cc

  mutual
    unfolding serialize_attribute Format.slot_holds Format.slot_fits Format.wire_slot slots_hold
        fits wire serialize_from Format.objects_hold Format.objects_fit Format.wire_objects
        serialize_elements

    slot_lem :
        (s : Slot) (a : SchemaAttribute) (at j off : ℕ)
        → offset at (position j) buffer ≡ ok off
        → Format.slot_holds s buffer at off ≡ true
        → Format.slot_fits s a ≡ true
        → serialize_attribute a buffer (position j) at ≡ ok (Format.wire_slot s)
    slot_lem unset (scalar_attribute name size) at j off e h f = absent_lem at j off size e h
    slot_lem (number n v) (scalar_attribute name size) at j off e h f =
        number_lem at j off n v size e h ((==_iff n size).0 f)
    slot_lem (Slot.vector n bs) (array_attribute name size) at j off e h f =
        let (p, r) = and_split _ _ h in
        rw (← (==_iff n size).0 f) (find_vector_lem at j off n bs e (ltb→lt 0 off p) r)
    slot_lem (object t) (table_attribute name schema) at j off e h f =
        let (p, r) = and_split _ _ h in
        let (rel, start, q) = object_start_lem at j off _ e r in
        rw start
          (start_lem t schema (at + off + rel) 0 q f ∙ slots_lem t schema (at + off + rel) 0 q f)
    slot_lem (objects ts) (table_array_attribute name schema) at j off e h f =
        let (p, r) = and_split _ _ h in
        let (rel, n, start, q) = array_lem at j off (Format.count ts) _ e (ltb→lt 0 off p) r in
        rw (n, fun_ext start) (objects_lem ts schema (at + off + rel + 4) 0 _ (omega arith) q f)
    slot_lem _ _ at j off e h f = cc

    slots_lem :
        (t : Slots) (schema : Schema) (at j : ℕ)
        → slots_hold t j buffer at ≡ true
        → fits t schema ≡ true
        → serialize_from schema j buffer at ≡ ok (wire t)
    slots_lem no_slot no_attribute at j h f = refl
    slots_lem (slot s rest) (attribute a more) at j h f =
        let (small, h') = and_split _ _ h in
        let (here, there) = and_split _ _ h' in
        let (sa, sm) = and_split _ _ f in
        let (off, e, q) = offset_inv buffer short at j _ (ltb→lt j 0x7ffe small) here in
        rw (slot_lem s a at j off e q sa, add-one j, slots_lem rest more at (suc j) there sm)
    slots_lem _ _ at j h f = cc

    objects_lem :
        (ts : Objects) (schema : Schema) (base i at : ℕ)
        → at ≡ base + i * 4
        → Format.objects_hold ts buffer at ≡ true
        → Format.objects_fit ts schema ≡ true
        → serialize_elements
            (element_at base)
            (λ start. serialize_from schema 0 buffer start)
            (Format.count ts)
            i
          ≡ ok (Format.wire_objects ts)
    objects_lem no_object schema base i at p h f = refl
    objects_lem (one_object t ts) schema base i at p h f =
        let (here, there) = and_split _ _ h in
        let (ft, fts) = and_split _ _ f in
        let (rel, e, q) = element_lem base i at _ p here in
        rw (
          e,
          start_lem t schema (at + rel) 0 q ft,
          slots_lem t schema (at + rel) 0 q ft,
          objects_lem ts schema base (i + 1) (at + 4) (omega arith) there fts,
        )

root_byte :
    (b : ℕ) (bytes bs : Bytes)
    → Format.bytes_at (b ∷ bytes) 0 4 ≡ some bs
    → from_le bs < 256
    → from_le bs ≡ b
unfolding Format.bytes_at from_le
root_byte b bytes [] e small = ground arith
root_byte b bytes (c ∷ bs) e small = ground arith

-- The serialiser, run on a finished flatbuffer that holds an object of the schema's shape, returns
-- and writes exactly the object's slots one after the other: nested tables and vectors of tables
-- in place, and one zero byte for each scalar that the buffer leaves out.
pub serialize-wire :
    (schema : Schema) (t : Slots) (buffer : Bytes)
    → finished buffer t ≡ true
    → fits t schema ≡ true
    → serialize schema buffer ≡ ok (wire t)
unfolding serialize finished wire fits Format.number_at Format.bytes_at
serialize-wire no_attribute no_slot buffer h f = refl
serialize-wire no_attribute (slot s t) buffer h f = cc
serialize-wire (attribute a rest) t [] h f = ground arith
serialize-wire (attribute a rest) t (b ∷ bytes) h f =
    let (short, h') = and_split _ _ h in
    let (bs, e, q) =
      number_at_inv (b ∷ bytes) 0 4 (λ root. ltb root 256 && slots_hold t 0 (b ∷ bytes) root) h' in
    let (small, held) = and_split _ _ q in
    let root = root_byte b bytes bs e (ltb→lt _ 256 small) in
    rw root at
      (slots_lem (b ∷ bytes) (ltb→lt _ (2 ^ 32) short) t (attribute a rest) (from_le bs) 0 held f)
