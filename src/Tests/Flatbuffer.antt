-- ===== src/Tests/Flatbuffer.antt =====
-- A writer of flatbuffers, which shows that buffers with given objects exist. An object has four bytes
-- for each slot; its table of offsets stands behind it, and what it refers to behind that.
use go_xpx_chain_sdk.Schema.Format.{
  count, object, vector, Objects, Slot, Slots, no_object, no_slot, number, objects, one_object,
  slot, unset,
}
use go_xpx_chain_sdk.Base.{
  Bytes, [], if◌then◌else◌, length, suc, ℕ, ◌*◌, ◌++◌, ◌+◌, ◌-◌, ◌/◌, ◌==◌, ◌^◌,
}
use go_xpx_chain_sdk.Word.{to_le}

abbrev slot_count : Slots → ℕ
slot_count no_slot = 0
slot_count (slot s rest) = suc (slot_count rest)

abbrev heap_start : ℕ → ℕ → ℕ
heap_start p n = p + (4 + 4 * n) + (4 + 2 * n)

-- The fields, the entries of the table and the heap, around which an object is put together.
abbrev assemble : ℕ → Bytes × Bytes × Bytes → Bytes
assemble n (fields, entries, heap) =
    to_le 4 (2 ^ 32 - (4 + 4 * n))
    ++ (fields ++ (to_le 2 (4 + 2 * n) ++ (to_le 2 (4 + 4 * n) ++ (entries ++ heap))))

abbrev absent : Bytes × Bytes × Bytes
absent = (to_le 4 0, to_le 2 0, [])

abbrev referring : ℕ → ℕ → ℕ → Bytes → Bytes × Bytes × Bytes
referring at o q heap = (to_le 4 (q - at), to_le 2 o, heap)

unfoldable mutual
  -- The cell of a slot at an address, at an offset in its object, with the heap free from `q` on.
  pub cell : Slot → ℕ → ℕ → ℕ → Bytes × Bytes × Bytes
  cell unset at o q = absent
  cell (number n v) at o q =
      if v == 0 then absent else (to_le n v ++ to_le (4 - n) 0, to_le 2 o, [])
  cell (vector n bytes) at o q = referring at o q (to_le 4 (length bytes / n) ++ bytes)
  cell (object t) at o q =
      referring at o q (assemble (slot_count t) (cells t q 0 (heap_start q (slot_count t))))
  cell (objects ts) at o q =
      let (offsets, bodies) = place ts (q + 4) (q + 4 + 4 * count ts) in
      referring at o q (to_le 4 (count ts) ++ (offsets ++ bodies))

  pub cells : Slots → ℕ → ℕ → ℕ → Bytes × Bytes × Bytes
  cells no_slot p j q = ([], [], [])
  cells (slot s rest) p j q =
      let (f, e, h) = cell s (p + (4 + 4 * j)) (4 + 4 * j) q in
      let (fs, es, hs) = cells rest p (suc j) (q + length h) in (f ++ fs, e ++ es, h ++ hs)

  pub place : Objects → ℕ → ℕ → Bytes × Bytes
  place no_object at q = ([], [])
  place (one_object t ts) at q =
      let body = assemble (slot_count t) (cells t q 0 (heap_start q (slot_count t))) in
      let (offsets, bodies) = place ts (at + 4) (q + length body) in
      (to_le 4 (q - at) ++ offsets, body ++ bodies)

-- The buffer whose root is an object.
unfoldable pub layout : Slots → Bytes
unfolding cells
layout t = to_le 4 4 ++ assemble (slot_count t) (cells t 4 0 (heap_start 4 (slot_count t)))
