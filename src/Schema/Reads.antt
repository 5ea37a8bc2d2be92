-- ===== src/Schema/Reads.antt =====
-- The reads of sdk/sdk_schema.go find what stands in the buffer, while its length fits 32 bits.
use go_xpx_chain_sdk.Base.{
  ℕ, ◌+◌, ◌-◌, ◌*◌, ◌%◌, ◌^◌, ◌≤◌, ◌<◌, ◌≡◌, refl, ap, ◌∙◌, [], ◌∷◌, Bytes, Bool, true, Option,
  none, some, length, ltb, if◌then◌else◌, ok, arith, Bool-cases, inl, inr,
}
use go_xpx_chain_sdk.Word.{from_le, slice}
use go_xpx_chain_sdk.Schema.{u32, read_uint32, read_uint16, offset}
use go_xpx_chain_sdk.Schema.Format.{bytes_at, check, number_at, bytes_eq, reads, offset_at}

pub bytes_eq→eq : (xs bs : Bytes) → bytes_eq xs bs ≡ true → xs ≡ bs
unfolding bytes_eq
bytes_eq→eq [] [] h = refl
bytes_eq→eq [] (b ∷ bs) h = cc
bytes_eq→eq (a ∷ xs) [] h = cc
bytes_eq→eq (a ∷ xs) (b ∷ bs) h = ground (arith, bytes_eq→eq xs bs)

check_inv {ℓ} :
    {A : Type ℓ} (o : Option A) (f : A → Bool)
    → check o f ≡ true
    → (a : A) × (o ≡ some a) × (f a ≡ true)
check_inv none f h = cc
check_inv (some a) f h = (a, refl, h)

pub number_at_inv :
    (buffer : Bytes) (at n : ℕ) (f : ℕ → Bool)
    → number_at buffer at n f ≡ true
    → (bs : Bytes) × (bytes_at buffer at n ≡ some bs) × (f (from_le bs) ≡ true)
unfolding number_at
number_at_inv buffer at n f h = check_inv (bytes_at buffer at n) (λ bs. f (from_le bs)) h

reads_inv :
    (buffer : Bytes) (at : ℕ) (bs : Bytes)
    → reads buffer at bs ≡ true
    → bytes_at buffer at (length bs) ≡ some bs
unfolding reads
reads_inv buffer at bs h =
    let (found, e, q) = check_inv (bytes_at buffer at (length bs)) (λ xs. bytes_eq xs bs) h in
    e ∙ ap some (bytes_eq→eq found bs q)

-- The position that the code computes for slot `j`.
abbrev pub position : ℕ → ℕ
position j = u32 (4 + u32 (j * 2))

position_lem : (j : ℕ) → j < 0x7ffe → position j ≡ 4 + j * 2
position_lem j small = omega arith

module _ (buffer : Bytes) (short : length buffer < 2 ^ 32) where
  slice_of_bytes_at :
      (at n : ℕ) (bs : Bytes)
      → bytes_at buffer at n ≡ some bs
      → (slice buffer at (u32 (at + n)) ≡ ok bs) × (at + n ≤ length buffer)
  unfolding bytes_at slice
  slice_of_bytes_at at n bs h = (ground arith, ground arith)

  pub slice_of_reads :
      (at : ℕ) (bs : Bytes)
      → reads buffer at bs ≡ true
      → (slice buffer at (u32 (at + length bs)) ≡ ok bs) × (at + length bs ≤ length buffer)
  slice_of_reads at bs h = slice_of_bytes_at at (length bs) bs (reads_inv buffer at bs h)

  pub read_uint32_inv :
      (at : ℕ) (f : ℕ → Bool)
      → number_at buffer at 4 f ≡ true
      → (v : ℕ) × (read_uint32 at buffer ≡ ok v) × (at + 4 ≤ length buffer) × (f v ≡ true)
  unfolding read_uint32
  read_uint32_inv at f h =
      let (bs, e, q) = number_at_inv buffer at 4 f h in
      let (s, b) = slice_of_bytes_at at 4 bs e in (from_le bs, rw s, b, q)

  pub read_uint16_inv :
      (at : ℕ) (f : ℕ → Bool)
      → number_at buffer at 2 f ≡ true
      → (v : ℕ) × (read_uint16 at buffer ≡ ok v) × (at + 2 ≤ length buffer) × (f v ≡ true)
  unfolding read_uint16
  read_uint16_inv at f h =
      let (bs, e, q) = number_at_inv buffer at 2 f h in
      let (s, b) = slice_of_bytes_at at 2 bs e in (from_le bs, rw s, b, q)

  no_wrap : (a n : ℕ) → a + n ≤ length buffer → u32 a ≡ a
  no_wrap a n h = omega arith

  slot_offset :
      (table size j : ℕ) (f : ℕ → Bool)
      → (if ltb (4 + j * 2) size then number_at buffer (table + (4 + j * 2)) 2 f else f 0) ≡ true
      → (off : ℕ) × ((if ltb (4 + j * 2) size
            then read_uint16 (u32 (table + (4 + j * 2))) buffer
            else ok 0)
          ≡ ok off)
        × (f off ≡ true)
  slot_offset table size j f h = elim (Bool-cases (ltb (4 + j * 2) size)) [
    | inl listed ↦
        let (off, e, b, q) = read_uint16_inv (table + (4 + j * 2)) f (rw listed at h) in
        (off, rw (listed, no_wrap (table + (4 + j * 2)) 2 b) e, q)
    | inr missing ↦ (0, rw missing, rw missing at h)
  ]

  pub offset_inv :
      (at j : ℕ) (f : ℕ → Bool)
      → j < 0x7ffe
      → offset_at buffer at j f ≡ true
      → (off : ℕ) × (offset at (position j) buffer ≡ ok off) × (f off ≡ true)
  unfolding offset_at offset
  offset_inv at j f small h =
      let (back, e, b, q) = read_uint32_inv at _ h in
      let (size, e', b', q') = read_uint16_inv ((at + 2 ^ 32 - back) % 2 ^ 32) _ q in
      let (off, e'', q'') = slot_offset ((at + 2 ^ 32 - back) % 2 ^ 32) size j f q' in
      (off, rw (position_lem j small, e, e') e'', q'')
