-- ===== src/Transaction/Header.antt =====
-- The first seven slots of every transaction, and their 122 wire bytes.
use go_xpx_chain_sdk.Schema.{serialize, Schema, u32}
use go_xpx_chain_sdk.Base.{
  Bytes, Option, Result, [], ap, append_assoc, arith, if◌then◌else◌, inl, inr, length,
  length-append, none, ok, refl, some, suc, true, zero, ℕ, ◌*◌, ◌++◌, ◌+◌, ◌<◌, ◌==◌, ◌^◌, ◌∙◌, ◌∷◌,
  ◌≡◌, ◌≢◌, ◌⊎◌,
}
use go_xpx_chain_sdk.Schema.Decoding.{serialize-wire}
use go_xpx_chain_sdk.Schema.Format.{Slots, finished, fits, no_slot, number, slot, wire, wire_slot}
use go_xpx_chain_sdk.Transaction.{
  AbstractTransaction, Deadline, deadline_timestamp, following_deadline, generate_vectors,
}
use go_xpx_chain_sdk.Transaction.Sizes.{signature_size, signer_size, transaction_header_size}
use go_xpx_chain_sdk.Uint64.{to_little_endian}
use go_xpx_chain_sdk.Uint64.Halves.{halves-to_le}
use go_xpx_chain_sdk.Word.{to_le, zeros}
use go_xpx_chain_sdk.Word.Copies.{length-zeros}

-- The version field of the wire: the network in its top byte, and the version below it.
unfoldable pub version_word : AbstractTransaction → ℕ
version_word tx = u32 (u32 (tx.network_type * 2 ^ 24) + tx.version)

-- The header of a transaction that announces `size` bytes, as the protocol lays it out. The signature
-- and the signer are left blank, for the signing to fill.
unfoldable pub header_bytes : ℕ → AbstractTransaction → Bytes
header_bytes size tx =
    to_le 4 (u32 size)
    ++ (zeros signature_size
        ++ (zeros signer_size
            ++ (to_le 4 (version_word tx)
                ++ (to_le 2 tx.type
                    ++ (to_little_endian tx.max_fee
                        ++ to_little_endian (deadline_timestamp tx.deadline))))))

-- The slots that `TransactionBufferAddSize` and `buildVectors` fill, before the others.
abbrev pub with_header : ℕ → AbstractTransaction → Slots → Slots
with_header size tx rest =
    let v = generate_vectors tx in
    slot (number 4 (u32 size)) (
      slot v.signature (
        slot v.signer (
          slot (number 4 v.version)
            (slot (number 2 tx.type) (slot v.max_fee (slot v.deadline rest))))))

-- Each header field that is a scalar is stored: none of them is 0.
pub record IsStored (size : ℕ) (tx : AbstractTransaction) : Type 0 where
  pub has_size : u32 size ≢ 0
  pub has_version : version_word tx ≢ 0
  pub has_type : tx.type ≢ 0

pub length-header_bytes :
    (size : ℕ) (tx : AbstractTransaction) → length (header_bytes size tx) ≡ transaction_header_size
unfolding header_bytes to_little_endian
length-header_bytes size tx = simp (length-append, length-zeros)

pub stored : (n v : ℕ) → v ≢ 0 → (if v == 0 then 0 ∷ [] else to_le n v) ≡ to_le n v
stored n v h = ground arith

pub wire-with_header :
    (size : ℕ) (tx : AbstractTransaction) (rest : Slots)
    → IsStored size tx
    → wire (with_header size tx rest) ≡ header_bytes size tx ++ wire rest
unfolding wire wire_slot header_bytes generate_vectors version_word
wire-with_header size tx rest h = simp (
  stored 4 (u32 size) h.has_size,
  stored 4 (version_word tx) h.has_version,
  stored 2 tx.type h.has_type,
  halves-to_le,
  append_assoc,
)

-- A transaction of a type and a version, as its constructor makes it with a deadline for a network.
pub record Carries (type version : ℕ) (tx : AbstractTransaction) : Type 0 where
  pub type_is : tx.type ≡ type
  pub version_is : tx.version ≡ version
  pub has_deadline : tx.deadline ≢ none
  pub network_fits : tx.network_type < 256

-- What the constants of a transaction satisfy.
abbrev pub AreStorable : ℕ → ℕ → ℕ → Type 0
AreStorable size type version =
    (type ≢ 0) × (version ≢ 0) × (version < 2 ^ 24) × (size ≢ 0) × (size < 2 ^ 32)

pub Carries-IsStored :
    (size type version : ℕ) {tx : AbstractTransaction}
    → AreStorable size type version
    → Carries type version tx
    → IsStored size tx
unfolding version_word
Carries-IsStored size type version {tx} a c = record {
  has_size = ground arith;
  has_version = ground arith;
  has_type = ground arith;
}

-- A byte is written alike, whether the builder stores it or not.
pub stored_byte : (v : ℕ) → (if v == 0 then 0 ∷ [] else to_le 1 v) ≡ to_le 1 v
unfolding to_le
stored_byte v = ground arith

abbrev pub drop_slots : ℕ → Slots → Slots
drop_slots zero t = t
drop_slots (suc n) no_slot = no_slot
drop_slots (suc n) (slot s t) = drop_slots n t

-- With a deadline there is no panic.
following_deadline_lem :
    (a : AbstractTransaction) (rest : Result Bytes)
    → a.deadline ≢ none
    → following_deadline a rest ≡ rest
unfolding following_deadline
following_deadline_lem a rest h = elim (some_or_none a.deadline) [
  | inl e ↦ absurd (h e)
  | inr (d, e) ↦ rw e refl
]
  where
    some_or_none : (o : Option Deadline) → (o ≡ none) ⊎ ((d : Deadline) × (o ≡ some d))
    some_or_none none = inl refl
    some_or_none (some d) = inr (d, refl)

-- From the object of a transaction to its bytes: what is left to show is that it has the header, that
-- it fits its schema, and what follows the header.
pub serialized :
    (schema : Schema) (size type version total : ℕ) (a : AbstractTransaction) (t : Slots)
    (tail buffer : Bytes)
    → AreStorable size type version
    → Carries type version a
    → finished buffer t ≡ true
    → t ≡ with_header size a (drop_slots 7 t)
    → fits t schema ≡ true
    → wire (drop_slots 7 t) ≡ tail
    → transaction_header_size + length tail ≡ total
    → (following_deadline a (serialize schema buffer) ≡ ok (header_bytes size a ++ tail))
      × (length (header_bytes size a ++ tail) ≡ total)
serialized schema size type version total a t tail buffer s c h e f w l =
    let after : wire (with_header size a (drop_slots 7 t)) ≡ header_bytes size a ++ tail =
      wire-with_header size a (drop_slots 7 t) (Carries-IsStored size type version s c)
      ∙ ap (λ bytes. header_bytes size a ++ bytes) w in
    (
      following_deadline_lem a (serialize schema buffer) c.has_deadline
          ∙ serialize-wire schema t buffer h f
          ∙ ap ok (ap wire e ∙ after),
      length-append (header_bytes size a) tail ∙ omega (arith, length-header_bytes size a),
    )
