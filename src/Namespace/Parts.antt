-- ===== src/Namespace/Parts.antt =====
-- The parts of a name, and the bit of a namespace.
use Prim.Native.Nat.{bit_and, bit_or}
use go_xpx_chain_sdk.Base.{
  ==_iff, Bool-cases, Bytes, List, [], and_split, arith, false, inl, inr, refl, true, ℕ, ◌++◌, ◌==◌,
  ◌||◌, ◌∷◌, ◌≡◌, ◌≢◌,
}
use go_xpx_chain_sdk.Asset.{namespace_bit}
use go_xpx_chain_sdk.Base.Bits.{bit_and_place, bit_or_place}
use go_xpx_chain_sdk.Namespace.{are_rest, is_first, onto_first, split, valid_namespace}
use go_xpx_chain_sdk.Transaction.Signing.Layout.{parts}
use go_xpx_chain_sdk.Uint64.{has_bits}

pub split_nonempty :
    (a : Bytes) → (first : Bytes) × (parts : List Bytes) × (split a ≡ first ∷ parts)
unfolding split
split_nonempty [] = ([], [], refl)
split_nonempty (c ∷ a) =
    let (first, parts, e) = split_nonempty a in
    elim (Bool-cases (c == b'.')) [
      | inl t ↦ ([], split a, rw t refl)
      | inr f ↦ (c ∷ first, parts, rw (f, e) refl)
    ]

onto_first-append :
    (c : ℕ) (xs ys : List Bytes) {first : Bytes} {parts : List Bytes}
    → xs ≡ first ∷ parts
    → onto_first c (xs ++ ys) ≡ onto_first c xs ++ ys
onto_first-append c xs ys e = rw e refl

-- A name is split at a dot into the parts before it and those behind it.
pub split_dot : (a b : Bytes) → split (a ++ (b'.' ∷ b)) ≡ split a ++ split b
unfolding split
split_dot [] b = refl
split_dot (c ∷ a) b =
    let (first, parts, e) = split_nonempty a in
    elim (Bool-cases (c == b'.')) [
      | inl t ↦ rw (t, split_dot a b) refl
      | inr f ↦ rw (f, split_dot a b) (onto_first-append c (split a) (split b) e)
    ]

not_dot : (c : ℕ) → (is_first c || (c == b'-' || c == b'_')) ≡ true → (c == b'.') ≡ false
not_dot c h = ground arith

first_not_dot : (c : ℕ) → is_first c ≡ true → (c == b'.') ≡ false
first_not_dot c h = ground arith

split_rest : (b : Bytes) → are_rest b ≡ true → split b ≡ b ∷ []
unfolding split
split_rest [] h = refl
split_rest (c ∷ b) h = let (p, q) = and_split _ _ h in rw (not_dot c p, split_rest b q) refl

pub split-valid_namespace : (b : Bytes) → valid_namespace b ≡ true → split b ≡ b ∷ []
unfolding split valid_namespace
split-valid_namespace [] h = cc
split-valid_namespace (c ∷ b) h =
    let (p, q) = and_split _ _ h in rw (first_not_dot c p, split_rest b q) refl

pub bit_is_set : (t : ℕ) → has_bits (bit_or t namespace_bit) namespace_bit ≡ true
unfolding has_bits
bit_is_set t =
    let o = bit_or_place 63 t in
    let a = bit_and_place 63 (bit_or t namespace_bit) in
    (==_iff (bit_and (bit_or t namespace_bit) namespace_bit) namespace_bit).1 (omega arith)

pub valid_nonempty : (name : Bytes) → valid_namespace name ≡ true → name ≢ []
unfolding valid_namespace
valid_nonempty [] h e = cc
valid_nonempty (c ∷ name) h e = cc
