-- ===== src/Transaction/Parts.antt =====
-- Vectors of small objects inside a transaction.
use go_xpx_chain_sdk.Base.{
  Bytes, List, [], arith, length, length-append, map, refl, true, ℕ, ◌*◌, ◌++◌, ◌∙◌, ◌∷◌, ◌≡◌,
}
use go_xpx_chain_sdk.Buffers.{to_objects}
use go_xpx_chain_sdk.Schema.{Schema}
use go_xpx_chain_sdk.Schema.Format.{Slots, fits, objects_fit, wire, wire_objects}

module _ {ℓ} {A : Type ℓ} where
  -- The bytes of one item after the other.
  unfoldable pub concat_map : (A → Bytes) → List A → Bytes
  concat_map f [] = []
  concat_map f (x ∷ xs) = f x ++ concat_map f xs

  pub objects_fit-map :
      (f : A → Slots) (schema : Schema)
      → ((a : A) → fits (f a) schema ≡ true)
      → (xs : List A) → objects_fit (to_objects (map f xs)) schema ≡ true
  unfolding objects_fit
  objects_fit-map f schema h [] = refl
  objects_fit-map f schema h (x ∷ xs) = rw (h x, objects_fit-map f schema h xs)

  pub wire_objects-map :
      (f : A → Slots) (g : A → Bytes)
      → ((a : A) → wire (f a) ≡ g a)
      → (xs : List A) → wire_objects (to_objects (map f xs)) ≡ concat_map g xs
  unfolding wire_objects concat_map
  wire_objects-map f g h [] = refl
  wire_objects-map f g h (x ∷ xs) = rw (h x, wire_objects-map f g h xs)

  pub length-concat_map :
      (g : A → Bytes) (k : ℕ)
      → ((a : A) → length (g a) ≡ k)
      → (xs : List A) → length (concat_map g xs) ≡ k * length xs
  unfolding concat_map
  length-concat_map g k h [] = omega arith
  length-concat_map g k h (x ∷ xs) =
      length-append (g x) (concat_map g xs) ∙ grind (arith, h x, length-concat_map g k h xs)
