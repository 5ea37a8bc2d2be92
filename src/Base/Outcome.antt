-- ===== src/Base/Outcome.antt =====
-- What a Go function returns: a value, an error value, or no return at all because of a panic.
use mathlib.Core.Path.{◌≡◌, refl}
use Prim.Native.String.{String}
use Prim.Native.Nat.{ℕ}
use mathlib.Core.Option.{Option, none, some}

-- The error values that the SDK names (sdk/errors.go), and those made on the spot from a message.
pub data Error : Type 0 where
  err_nil_asset_id err_empty_asset_ids err_unknown_blockchain_type : Error
  err_invalid_hash_length err_invalid_signature_length : Error
  err_wrong_bit_mosaic_id err_invalid_owner_public_key err_nil_mosaic_properties : Error
  err_namespace_too_many_part err_nil_namespace_id err_wrong_bit_namespace_id : Error
  err_invalid_namespace_name : Error
  err_nil_secret err_nil_proof err_nil_address err_invalid_address : Error
  new_error : String → Error
  -- A message with the number of a line of text.
  at_line : String → ℕ → Error

pub data Result {ℓ} (A : Type ℓ) : Type ℓ where
  ok : A → Result A
  err : Error → Result A
  panic : Result A

infixl 5 ◌>>=◌
abbrev pub ◌>>=◌ {ℓ κ} : {X : Type ℓ} {Y : Type κ} → Result X → (X → Result Y) → Result Y
panic >>= next = panic
ok a >>= next = next a
err e >>= next = err e

-- A pointer is followed: a nil pointer panics.
abbrev pub deref {ℓ} : {X : Type ℓ} → Option X → Result X
deref none = panic
deref (some x) = ok x

-- What succeeds in two steps succeeds in each.
pub >>=-eq-ok {ℓ κ} :
    {X : Type ℓ} {Y : Type κ} {y : Y} (first : Result X) (next : X → Result Y)
    → (first >>= next) ≡ ok y
    → (x : X) × (first ≡ ok x) × (next x ≡ ok y)
>>=-eq-ok panic next done = cc
>>=-eq-ok (err e) next done = cc
>>=-eq-ok (ok x) next done = (x, refl, done)
