-- ===== src/Account/Pretty.antt =====
-- The printed form of an address, with dashes, is read as the address.
use go_xpx_chain_sdk.Base.{
  Bool-cases, Bytes, [], ap, ap₂, arith, drop, inl, inr, leb, length, length-drop, ok, refl, suc,
  sym, take, take-drop, take-length, true, zero, ℕ, ◌*◌, ◌++◌, ◌+◌, ◌-◌, ◌==◌, ◌∙◌, ◌∷◌, ◌≡◌, ◌≤◌,
}
use go_xpx_chain_sdk.Account.{new_address, pretty, pretty_groups, without_dashes}
use go_xpx_chain_sdk.Account.Addresses.{without_dashes-IsText}
use go_xpx_chain_sdk.Encoding.{base32_encode_to_string}
use go_xpx_chain_sdk.Encoding.Base32.{
  IsText, base32_encode_to_string-IsText, length-AreGroups, length-base32_encode_to_string, no_char,
  one_char, to_upper-IsText,
}
use go_xpx_chain_sdk.Encoding.RoundTrip.{are_bytes}
use go_xpx_chain_sdk.Transaction.{Address}
use go_xpx_chain_sdk.Word.{slice}

without_dashes-append :
    (s t : Bytes) → without_dashes (s ++ t) ≡ without_dashes s ++ without_dashes t
unfolding without_dashes
without_dashes-append [] t = refl
without_dashes-append (c ∷ s) t = elim (Bool-cases (c == b'-')) [
  | inl h ↦ rw (h, without_dashes-append s t) refl
  | inr h ↦ rw (h, without_dashes-append s t) refl
]

IsText-take : (n : ℕ) {t : Bytes} → IsText t → IsText (take n t)
IsText-take zero h = no_char
IsText-take (suc n) no_char = no_char
IsText-take (suc n) (one_char digit more) = one_char digit (IsText-take n more)

IsText-drop : (n : ℕ) {t : Bytes} → IsText t → IsText (drop n t)
IsText-drop zero h = h
IsText-drop (suc n) no_char = no_char
IsText-drop (suc n) (one_char digit more) = IsText-drop n more

drop-drop : (n m : ℕ) (t : Bytes) → drop n (drop m t) ≡ drop (m + n) t
drop-drop n zero t = ap (λ (k : ℕ). drop k t) (omega arith)
drop-drop n (suc m) [] = drop_nil n ∙ sym (drop_nil (suc m + n))
  where
    drop_nil : (k : ℕ) → drop {A = ℕ} k [] ≡ []
    drop_nil zero = refl
    drop_nil (suc k) = refl
drop-drop n (suc m) (c ∷ t) =
    let e : suc m + n ≡ suc (m + n) = omega arith in
    drop-drop n m t ∙ ap (λ (k : ℕ). drop k (c ∷ t)) (sym e)

slice_at :
    (t : Bytes) (lo n hi : ℕ)
    → lo + n ≡ hi
    → hi ≤ length t
    → slice t lo hi ≡ ok (take n (drop lo t))
unfolding slice
slice_at t lo n hi e h =
    let low : leb lo hi ≡ true = ground arith in
    let high : leb hi (length t) ≡ true = ground arith in
    let size : hi - lo ≡ n = omega arith in rw (low, high, size) refl

dashed : (rest : Bytes) → without_dashes (b'-' ∷ rest) ≡ without_dashes rest
unfolding without_dashes
dashed rest = refl

-- The groups from `i` on, with dashes left out, are what is left of the text.
groups_lem :
    (left i : ℕ) (t : Bytes)
    → IsText t
    → length t ≡ (i + left) * 6 + 4
    → (p : Bytes) × (pretty_groups left i t ≡ ok p) × (without_dashes p ≡ drop (i * 6) t)
unfolding pretty_groups
groups_lem zero i t text l =
    let from : length t - 4 ≡ i * 6 = omega arith in
    let to : length t ≡ i * 6 + 4 = omega arith in
    let last : take 4 (drop (i * 6) t) ≡ drop (i * 6) t =
      take-length 4 (drop (i * 6) t) (omega (arith, length-drop (i * 6) t)) in
    let fits : leb 4 (length t) ≡ true = ground arith in
    (
      drop (i * 6) t,
      rw fits (
          slice_at t (length t - 4) 4 (length t) (omega arith) (omega arith)
          ∙ rw from (ap ok last)),
      without_dashes-IsText (IsText-drop (i * 6) text),
    )
groups_lem (suc left) i t text l =
    let group = take 6 (drop (i * 6) t) in
    let (rest, printed, e) = groups_lem left (i + 1) t text (omega arith) in
    let sliced : slice t (i * 6) (i * 6 + 6) ≡ ok group =
      slice_at t (i * 6) 6 (i * 6 + 6) refl (omega arith) in
    let plain : without_dashes group ≡ group =
      without_dashes-IsText (IsText-take 6 (IsText-drop (i * 6) text)) in
    let next : drop 6 (drop (i * 6) t) ≡ drop ((i + 1) * 6) t =
      drop-drop 6 (i * 6) t ∙ ap (λ (k : ℕ). drop k t) (omega arith) in
    (
      group ++ (b'-' ∷ rest),
      rw (sliced, printed) refl,
      without_dashes-append group (b'-' ∷ rest)
          ∙ ap₂ (λ (x y : Bytes). x ++ y) plain (dashed rest ∙ e ∙ sym next)
          ∙ take-drop 6 (drop (i * 6) t),
    )

-- The text of twenty-five bytes in base32, printed with dashes as an address, is read as that address.
pub new_address-pretty :
    (bytes : Bytes) (network_type : ℕ)
    → length bytes ≡ 25
    → are_bytes bytes ≡ true
    → let ad : Address = record { type = network_type; address = base32_encode_to_string bytes } in
      (p : Bytes) × (pretty ad ≡ ok p) × (new_address p network_type ≡ ad)
unfolding pretty new_address
new_address-pretty bytes network_type l h =
    let groups = length-AreGroups 5 bytes l h in
    let text = base32_encode_to_string-IsText groups in
    let size : length (base32_encode_to_string bytes) ≡ 40 =
      omega (arith, length-base32_encode_to_string groups) in
    let (p, printed, plain) = groups_lem 6 0 (base32_encode_to_string bytes) text size in
    (p, printed, rw (plain, to_upper-IsText text) refl)
