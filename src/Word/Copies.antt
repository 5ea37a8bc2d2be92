-- ===== src/Word/Copies.antt =====
-- Slices of a buffer that is known by its parts, and copies into them.
use go_xpx_chain_sdk.Base.{
  Bytes, Result, [], ap, append-nil, append_assoc, arith, drop, drop-append_self, if◌then◌else◌,
  leb, length, length-append, ok, panic, refl, suc, sym, take, take-append_self, take-length, zero,
  ℕ, ◌&&◌, ◌++◌, ◌+◌, ◌-◌, ◌∙◌, ◌∷◌, ◌≡◌, ◌≤◌,
}
use go_xpx_chain_sdk.Word.{copy_at, make_bytes, overlay, slice, zeros}

pub take-append : (n : ℕ) (xs ys : Bytes) → length xs ≡ n → take n (xs ++ ys) ≡ xs
take-append n xs ys h = rw (sym h) (take-append_self xs ys)

pub drop-append : (n : ℕ) (xs ys : Bytes) → length xs ≡ n → drop n (xs ++ ys) ≡ ys
drop-append n xs ys h = rw (sym h) (drop-append_self xs ys)

overlay_all : (dst src : Bytes) → length src ≡ length dst → overlay dst src ≡ src
unfolding overlay
overlay_all [] [] h = refl
overlay_all [] (s ∷ src) h = absurd (omega arith)
overlay_all (d ∷ dst) [] h = absurd (omega arith)
overlay_all (d ∷ dst) (s ∷ src) h = ap (λ bytes. s ∷ bytes) (overlay_all dst src (omega arith))

in_bounds :
    {A : Type 0} (lo hi n : ℕ) (r : Result A)
    → lo ≤ hi
    → hi ≤ n
    → (if leb lo hi && leb hi n then r else panic) ≡ r
in_bounds lo hi n r h k = ground arith

pub slice_parts :
    (x y z : Bytes) (lo hi : ℕ)
    → length x ≡ lo
    → lo + length y ≡ hi
    → slice (x ++ (y ++ z)) lo hi ≡ ok y
unfolding slice
slice_parts x y z lo hi h k =
    in_bounds lo hi (length (x ++ (y ++ z))) _ (omega arith) (simp (length-append) (omega arith))
    ∙ rw (drop-append lo x (y ++ z) h) (ap ok (take-append (hi - lo) y z (omega arith)))

pub slice_end :
    (x y : Bytes) (lo hi : ℕ) → length x ≡ lo → lo + length y ≡ hi → slice (x ++ y) lo hi ≡ ok y
slice_end x y lo hi h k =
    ap (λ w. slice (x ++ w) lo hi) (sym (append-nil y)) ∙ slice_parts x y [] lo hi h k

pub copy_parts :
    (x y z src : Bytes) (lo hi : ℕ)
    → length x ≡ lo
    → lo + length y ≡ hi
    → length src ≡ length y
    → copy_at (x ++ (y ++ z)) lo hi src ≡ ok (x ++ (src ++ z))
unfolding copy_at
copy_parts x y z src lo hi h k e =
    let past : drop hi (x ++ (y ++ z)) ≡ z =
      ap (drop hi) (sym (append_assoc x y z))
      ∙ drop-append hi (x ++ y) z (length-append x y ∙ omega arith) in
    in_bounds lo hi (length (x ++ (y ++ z))) _ (omega arith) (simp (length-append) (omega arith))
    ∙ ap ok (
        rw
          (
            drop-append lo x (y ++ z) h,
            take-append lo x (y ++ z) h,
            take-append (hi - lo) y z (omega arith),
            overlay_all y src e,
            past,
          )
          refl)

pub copy_end :
    (x y src : Bytes) (lo hi : ℕ)
    → length x ≡ lo
    → lo + length y ≡ hi
    → length src ≡ length y
    → copy_at (x ++ y) lo hi src ≡ ok (x ++ src)
copy_end x y src lo hi h k e =
    ap (λ w. copy_at (x ++ w) lo hi src) (sym (append-nil y))
    ∙ copy_parts x y [] src lo hi h k e
    ∙ ap (λ w. ok (x ++ w)) (append-nil src)

pub zeros_add : (m n : ℕ) → zeros (m + n) ≡ zeros m ++ zeros n
unfolding zeros
zeros_add zero n = ap zeros (omega arith)
zeros_add (suc m) n =
    let e : suc m + n ≡ suc (m + n) = omega arith in ap zeros e ∙ ap (λ w. 0 ∷ w) (zeros_add m n)

pub length-zeros : (n : ℕ) → length (zeros n) ≡ n
unfolding zeros
length-zeros zero = refl
length-zeros (suc n) = ap suc (length-zeros n)

pub make_bytes_lem : (n cut : ℕ) → cut ≤ n → make_bytes n cut ≡ ok (zeros (n - cut))
unfolding make_bytes
make_bytes_lem n cut h = ground arith

-- The same for a buffer that is equal to one by parts.
pub slice_of :
    (x y z : Bytes) (lo hi : ℕ) {b : Bytes}
    → b ≡ x ++ (y ++ z)
    → length x ≡ lo
    → lo + length y ≡ hi
    → slice b lo hi ≡ ok y
slice_of x y z lo hi e h k = rw e (slice_parts x y z lo hi h k)

pub copy_of :
    (x y z src : Bytes) (lo hi : ℕ) {b : Bytes}
    → b ≡ x ++ (y ++ z)
    → length x ≡ lo
    → lo + length y ≡ hi
    → length src ≡ length y
    → copy_at b lo hi src ≡ ok (x ++ (src ++ z))
copy_of x y z src lo hi e h k l = rw e (copy_parts x y z src lo hi h k l)

pub zeros_split : (n k l : ℕ) → n ≡ k + l → zeros n ≡ zeros k ++ zeros l
zeros_split n k l h = ap zeros h ∙ zeros_add k l

overlay_prefix : (y t src : Bytes) → length src ≡ length y → overlay (y ++ t) src ≡ src ++ t
unfolding overlay
overlay_prefix [] [] [] h = refl
overlay_prefix [] (b ∷ t) [] h = refl
overlay_prefix [] t (s ∷ src) h = absurd (omega arith)
overlay_prefix (d ∷ y) t [] h = absurd (omega arith)
overlay_prefix (d ∷ y) t (s ∷ src) h = ap (λ w. s ∷ w) (overlay_prefix y t src (omega arith))

-- A copy into the rest of a buffer from a source that does not fill it.
pub copy_rest :
    (x y t src : Bytes) (lo hi : ℕ) {b : Bytes}
    → b ≡ x ++ (y ++ t)
    → length x ≡ lo
    → lo + length (y ++ t) ≡ hi
    → length src ≡ length y
    → copy_at b lo hi src ≡ ok (x ++ (src ++ t))
unfolding copy_at
copy_rest x y t src lo hi {b} e h k l =
    let past : drop hi (x ++ (y ++ t)) ≡ [] =
      ap (drop hi) (sym (append-nil (x ++ (y ++ t))))
      ∙ drop-append hi (x ++ (y ++ t)) [] (length-append x (y ++ t) ∙ omega arith) in
    rw e (
      in_bounds lo hi (length (x ++ (y ++ t))) _ (omega arith)
        (rw (length-append x (y ++ t)) (omega arith))
      ∙ ap ok (
          rw
            (
              drop-append lo x (y ++ t) h,
              take-append lo x (y ++ t) h,
              take-length (hi - lo) (y ++ t) (omega arith),
              overlay_prefix y t src l,
              past,
              append-nil (src ++ t),
            )
            refl))

pub slice-take : (n : ℕ) (b : Bytes) → n ≤ length b → slice b 0 n ≡ ok (take n b)
unfolding slice
slice-take n b h =
    in_bounds 0 n (length b) _ (omega arith) h
    ∙ ap (λ k. ok (take k b)) (let e : n - 0 ≡ n = omega arith in e)
