-- ===== src/Transaction/Signing/Embedding.antt =====
-- A transaction inside an aggregate: `embed`.
use go_xpx_chain_sdk.Base.{
  Bytes, [], ap, append_assoc, arith, length, length-append, length-take, ok, refl, sym, take, ◌++◌,
  ◌+◌, ◌-◌, ◌∙◌, ◌≡◌, ◌≤◌,
}
use go_xpx_chain_sdk.Transaction.Signing.{embed}
use go_xpx_chain_sdk.Transaction.Signing.Layout.{HasParts, behind_signer, length-parts, parts}
use go_xpx_chain_sdk.Word.{copy_at, length-to_le, make_bytes, slice, to_le, zeros}
use go_xpx_chain_sdk.Word.Copies.{
  copy_end, copy_of, copy_parts, length-zeros, make_bytes_lem, slice-take, slice_end, slice_of,
  zeros_add, zeros_split,
}

-- The parts of the generated bytes that embedding tells apart: what follows the signer has the version
-- and the type first, and then the fee and the deadline.
module _ (size half other signer middle timing tail : Bytes)
    (has : HasParts size half other signer (middle ++ (timing ++ tail))) (m : length middle ≡ 6)
    (t : length timing ≡ 16) where
  pub embed_lem :
      (sb : Bytes)
      → 32 ≤ length sb
      → embed sb (parts size half other signer (middle ++ (timing ++ tail)))
        ≡ ok (to_le 4 (42 + length tail) ++ (take 32 sb ++ (middle ++ tail)))
  unfolding embed
  embed_lem sb enough =
      let rest = middle ++ (timing ++ tail) in
      let b = parts size half other signer rest in
      let l = length-parts size half other signer rest has in
      let rl = length-append middle (timing ++ tail) in
      let tl = length-append timing tail in
      let before = size ++ (half ++ (other ++ signer)) in
      let a = length-append size (half ++ (other ++ signer)) in
      let b1 = length-append half (other ++ signer) in
      let c = length-append other signer in
      let d = length-append before (middle ++ timing) in
      let e = length-append middle timing in
      let z4 = length-zeros 4 in
      let z32 = length-zeros 32 in
      let z6 = length-zeros 6 in
      let zs = zeros (length tail) in
      let zr = length-zeros (length tail) in
      let key = take 32 sb in
      let kl : length key ≡ 32 = length-take 32 sb ∙ omega arith in
      let made : make_bytes (length b) 80 ≡ ok (zeros 4 ++ (zeros 32 ++ (zeros 6 ++ zs))) =
        make_bytes_lem (length b) 80 (omega arith)
        ∙ ap ok (
            zeros_split (length b - 80) 4 (32 + (6 + length tail)) (omega arith)
            ∙ ap (λ w. zeros 4 ++ w)
                (zeros_add 32 (6 + length tail)
                  ∙ ap (λ w. zeros 32 ++ w) (zeros_add 6 (length tail)))) in
      let end_slice : slice b 122 (length b) ≡ ok tail =
        ap (λ w. slice w 122 (length b))
          (behind_signer size half other signer rest
            ∙ ap (λ w. before ++ w) (sym (append_assoc middle timing tail))
            ∙ sym (append_assoc before (middle ++ timing) tail))
        ∙ slice_end (before ++ (middle ++ timing)) tail 122 (length b) (omega arith)
            (omega arith) in
      let second_copy : copy_at (zeros 4 ++ (key ++ (zeros 6 ++ zs))) 36 42 middle
          ≡ ok (zeros 4 ++ (key ++ (middle ++ zs))) =
        copy_of (zeros 4 ++ key) (zeros 6) zs middle 36 42
          (sym (append_assoc (zeros 4) key (zeros 6 ++ zs)))
          (length-append (zeros 4) key ∙ omega arith) (omega arith) (omega arith)
        ∙ ap ok (append_assoc (zeros 4) key (middle ++ zs)) in
      let filled = zeros 4 ++ (key ++ (middle ++ zs)) in
      let fl : length filled ≡ 42 + length tail =
        length-append (zeros 4) (key ++ (middle ++ zs))
        ∙ omega (arith, length-append key (middle ++ zs), length-append middle zs) in
      let nested : filled ≡ (zeros 4 ++ (key ++ middle)) ++ zs =
        rw (append_assoc (zeros 4) (key ++ middle) zs, append_assoc key middle zs) refl in
      let third_copy : copy_at filled 42 (length filled) tail
          ≡ ok (zeros 4 ++ (key ++ (middle ++ tail))) =
        ap (λ w. copy_at w 42 (length filled) tail) nested
        ∙ copy_end (zeros 4 ++ (key ++ middle)) zs tail 42 (length filled)
            (length-append (zeros 4) (key ++ middle) ∙ omega (arith, length-append key middle))
            (omega arith) (sym zr)
        ∙ ap ok (
            append_assoc (zeros 4) (key ++ middle) tail
            ∙ ap (λ w. zeros 4 ++ w) (append_assoc key middle tail)) in
      let whole : length (zeros 4 ++ (key ++ (middle ++ tail))) ≡ 42 + length tail =
        length-append (zeros 4) (key ++ (middle ++ tail))
        ∙ omega (arith, length-append key (middle ++ tail), length-append middle tail) in
      rw
        (
          made,
          slice-take 32 sb enough,
          copy_parts (zeros 4) (zeros 32) (zeros 6 ++ zs) key 4 36 (omega arith) (omega arith)
              (omega arith),
          slice_of before middle (timing ++ tail) 100 106
              (behind_signer size half other signer rest) (omega arith) (omega arith),
          second_copy,
          end_slice,
          third_copy,
          whole,
          copy_parts [] (zeros 4) (key ++ (middle ++ tail)) (to_le 4 (42 + length tail)) 0 4 refl
              (omega arith) (omega (arith, length-to_le 4 (42 + length tail))),
        )
        refl
