-- ===== src/Transaction/Signing/Filling.antt =====
-- The signature and the signer in their places: `fill_signature`.
use go_xpx_chain_sdk.Base.{
  Bytes, [], ap, append_assoc, arith, length, length-append, ok, refl, sym, ◌++◌, ◌+◌, ◌-◌, ◌∙◌,
  ◌≡◌,
}
use go_xpx_chain_sdk.Transaction.Signing.{fill_signature}
use go_xpx_chain_sdk.Transaction.Signing.Layout.{HasParts, length-parts, parts, slice_rest}
use go_xpx_chain_sdk.Word.{copy_at, make_bytes, zeros}
use go_xpx_chain_sdk.Word.Copies.{
  copy_end, copy_of, copy_parts, length-zeros, make_bytes_lem, slice_parts, zeros_add, zeros_split,
}

module _ (size half other signer rest : Bytes) (has : HasParts size half other signer rest) where
  pub fill_signature_lem :
      (signature public_key : Bytes)
      → length signature ≡ 64
      → length public_key ≡ 32
      → fill_signature (parts size half other signer rest) signature public_key
        ≡ ok (size ++ (signature ++ (public_key ++ rest)))
  unfolding fill_signature
  fill_signature_lem signature public_key s k =
      let b = parts size half other signer rest in
      let l = length-parts size half other signer rest has in
      let z4 = length-zeros 4 in
      let z64 = length-zeros 64 in
      let z32 = length-zeros 32 in
      let zr = length-zeros (length rest) in
      let zs = zeros (length rest) in
      let made : make_bytes (length b) 0 ≡ ok (zeros 4 ++ (zeros 64 ++ (zeros 32 ++ zs))) =
        make_bytes_lem (length b) 0 (omega arith)
        ∙ ap ok (
            zeros_split (length b - 0) 4 (64 + (32 + length rest)) (omega arith)
            ∙ ap (λ w. zeros 4 ++ w)
                (zeros_add 64 (32 + length rest)
                  ∙ ap (λ w. zeros 64 ++ w) (zeros_add 32 (length rest)))) in
      let filled = size ++ (signature ++ (public_key ++ zs)) in
      let al = length-append size (signature ++ (public_key ++ zs)) in
      let bl = length-append signature (public_key ++ zs) in
      let cl = length-append public_key zs in
      let dl = length-append size (signature ++ public_key) in
      let el = length-append signature public_key in
      let fl = length-append size signature in
      let nested : filled ≡ (size ++ (signature ++ public_key)) ++ zs =
        rw (append_assoc size (signature ++ public_key) zs, append_assoc signature public_key zs)
          refl in
      let last_copy : copy_at filled 100 (length filled) rest
          ≡ ok (size ++ (signature ++ (public_key ++ rest))) =
        ap (λ w. copy_at w 100 (length filled) rest) nested
        ∙ copy_end (size ++ (signature ++ public_key)) zs rest 100 (length filled) (omega arith)
            (omega arith) (sym zr)
        ∙ ap ok (
            append_assoc size (signature ++ public_key) rest
            ∙ ap (λ w. size ++ w) (append_assoc signature public_key rest)) in
      let third_copy : copy_at (size ++ (signature ++ (zeros 32 ++ zs))) 68 100 public_key
          ≡ ok (size ++ (signature ++ (public_key ++ zs))) =
        copy_of (size ++ signature) (zeros 32) zs public_key 68 100
          (sym (append_assoc size signature (zeros 32 ++ zs))) (omega arith) (omega arith)
          (omega arith)
        ∙ ap ok (append_assoc size signature (public_key ++ zs)) in
      rw
        (
          made,
          slice_parts [] size (half ++ (other ++ (signer ++ rest))) 0 4 refl (omega arith),
          copy_parts [] (zeros 4) (zeros 64 ++ (zeros 32 ++ zs)) size 0 4 refl (omega arith)
              (omega arith),
          copy_parts size (zeros 64) (zeros 32 ++ zs) signature 4 68 (omega arith) (omega arith)
              (omega arith),
          third_copy,
          slice_rest size half other signer rest has,
        )
        last_copy
