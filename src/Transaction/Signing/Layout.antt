-- ===== src/Transaction/Signing/Layout.antt =====
-- The places of the signature, the signer and the generation hash.
use go_xpx_chain_sdk.Base.{
  Bytes, Option, [], ap, append_assoc, arith, length, length-append, none, ok, refl, some, sym,
  ◌++◌, ◌+◌, ◌-◌, ◌∙◌, ◌≡◌,
}
use go_xpx_chain_sdk.Transaction.Signing.{
  copy_generation_hash, generation_bytes, hash_input, signing_input,
}
use go_xpx_chain_sdk.Word.{copy_at, make_bytes, slice, zeros}
use go_xpx_chain_sdk.Word.Copies.{
  copy_end, copy_parts, copy_rest, length-zeros, make_bytes_lem, slice_end, slice_of, zeros_add,
  zeros_split,
}

-- The parts of the generated bytes that signing tells apart.
pub record HasParts (size half other signer rest : Bytes) : Type 0 where
  pub size_length : length size ≡ 4
  pub half_length : length half ≡ 32
  pub other_length : length other ≡ 32
  pub signer_length : length signer ≡ 32

abbrev pub parts : Bytes → Bytes → Bytes → Bytes → Bytes → Bytes
parts size half other signer rest = size ++ (half ++ (other ++ (signer ++ rest)))

pub length-parts :
    (size half other signer rest : Bytes)
    → HasParts size half other signer rest
    → length (parts size half other signer rest) ≡ 100 + length rest
length-parts size half other signer rest has = simp (length-append) (omega arith)

pub before_signer :
    (size half other signer rest : Bytes)
    → parts size half other signer rest ≡ (size ++ (half ++ other)) ++ (signer ++ rest)
before_signer size half other signer rest =
    rw
      (append_assoc size (half ++ other) (signer ++ rest), append_assoc half other (signer ++ rest))
      refl

pub behind_signer :
    (size half other signer rest : Bytes)
    → parts size half other signer rest ≡ (size ++ (half ++ (other ++ signer))) ++ rest
behind_signer size half other signer rest =
    rw
      (
        append_assoc size (half ++ (other ++ signer)) rest,
        append_assoc half (other ++ signer) rest,
        append_assoc other signer rest,
      )
      refl

pub slice_rest :
    (size half other signer rest : Bytes)
    → HasParts size half other signer rest
    → slice (parts size half other signer rest) 100 (length (parts size half other signer rest))
      ≡ ok rest
slice_rest size half other signer rest has =
    let a = length-append size (half ++ (other ++ signer)) in
    let b = length-append half (other ++ signer) in
    let c = length-append other signer in
    let l = length-parts size half other signer rest has in
    ap (λ w. slice w 100 (length (parts size half other signer rest)))
      (behind_signer size half other signer rest)
    ∙ slice_end (size ++ (half ++ (other ++ signer))) rest 100
        (length (parts size half other signer rest)) (omega arith) (omega arith)

zeros_none : zeros 0 ≡ []
unfolding zeros
zeros_none = refl

-- The copy of the generation hash, where one is.
copy_generation_hash_lem :
    (half signer tail : Bytes) (g : Option Bytes)
    → length half ≡ 32
    → length signer ≡ 32
    → copy_generation_hash (half ++ (signer ++ (zeros (length (generation_bytes g)) ++ tail))) g
      ≡ ok (half ++ (signer ++ (generation_bytes g ++ tail)))
copy_generation_hash_lem half signer tail none h k =
    ap (λ w. ok (half ++ (signer ++ (w ++ tail)))) zeros_none
copy_generation_hash_lem half signer tail (some hash) h k =
    let z = length-zeros (length hash) in
    let w = zeros (length hash) ++ tail in
    let l = length-append half (signer ++ w) in
    let m = length-append signer w in
    copy_rest (half ++ signer) (zeros (length hash)) tail hash 64 (length (half ++ (signer ++ w)))
      (sym (append_assoc half signer w)) (rw (length-append half signer) (omega arith))
      (omega arith) (sym z)
    ∙ ap ok (append_assoc half signer (hash ++ tail))

module _ (size half other signer rest : Bytes) (has : HasParts size half other signer rest) where
  pub hash_input_lem :
      (g : Option Bytes)
      → hash_input (parts size half other signer rest) g
        ≡ ok (half ++ (signer ++ (generation_bytes g ++ rest)))
  unfolding hash_input
  hash_input_lem g =
      let b = parts size half other signer rest in
      let n = length (generation_bytes g) in
      let l = length-parts size half other signer rest has in
      let z32 = length-zeros 32 in
      let zn = length-zeros n in
      let zr = length-zeros (length rest) in
      let placed = length-append size (half ++ other) in
      let placed2 = length-append half other in
      let filled = half ++ (signer ++ (generation_bytes g ++ zeros (length rest))) in
      let fl = length-append half (signer ++ (generation_bytes g ++ zeros (length rest))) in
      let gl = length-append signer (generation_bytes g ++ zeros (length rest)) in
      let hl = length-append (generation_bytes g) (zeros (length rest)) in
      let pl = length-append half (signer ++ generation_bytes g) in
      let ql = length-append signer (generation_bytes g) in
      let nested : filled ≡ (half ++ (signer ++ generation_bytes g)) ++ zeros (length rest) =
        rw
          (
            append_assoc half (signer ++ generation_bytes g) (zeros (length rest)),
            append_assoc signer (generation_bytes g) (zeros (length rest)),
          )
          refl in
      let last_copy : copy_at filled (64 + n) (length filled) rest
          ≡ ok (half ++ (signer ++ (generation_bytes g ++ rest))) =
        ap (λ w. copy_at w (64 + n) (length filled) rest) nested
        ∙ copy_end (half ++ (signer ++ generation_bytes g)) (zeros (length rest)) rest (64 + n)
            (length filled) (omega arith) (omega arith) (sym zr)
        ∙ ap ok (
            append_assoc half (signer ++ generation_bytes g) rest
            ∙ ap (λ w. half ++ w) (append_assoc signer (generation_bytes g) rest)) in
      let made : make_bytes (length b + n) 36
          ≡ ok (zeros 32 ++ (zeros 32 ++ (zeros n ++ zeros (length rest)))) =
        make_bytes_lem (length b + n) 36 (omega arith)
        ∙ ap ok (
            zeros_split (length b + n - 36) 32 (32 + (n + length rest)) (omega arith)
            ∙ ap (λ w. zeros 32 ++ w)
                (zeros_split (32 + (n + length rest)) 32 (n + length rest) refl
                  ∙ ap (λ w. zeros 32 ++ w) (zeros_add n (length rest)))) in
      rw
        (
          made,
          slice_of size half (other ++ (signer ++ rest)) 4 36 refl has.size_length (omega arith),
          copy_parts [] (zeros 32) (zeros 32 ++ (zeros n ++ zeros (length rest))) half 0 32 refl
              (omega arith) (omega arith),
          slice_of (size ++ (half ++ other)) signer rest 68 100
              (before_signer size half other signer rest) (omega arith) (omega arith),
          copy_parts half (zeros 32) (zeros n ++ zeros (length rest)) signer 32 64 (omega arith)
              (omega arith) (omega arith),
          copy_generation_hash_lem half signer (zeros (length rest)) g (omega arith) (omega arith),
          slice_rest size half other signer rest has,
        )
        last_copy

  pub signing_input_lem :
      (g : Option Bytes)
      → signing_input (parts size half other signer rest) g ≡ ok (generation_bytes g ++ rest)
  unfolding signing_input
  signing_input_lem g =
      let b = parts size half other signer rest in
      let l = length-parts size half other signer rest has in
      let zr = length-zeros (length rest) in
      let made : make_bytes (length b) 100 ≡ ok (zeros (length rest)) =
        make_bytes_lem (length b) 100 (omega arith) ∙ ap (λ n. ok (zeros n)) (omega arith) in
      rw
        (
          made,
          slice_rest size half other signer rest has,
          copy_end [] (zeros (length rest)) rest 0 (length (zeros (length rest))) refl (omega arith)
              (sym zr),
        )
        refl
