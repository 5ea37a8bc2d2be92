-- ===== src/Network/Trimming.antt =====
-- The printed line of a field without its outer spaces.
use go_xpx_chain_sdk.Base.{
  Bytes, [], ap, arith, drop, false, if◌then◌else◌, length, refl, suc, sym, ℕ, ◌&&◌, ◌++◌, ◌+◌, ◌∙◌,
  ◌∷◌, ◌≡◌, ◌≢◌,
}
use go_xpx_chain_sdk.Base.Text.{
  is_blank, is_space, trim_left, trim_right, trim_right-append, trim_space,
}
use go_xpx_chain_sdk.Network.Reading.{trim_space_cons}

pub drop-append_cons :
    (xs : Bytes) (c : ℕ) (ys : Bytes) → drop (length xs + 1) (xs ++ (c ∷ ys)) ≡ ys
drop-append_cons [] c ys = refl
drop-append_cons (x ∷ xs) c ys =
    let e : length (x ∷ xs) + 1 ≡ suc (length xs + 1) = omega arith in
    rw e (drop-append_cons xs c ys)

-- What is left of the end of a printed line when the spaces are removed.
abbrev pub trimmed_value : Bytes → Bytes
trimmed_value [] = []
trimmed_value (c ∷ cs) = 32 ∷ (c ∷ cs)

trim_right_step :
    (c : ℕ) (cs : Bytes)
    → trim_right (c ∷ cs)
      ≡ (if is_blank (trim_right cs) && is_space c then [] else c ∷ trim_right cs)
unfolding trim_right
trim_right_step c cs = refl

trim_right_idem : (s : Bytes) → trim_right (trim_right s) ≡ trim_right s
unfolding trim_right
trim_right_idem [] = refl
trim_right_idem (c ∷ cs) = ground (arith, trim_right_idem cs)

-- What has no outer spaces ends in none.
trim_right-trim_space : (s : Bytes) → trim_space s ≡ s → trim_right s ≡ s
unfolding trim_space
trim_right-trim_space s h = ap trim_right (sym h) ∙ (trim_right_idem (trim_left s) ∙ h)

trim_right-snoc_space : (s : Bytes) → trim_right (s ++ (32 ∷ [])) ≡ trim_right s
unfolding trim_right is_space
trim_right-snoc_space [] = refl
trim_right-snoc_space (c ∷ cs) = rw (trim_right-snoc_space cs) refl

-- The end of a printed line without its spaces.
trim_right-equals :
    (v : Bytes)
    → trim_right v ≡ v
    → trim_right (32 ∷ (b'=' ∷ (32 ∷ v))) ≡ 32 ∷ (b'=' ∷ trimmed_value v)
unfolding is_space
trim_right-equals [] h =
    rw
      (
        trim_right_step 32 (b'=' ∷ (32 ∷ [])),
        trim_right_step b'=' (32 ∷ []),
        trim_right_step 32 [],
        h,
      )
      refl
trim_right-equals (c ∷ cs) h =
    rw
      (
        trim_right_step 32 (b'=' ∷ (32 ∷ (c ∷ cs))),
        trim_right_step b'=' (32 ∷ (c ∷ cs)),
        trim_right_step 32 (c ∷ cs),
        h,
      )
      refl

pub trim_space_value : (v : Bytes) → trim_space v ≡ v → trim_space (trimmed_value v) ≡ v
unfolding trim_space trim_left is_space
trim_space_value [] h = h
trim_space_value (c ∷ cs) h = h

-- The printed line of a field without its outer spaces.
pub trimmed_line :
    (c : ℕ) (cs v : Bytes)
    → is_space c ≡ false
    → trim_space v ≡ v
    → trim_space ((c ∷ cs) ++ (32 ∷ (b'=' ∷ (32 ∷ v))))
      ≡ (c ∷ cs) ++ (32 ∷ (b'=' ∷ trimmed_value v))
trimmed_line c cs v h k =
    let end = trim_right-equals v (trim_right-trim_space v k) in
    let some_end : trim_right (32 ∷ (b'=' ∷ (32 ∷ v))) ≢ [] = λ e. cc in
    trim_space_cons c (cs ++ (32 ∷ (b'=' ∷ (32 ∷ v)))) h
    ∙ ap (λ s. c ∷ s)
        (trim_right-append cs (32 ∷ (b'=' ∷ (32 ∷ v))) some_end ∙ ap (λ s. cs ++ s) end)

pub trim_space_key :
    (c : ℕ) (cs : Bytes)
    → is_space c ≡ false
    → trim_space (c ∷ cs) ≡ c ∷ cs
    → trim_space ((c ∷ cs) ++ (32 ∷ [])) ≡ c ∷ cs
trim_space_key c cs h k =
    trim_space_cons c (cs ++ (32 ∷ [])) h
    ∙ ap (λ s. c ∷ s) (trim_right-snoc_space cs)
    ∙ sym (trim_space_cons c cs h)
    ∙ k
