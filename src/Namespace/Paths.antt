-- ===== src/Namespace/Paths.antt =====
-- The paths of namespace names, and how names nest.
use Prim.Native.Nat.{bit_or}
use go_xpx_chain_sdk.Base.{
  >>=-eq-ok, Bool, Bool-cases, Bytes, List, Result, [], and_split, ap, arith, err,
  err_invalid_namespace_name, err_namespace_too_many_part, if◌then◌else◌, inl, inr, length,
  length-append, ltb, ok, refl, suc, sym, take, true, ℕ, ◌&&◌, ◌++◌, ◌==◌, ◌>>=◌, ◌↔◌, ◌∙◌, ◌∷◌,
  ◌≡◌, ◌≢◌, ◌≤◌,
}
use go_xpx_chain_sdk.Asset.{NamespaceId, namespace_bit, new_namespace_id}
use go_xpx_chain_sdk.Namespace.{
  generate_namespace_id, generate_namespace_path, last, little_endian_uint64,
  new_namespace_id_from_name, path_from, split, valid_namespace,
}
use go_xpx_chain_sdk.Namespace.Parts.{bit_is_set, split-valid_namespace, split_dot, split_nonempty}
use go_xpx_chain_sdk.Transaction.Signing.Layout.{parts}
use go_xpx_chain_sdk.Uint64.{has_bits, to_little_endian}
use go_xpx_chain_sdk.Word.{from_le}

-- A namespace identifier that has its bit.
abbrev pub IsNamespace : NamespaceId → Type 0
IsNamespace n = has_bits n.base_int64 namespace_bit ≡ true

pub all_namespaces : List NamespaceId → Bool
all_namespaces [] = true
all_namespaces (n ∷ ns) = has_bits n.base_int64 namespace_bit && all_namespaces ns

-- The last identifier of a path, or the one that it starts behind.
pub final : List NamespaceId → NamespaceId → NamespaceId
final [] parent = parent
final (n ∷ ns) parent = final ns n

new_namespace_id_set :
    (n : ℕ) → has_bits n namespace_bit ≡ true → new_namespace_id n ≡ ok (record { base_int64 = n })
unfolding new_namespace_id
new_namespace_id_set n h = elim (Bool-cases (n == 0)) [ inl t ↦ rw t refl | inr f ↦ rw (f, h) refl ]

-- Every part of a name is allowed.
pub are_valid : List Bytes → Bool
are_valid [] = true
are_valid (part ∷ parts) = valid_namespace part && are_valid parts

guards_passed :
    (n : ℕ) (r : Result (List NamespaceId)) {path : List NamespaceId}
    → (if n == 0
        then err err_invalid_namespace_name
        else if ltb 3 n
        then err err_namespace_too_many_part
        else r)
      ≡ ok path
    → (n ≤ 3) × (r ≡ ok path)
guards_passed n r h = ground arith

pass_guards :
    (n : ℕ) (r : Result (List NamespaceId))
    → n ≢ 0
    → n ≤ 3
    → (if n == 0
        then err err_invalid_namespace_name
        else if ltb 3 n
        then err err_namespace_too_many_part
        else r)
      ≡ r
pass_guards n r h k = ground arith

split_some : (name : Bytes) → length (split name) ≢ 0
split_some name = let (first, parts, e) = split_nonempty name in rw e (omega arith)

abbrev no_parent : NamespaceId
no_parent = record { base_int64 = 0 }

last-final :
    (path : List NamespaceId) (n parent : NamespaceId)
    → last (n ∷ path) ≡ ok (final (n ∷ path) parent)
unfolding last final
last-final [] n parent = refl
last-final (m ∷ path) n parent = last-final path m n

last-snoc : (path : List NamespaceId) (n : NamespaceId) → last (path ++ (n ∷ [])) ≡ ok n
unfolding last
last-snoc [] n = refl
last-snoc (m ∷ []) n = refl
last-snoc (m ∷ (k ∷ path)) n = last-snoc (k ∷ path) n

last_is_final :
    (path : List NamespaceId) (parent : NamespaceId) {n : NamespaceId}
    → last path ≡ ok n
    → final path parent ≡ n
unfolding last
last_is_final [] parent h = cc
last_is_final (m ∷ path) parent h = let e = last-final path m parent in cc

module _ (sha3 : Bytes → Bytes) (digest : (b : Bytes) → length (sha3 b) ≡ 32) where
  -- With a digest of 32 bytes, every name has an identifier below every parent: hashing does not fail,
  -- and the result has the bit of a namespace.
  pub generate_namespace_id_total :
      (name : Bytes) (parent : ℕ)
      → (n : NamespaceId) × (generate_namespace_id sha3 name parent ≡ ok n)
        × (has_bits n.base_int64 namespace_bit ≡ true)
  unfolding generate_namespace_id little_endian_uint64
  generate_namespace_id_total name parent =
      let hashed = sha3 (to_little_endian parent ++ name) in
      let id = bit_or (from_le (take 8 hashed)) namespace_bit in
      (
        record { base_int64 = id },
        rw (digest (to_little_endian parent ++ name)) (new_namespace_id_set id (bit_is_set _)),
        bit_is_set (from_le (take 8 hashed)),
      )

  path_from_total :
      (parts : List Bytes) (parent : NamespaceId)
      → are_valid parts ≡ true
      → (path : List NamespaceId) × (path_from sha3 parts parent ≡ ok path)
        × (length path ≡ length parts)
        × (all_namespaces path ≡ true)
  unfolding path_from are_valid all_namespaces
  path_from_total [] parent h = ([], refl, refl, refl)
  path_from_total (part ∷ parts) parent h =
      let (v, vs) = and_split (valid_namespace part) (are_valid parts) h in
      let (n, e, b) = generate_namespace_id_total part parent.base_int64 in
      let (path, es, l, bs) = path_from_total parts n vs in
      (n ∷ path, rw (v, e, es) refl, ap suc l, rw (b, bs) refl)

  path_from_valid :
      (parts : List Bytes) (parent : NamespaceId) {path : List NamespaceId}
      → path_from sha3 parts parent ≡ ok path
      → are_valid parts ≡ true
  unfolding path_from are_valid
  path_from_valid [] parent h = refl
  path_from_valid (part ∷ parts) parent {path} h = elim (Bool-cases (valid_namespace part)) [
    | inr f ↦ (let k : err err_invalid_namespace_name ≡ ok path = rw f at h in cc)
    | inl t ↦
        let (n, e, k) =
          >>=-eq-ok (generate_namespace_id sha3 part parent.base_int64)
            (λ n. path_from sha3 parts n >>= λ path. ok (n ∷ path)) (rw t at h) in
        let (path, es, last_step) = >>=-eq-ok (path_from sha3 parts n) (λ path. ok (n ∷ path)) k in
        rw t (path_from_valid parts n es)
  ]

  path_from-snoc :
      (parts : List Bytes) (part : Bytes) (parent : NamespaceId) {path : List NamespaceId}
      → valid_namespace part ≡ true
      → path_from sha3 parts parent ≡ ok path
      → path_from sha3 (parts ++ (part ∷ [])) parent ≡ (
          generate_namespace_id sha3 part (final path parent).base_int64 >>= λ n.
          ok (path ++ (n ∷ [])))
  unfolding path_from final
  path_from-snoc [] part parent {path} v h = let same : [] ≡ path = cc in rw (sym same, v) refl
  path_from-snoc (first ∷ parts) part parent {path} v h =
      elim (Bool-cases (valid_namespace first)) [
        | inr f ↦ (let k : err err_invalid_namespace_name ≡ ok path = rw f at h in cc)
        | inl t ↦
            let (n, e, k) =
              >>=-eq-ok (generate_namespace_id sha3 first parent.base_int64)
                (λ n. path_from sha3 parts n >>= λ path. ok (n ∷ path)) (rw t at h) in
            let (rest, es, q) = >>=-eq-ok (path_from sha3 parts n) (λ path. ok (n ∷ path)) k in
            let same : n ∷ rest ≡ path = cc in
            let (m, em, bit) = generate_namespace_id_total part (final rest n).base_int64 in
            rw (sym same, t, e, path_from-snoc parts part n v es, em) refl
      ]

  path_from_start :
      (name : Bytes) {path : List NamespaceId}
      → generate_namespace_path sha3 name ≡ ok path
      → (length (split name) ≤ 3) × (path_from sha3 (split name) no_parent ≡ ok path)
  unfolding generate_namespace_path
  path_from_start name h =
      guards_passed (length (split name)) (path_from sha3 (split name) no_parent) h

  -- With a digest of 32 bytes, a name has a path exactly when it has at most three parts and all of
  -- them are allowed.
  pub generate_namespace_path_iff :
      (name : Bytes)
      → ((path : List NamespaceId) × (generate_namespace_path sha3 name ≡ ok path))
        ↔ ((length (split name) ≤ 3) × (are_valid (split name) ≡ true))
  unfolding generate_namespace_path
  generate_namespace_path_iff name = (
    (λ h.
        let (path, e) = h in
        let (short, from) = path_from_start name e in
        (short, path_from_valid (split name) no_parent from)),
    λ h.
        let (path, e, l, all_set) = path_from_total (split name) no_parent h.1 in
        (path, pass_guards (length (split name)) _ (split_some name) h.0 ∙ e),
  )

  -- With a digest of 32 bytes, a path has an identifier for every part of the name, at most three, and
  -- each has the bit of a namespace.
  pub generate_namespace_path_lem :
      (name : Bytes) {path : List NamespaceId}
      → generate_namespace_path sha3 name ≡ ok path
      → (length path ≡ length (split name)) × (length path ≤ 3) × (all_namespaces path ≡ true)
  unfolding generate_namespace_path
  generate_namespace_path_lem name {path} h =
      let (short, from) = path_from_start name h in
      let (q, e, l, all_set) =
        path_from_total (split name) no_parent (path_from_valid (split name) no_parent from) in
      let same : q ≡ path = cc in rw (sym same) (l, omega arith, all_set)

  -- With a digest of 32 bytes, the identifier that a name has below a parent is that of the parent's
  -- name, a dot and the name: for a parent's name that has an identifier and at most two parts, and
  -- for an allowed name.
  pub new_namespace_id_from_name-dot :
      (parent name : Bytes) {p : NamespaceId}
      → new_namespace_id_from_name sha3 parent ≡ ok p
      → length (split parent) ≤ 2
      → valid_namespace name ≡ true
      → new_namespace_id_from_name sha3 (parent ++ (b'.' ∷ name))
        ≡ generate_namespace_id sha3 name p.base_int64
  unfolding new_namespace_id_from_name generate_namespace_path
  new_namespace_id_from_name-dot parent name {p} h two v =
      let (path, e, is_last) = >>=-eq-ok (generate_namespace_path sha3 parent) last h in
      let (short, from) = path_from_start parent e in
      let parts : split (parent ++ (b'.' ∷ name)) ≡ split parent ++ (name ∷ []) =
        split_dot parent name ∙ rw (split-valid_namespace name v) refl in
      let few : length (split parent ++ (name ∷ [])) ≤ 3 =
        rw (length-append (split parent) (name ∷ [])) (omega arith) in
      let some_part : length (split parent ++ (name ∷ [])) ≢ 0 =
        rw (length-append (split parent) (name ∷ [])) (omega arith) in
      let (n, en, bit) = generate_namespace_id_total name p.base_int64 in
      rw
        (
          parts,
          pass_guards (length (split parent ++ (name ∷ []))) _ some_part few,
          path_from-snoc (split parent) name no_parent v from,
          last_is_final path no_parent is_last,
          en,
        )
        (last-snoc path n)
