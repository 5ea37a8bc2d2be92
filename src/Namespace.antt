-- ===== src/Namespace.antt =====
-- Namespace names and their identifiers: sdk/namespace_model.go and sdk/namespace_internal.go. The
-- hash of golang.org/x/crypto is a parameter.
pub mod Parts
pub mod Paths
use Prim.Native.Nat.{bit_or}
use go_xpx_chain_sdk.Base.{
  Bool, Bytes, List, Result, [], err, err_invalid_namespace_name, err_namespace_too_many_part,
  false, if◌then◌else◌, leb, length, ltb, not, ok, panic, take, true, ℕ, ◌&&◌, ◌++◌, ◌==◌, ◌>>=◌,
  ◌||◌, ◌∷◌,
}
use go_xpx_chain_sdk.Asset.{NamespaceId, namespace_bit, new_namespace_id}
use go_xpx_chain_sdk.Uint64.{to_little_endian}
use go_xpx_chain_sdk.Word.{from_le}

abbrev pub onto_first : ℕ → List Bytes → List Bytes
onto_first c [] = (c ∷ []) ∷ []
onto_first c (part ∷ parts) = (c ∷ part) ∷ parts

-- `strings.Split(name, ".")`
unfoldable pub split : Bytes → List Bytes
split [] = [] ∷ []
split (c ∷ rest) =
    let rest_parts = split rest in if c == b'.' then [] ∷ rest_parts else onto_first c rest_parts

abbrev pub is_first : ℕ → Bool
is_first c = (leb b'a' c && leb c b'z') || (leb b'0' c && leb c b'9')

abbrev pub are_rest : Bytes → Bool
are_rest [] = true
are_rest (c ∷ rest) = (is_first c || (c == b'-' || c == b'_')) && are_rest rest

-- `regValidNamespace`, that is `^[a-z0-9][a-z0-9-_]*$`
unfoldable pub valid_namespace : Bytes → Bool
valid_namespace [] = false
valid_namespace (c ∷ rest) = is_first c && are_rest rest

-- `binary.LittleEndian.Uint64`, which needs eight bytes
unfoldable pub little_endian_uint64 : Bytes → Result ℕ
little_endian_uint64 bytes = if ltb (length bytes) 8 then panic else ok (from_le (take 8 bytes))

-- `list[l-1]` of a list that is not empty
unfoldable pub last : List NamespaceId → Result NamespaceId
last [] = err err_invalid_namespace_name
last (n ∷ []) = ok n
last (n ∷ (m ∷ rest)) = last (m ∷ rest)

-- The SHA3-256 digest of what is written to the hash.
module _ (sha3 : Bytes → Bytes) where
  unfoldable pub generate_namespace_id : Bytes → ℕ → Result NamespaceId
  unfolding little_endian_uint64 new_namespace_id
  generate_namespace_id name parent = do
    t ← little_endian_uint64 (sha3 (to_little_endian parent ++ name))
    new_namespace_id (bit_or t namespace_bit)

  -- The loop of `GenerateNamespacePath`, from the identifier that was generated last.
  unfoldable pub path_from : List Bytes → NamespaceId → Result (List NamespaceId)
  unfolding valid_namespace
  path_from [] parent = ok []
  path_from (part ∷ parts) parent =
      if not (valid_namespace part) then err err_invalid_namespace_name else (do
        namespace_id ← generate_namespace_id part parent.base_int64
        path ← path_from parts namespace_id
        ok (namespace_id ∷ path))

  unfoldable pub generate_namespace_path : Bytes → Result (List NamespaceId)
  unfolding split
  generate_namespace_path name =
      let parts = split name in
      if length parts == 0
      then err err_invalid_namespace_name
      else if ltb 3 (length parts)
      then err err_namespace_too_many_part
      else path_from parts (record { base_int64 = 0 })

  unfoldable pub new_namespace_id_from_name : Bytes → Result NamespaceId
  unfolding generate_namespace_path last
  new_namespace_id_from_name name = do list ← generate_namespace_path name; last list
