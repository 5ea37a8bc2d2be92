-- ===== src/Secret.antt =====
-- sdk/secret.go: secrets and the proofs that they are computed from. The hash functions belong to a
-- third-party package, and are parameters.
pub mod Digests
use go_xpx_chain_sdk.Base.{
  Bytes, Option, Result, err, if◌then◌else◌, length, new_error, none, not, ok, replicate, some,
  take, ℕ, ◌&&◌, ◌++◌, ◌==◌, ◌>>=◌,
}
use go_xpx_chain_sdk.Encoding.{hex_decode_string}

pub data HashType : Type 0 where
  sha3_256 keccak_256 hash_160 sha_256 : HashType

-- The constants of `HashType`, a byte; no other byte is supported.
unfoldable pub hash_type : ℕ → Option HashType
hash_type type =
    if type == 0
    then some sha3_256
    else if type == 1
    then some keccak_256
    else if type == 2
    then some hash_160
    else if type == 3
    then some sha_256
    else none

pub record Secret : Type 0 where
  pub hash : Bytes
  pub type : ℕ

-- The cases of the switch of `NewSecret`, whose last statement copies the first 32 bytes.
unfoldable pub new_secret_of : Option HashType → Bytes → ℕ → Result Secret
new_secret_of none hash type = err (new_error "Not supported HashType NewSecret")
new_secret_of (some hash_160) hash type =
    let l = length hash in
    if not (l == 20) && not (l == 32)
    then err (new_error "the length of HASH_160 Secret is wrong")
    else if l == 20
    then ok (record { hash = take 32 (hash ++ replicate 12 0); type = type })
    else ok (record { hash = take 32 hash; type = type })
new_secret_of (some other) hash type =
    if not (length hash == 32)
    then err (new_error "the length of Secret is wrong")
    else ok (record { hash = take 32 hash; type = type })

unfoldable pub new_secret : Bytes → ℕ → Result Secret
unfolding hash_type new_secret_of
new_secret hash type = new_secret_of (hash_type type) hash type

unfoldable pub new_secret_from_hex_string : Bytes → ℕ → Result Secret
unfolding new_secret
new_secret_from_hex_string text type = do bytes ← hex_decode_string text; new_secret bytes type

-- What go-xpx-crypto offers.
pub record Hashes : Type 0 where
  pub hashes_sha3_256 : Bytes → Result Bytes
  pub hashes_keccak_256 : Bytes → Result Bytes
  pub hashes_sha_256 : Bytes → Result Bytes
  pub hashes_ripemd160 : Bytes → Result Bytes

module _ (crypto : Hashes) where
  -- The cases of the switch of `generateSecret`.
  unfoldable pub generate_secret_of : Option HashType → Bytes → Result Bytes
  generate_secret_of none proof = err (new_error "Not supported HashType generateSecret")
  generate_secret_of (some sha3_256) proof = crypto.hashes_sha3_256 proof
  generate_secret_of (some keccak_256) proof = crypto.hashes_keccak_256 proof
  generate_secret_of (some hash_160) proof = do
    first ← crypto.hashes_sha_256 proof
    crypto.hashes_ripemd160 first
  generate_secret_of (some sha_256) proof = do
    first ← crypto.hashes_sha_256 proof
    crypto.hashes_sha_256 first

  unfoldable pub generate_secret : Bytes → ℕ → Result Bytes
  unfolding hash_type generate_secret_of
  generate_secret proof type = generate_secret_of (hash_type type) proof

  -- `Proof.Secret`, of the data of a proof
  unfoldable pub secret_of_proof : Bytes → ℕ → Result Secret
  unfolding generate_secret new_secret
  secret_of_proof proof type = do secret ← generate_secret proof type; new_secret secret type
