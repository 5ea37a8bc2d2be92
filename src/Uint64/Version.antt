-- ===== src/Uint64/Version.antt =====
-- The components of a `BlockChainVersion`.
use go_xpx_chain_sdk.Base.{ℕ, ◌+◌, ◌*◌, ◌%◌, ◌^◌, ◌<◌, ◌≡◌, refl, arith}
use go_xpx_chain_sdk.Base.Bits.{bit_or_add, zero-bit_or, bit_and_byte}
use go_xpx_chain_sdk.Uint64.{u64, new_block_chain_version, get_two_bytes_by_shift}

fits : (n : ℕ) → n < 2 ^ 64 → u64 n ≡ n
fits n h = omega arith

module _ (major minor revision build : ℕ) (h1 : major < 2 ^ 16) (h2 : minor < 2 ^ 16)
    (h3 : revision < 2 ^ 16) (h4 : build < 2 ^ 16) where
  -- A version is its four 16-bit components, the major one in the highest place.
  pub new_block_chain_version_lem :
      new_block_chain_version major minor revision build
      ≡ major * 2 ^ 48 + minor * 2 ^ 32 + revision * 2 ^ 16 + build
  unfolding new_block_chain_version
  new_block_chain_version_lem =
      let v1 : ℕ = major * 2 ^ 48 in
      let v2 : ℕ = minor * 2 ^ 32 in
      let v3 : ℕ = revision * 2 ^ 16 in
      rw (
        fits v1 (omega arith),
        fits v2 (omega arith),
        fits v3 (omega arith),
        zero-bit_or v1,
        bit_or_add 48 major v1 v2 refl (omega arith),
        bit_or_add 32 (major * 2 ^ 16 + minor) (v1 + v2) v3 (omega arith) (omega arith),
        bit_or_add 16 (major * 2 ^ 32 + minor * 2 ^ 16 + revision) (v1 + v2 + v3) build
            (omega arith) (omega arith),
      )

  -- The string form of a version shows the low byte of each of its four 16-bit components, which is the
  -- component itself only below 256.
  pub version_components :
      let v = new_block_chain_version major minor revision build in
      (get_two_bytes_by_shift v 48 ≡ major % 256)
      × (get_two_bytes_by_shift v 32 ≡ minor % 256)
      × (get_two_bytes_by_shift v 16 ≡ revision % 256)
      × (get_two_bytes_by_shift v 0 ≡ build % 256)
  unfolding get_two_bytes_by_shift
  version_components = rw new_block_chain_version_lem (
    rw bit_and_byte (omega arith),
    rw bit_and_byte (omega arith),
    rw bit_and_byte (omega arith),
    rw bit_and_byte (omega arith),
  )
