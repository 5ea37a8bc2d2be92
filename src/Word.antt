-- ===== src/Word.antt =====
-- Machine words and their bytes: what the SDK uses of encoding/binary, and slicing.
pub mod Copies
use go_xpx_chain_sdk.Base.{
  ℕ, zero, suc, ◌+◌, ◌-◌, ◌*◌, ◌/◌, ◌%◌, ◌^◌, ◌<◌, ◌≡◌, refl, Bytes, [], ◌∷◌, length, take, drop,
  Result, ok, panic, arith, ◌++◌, leb, ◌&&◌, if◌then◌else◌, ap,
}

-- A byte string read with its lowest byte first.
unfoldable pub from_le : Bytes → ℕ
from_le [] = 0
from_le (b ∷ bs) = b + 256 * from_le bs

-- The lowest `n` bytes of a number, lowest first.
unfoldable pub to_le : ℕ → ℕ → Bytes
to_le zero v = []
to_le (suc n) v = v % 256 ∷ to_le n (v / 256)

-- `buffer[lo:hi]`; the capacity of every buffer is taken to be its length.
unfoldable pub slice : Bytes → ℕ → ℕ → Result Bytes
slice buffer lo hi =
    if leb lo hi && leb hi (length buffer) then ok (take (hi - lo) (drop lo buffer)) else panic

pub length-to_le : (n v : ℕ) → length (to_le n v) ≡ n
unfolding to_le
length-to_le zero v = refl
length-to_le (suc n) v = ap suc (length-to_le n (v / 256))

-- A number that fits its bytes is read back.
pub from_le-to_le : (n v : ℕ) → v < 256 ^ n → from_le (to_le n v) ≡ v
unfolding from_le to_le
from_le-to_le zero v h = omega arith
from_le-to_le (suc n) v h = omega (arith, from_le-to_le n (v / 256) (small n v h))
  where
    small : (n v : ℕ) → v < 256 ^ suc n → v / 256 < 256 ^ n
    small n v h = omega arith

-- `make([]byte, n)`
unfoldable pub zeros : ℕ → Bytes
zeros zero = []
zeros (suc n) = 0 ∷ zeros n

-- `make([]byte, n-cut)`, where the difference is an int
unfoldable pub make_bytes : ℕ → ℕ → Result Bytes
unfolding zeros
make_bytes n cut = if leb cut n then ok (zeros (n - cut)) else panic

-- `copy(dst, src)` between slices that do not overlap: as many bytes as the shorter one has
unfoldable pub overlay : Bytes → Bytes → Bytes
overlay [] src = []
overlay (d ∷ dst) [] = d ∷ dst
overlay (d ∷ dst) (s ∷ src) = s ∷ overlay dst src

-- `copy(dst[lo:hi], src)`
unfoldable pub copy_at : Bytes → ℕ → ℕ → Bytes → Result Bytes
unfolding overlay
copy_at dst lo hi src =
    if leb lo hi && leb hi (length dst)
    then ok (take lo dst ++ (overlay (take (hi - lo) (drop lo dst)) src ++ drop hi dst))
    else panic
