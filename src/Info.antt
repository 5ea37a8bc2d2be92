-- ===== src/Info.antt =====
-- What the SDK makes of the responses about namespaces, mosaics, metadata, contracts and blocks, and the
-- resolver of sdk/resolver.go. A structure of a response is as encoding/json has filled it.
pub mod Namespaces
pub mod Mosaics
pub mod Metadata
pub mod Blocks
pub mod Resolver
use go_xpx_chain_sdk.Base.{List, Result, [], ok, ◌>>=◌, ◌∷◌}

-- The methods `toStruct` of slices, which are alike: the first error ends the loop.
unfoldable pub all_to_struct {ℓ κ} :
    {A : Type ℓ} {B : Type κ} → (A → Result B) → List A → Result (List B)
all_to_struct to_struct [] = ok []
all_to_struct to_struct (dto ∷ dtos) = do
  info ← to_struct dto
  infos ← all_to_struct to_struct dtos
  ok (info ∷ infos)
