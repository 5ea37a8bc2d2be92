-- ===== src/Network/RoundTrip.antt =====
-- What `MarshalBinary` of sdk/network_model.go prints is read back by `UnmarshalBinary`.
use go_xpx_chain_sdk.Base.{
  Bytes, List, [], false, length, some, suc, true, ℕ, ◌++◌, ◌+◌, ◌<◌, ◌∷◌, ◌≡◌,
}
use go_xpx_chain_sdk.Base.Text.{lacks, trim_space}
use go_xpx_chain_sdk.Network.{ConfigBag, Reader, all_sections, buffer_size, has_section}
use go_xpx_chain_sdk.Network.Fields.{AreFields}
use go_xpx_chain_sdk.Network.Reading.{IsComment}

-- A section that is printed and read back.
pub record IsSection (b : ConfigBag) : Type 0 where
  pub comment_is : IsComment b.comment
  pub name_ends : trim_space b.name ≡ b.name
  pub name_lacks : (lacks b']' b.name ≡ true) × (lacks 10 b.name ≡ true)
  pub short : length b.name + 2 < buffer_size
  pub fields_are : AreFields [] b.fields

-- The sections after those of `before`: each one is where its index says, under a new name.
abbrev pub AreSections : List ConfigBag → List ConfigBag → Type 0
AreSections before [] = Unit
AreSections before (b ∷ bs) =
    IsSection b
    × (b.index ≡ length before)
    × (has_section b.name before ≡ false)
    × AreSections (before ++ (b ∷ [])) bs

-- Each item is where its index says, counted from `k` on.
abbrev AreIndexed {ℓ} : {A : Type ℓ} → (A → ℕ) → ℕ → List A → Type 0
AreIndexed index k [] = Unit
AreIndexed index k (x ∷ xs) = (index x ≡ k) × AreIndexed index (suc k) xs

-- The state behind a header.
abbrev with_header : ConfigBag → Reader → Reader
with_header b r = record {
  sections = all_sections r;
  bag =
      some (record {
        name = b.name;
        comment = b.comment;
        index = length (all_sections r);
        fields = [];
      });
  comment = [];
}

abbrev header_line : Bytes → Bytes
header_line name = b'[' ∷ (name ++ (b']' ∷ []))
