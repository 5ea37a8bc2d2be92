-- ===== src/Transaction/Responses.antt =====
-- What sdk/transaction_model.go, sdk/transaction_internal.go and sdk/websocket_model.go make of the parts
-- that responses of transactions share, and the states of a transaction.
use Prim.Native.Nat.{bit_and}
use go_xpx_chain_sdk.Base.{
  Bool, Bool-cases, Bytes, Option, Result, [], ap, arith, deref, false, if◌then◌else◌, inl, inr,
  ltb, none, not, ok, refl, some, true, ℕ, ◌%◌, ◌*◌, ◌+◌, ◌/◌, ◌<◌, ◌==◌, ◌>>=◌, ◌^◌, ◌↔◌, ◌∷◌, ◌≡◌,
  ◌≢◌,
}
use go_xpx_chain_sdk.Base.Bits.{bit_and_mask}
use go_xpx_chain_sdk.Base.Text.{same, same-eq, same_refl}
use go_xpx_chain_sdk.Schema.{u32}
use go_xpx_chain_sdk.Transaction.{AbstractTransaction, TransactionInfo, generate_vectors}
use go_xpx_chain_sdk.Transaction.Signing.{string_to_hash, string_to_signature}
use go_xpx_chain_sdk.Uint64.{to_uint64}

-- `hashDto.Hash` and `signatureDto.Signature`: an empty text is a nil pointer.
unfoldable pub hash_dto_hash : Bytes → Result (Option Bytes)
unfolding string_to_hash
hash_dto_hash [] = ok none
hash_dto_hash (c ∷ s) = do hash ← string_to_hash (c ∷ s); ok (some hash)

unfoldable pub signature_dto_signature : Bytes → Result (Option Bytes)
unfolding string_to_signature
signature_dto_signature [] = ok none
signature_dto_signature (c ∷ s) = do signature ← string_to_signature (c ∷ s); ok (some signature)

pub record TransactionInfoDto : Type 0 where
  pub height : ℕ × ℕ
  pub index : ℕ
  pub id : Bytes
  pub transaction_hash : Bytes
  pub merkle_component_hash : Bytes
  pub aggregate_hash : Bytes
  pub aggregate_id : Bytes

unfoldable pub transaction_info_dto_to_struct : TransactionInfoDto → Result TransactionInfo
unfolding hash_dto_hash
transaction_info_dto_to_struct dto = do
  transaction_hash ← hash_dto_hash dto.transaction_hash
  merkle_component_hash ← hash_dto_hash dto.merkle_component_hash
  aggregate_hash ← hash_dto_hash dto.aggregate_hash
  ok (record {
    height = to_uint64 dto.height;
    index = dto.index;
    id = dto.id;
    transaction_hash = transaction_hash;
    merkle_component_hash = merkle_component_hash;
    aggregate_hash = aggregate_hash;
    aggregate_id = dto.aggregate_id;
  })

-- `Hash.Equal`: either hash may be a nil pointer, which is followed.
unfoldable pub hash_equal : Option Bytes → Option Bytes → Result Bool
unfolding same
hash_equal h other = do a ← deref h; b ← deref other; ok (same a b)

-- The methods of a transaction that tell its state, as functions of its information.
unfoldable pub is_unconfirmed : Option TransactionInfo → Result Bool
unfolding hash_equal
is_unconfirmed none = ok false
is_unconfirmed (some info) =
    if info.height == 0
    then hash_equal info.transaction_hash info.merkle_component_hash
    else ok false

unfoldable pub is_confirmed : Option TransactionInfo → Result Bool
is_confirmed none = ok false
is_confirmed (some info) = ok (ltb 0 info.height)

unfoldable pub has_missing_signatures : Option TransactionInfo → Result Bool
unfolding hash_equal
has_missing_signatures none = ok false
has_missing_signatures (some info) =
    if info.height == 0
    then (do equal ← hash_equal info.transaction_hash info.merkle_component_hash; ok (not equal))
    else ok false

unfoldable pub is_unannounced : Option TransactionInfo → Result Bool
is_unannounced none = ok true
is_unannounced (some info) = ok false

-- `ExtractVersion` and `ExtractNetworkType`
unfoldable pub extract_version : ℕ → ℕ
extract_version version = bit_and (u32 version) 0xFFFFFF

unfoldable pub extract_network_type : ℕ → ℕ
extract_network_type version = u32 version / 2 ^ 24 % 256

same-apart : (h m : Bytes) → h ≡ m → same h m ≡ false → ⊥
same-apart h m p e = let t : same h m ≡ true = rw p (same_refl m) in cc

-- How many of the tests hold.
abbrev pub count : Bool → ℕ
count b = if b then 1 else 0

-- What the four tests answer: unannounced, unconfirmed, confirmed, short of signatures.
abbrev pub Answers : Option TransactionInfo → Bool → Bool → Bool → Bool → Type 0
Answers info a b c d =
    (is_unannounced info ≡ ok a)
    × (is_unconfirmed info ≡ ok b)
    × (is_confirmed info ≡ ok c)
    × (has_missing_signatures info ≡ ok d)

-- A transaction with information on its height and two hashes is in one of three states.
abbrev pub IsInOneState : TransactionInfo → Bytes → Bytes → Type 0
IsInOneState info h m =
    (b c d : Bool) × Answers (some info) false b c d
    × ((b ≡ true) ↔ ((info.height ≡ 0) × (h ≡ m)))
    × ((c ≡ true) ↔ (0 < info.height))
    × ((d ≡ true) ↔ ((info.height ≡ 0) × (h ≢ m)))
    × (count b + count c + count d ≡ 1)

module _ (info : TransactionInfo) (h m : Bytes) (hash_is : info.transaction_hash ≡ some h)
    (merkle_is : info.merkle_component_hash ≡ some m) where
  confirmed_state : (info.height == 0) ≡ false → IsInOneState info h m
  unfolding is_unannounced is_unconfirmed is_confirmed has_missing_signatures
  confirmed_state n =
      let high : ltb 0 info.height ≡ true = ground arith in
      let positive : 0 < info.height = ground arith in
      let nonzero : info.height ≢ 0 = λ e. omega arith in
      (
        false,
        true,
        false,
        (refl, rw n refl, ap ok high, rw n refl),
        ((λ e. cc), λ p. absurd (nonzero p.0)),
        ((λ e. positive), λ p. refl),
        ((λ e. cc), λ p. absurd (nonzero p.0)),
        refl,
      )

  waiting_state : (info.height == 0) ≡ true → IsInOneState info h m
  unfolding is_unannounced is_unconfirmed is_confirmed has_missing_signatures hash_equal
  waiting_state t =
      let low : ltb 0 info.height ≡ false = ground arith in
      let zeroed : info.height ≡ 0 = ground arith in
      elim (Bool-cases (same h m)) [
        | inl e ↦ (
          true,
          false,
          false,
          (refl, rw (t, hash_is, merkle_is, e) refl, ap ok low, rw (t, hash_is, merkle_is, e) refl),
          ((λ u. (zeroed, same-eq h m e)), λ p. refl),
          ((λ u. cc), λ p. absurd (let q : 0 < info.height = p in omega arith)),
          ((λ u. cc), λ p. absurd (p.1 (same-eq h m e))),
          refl,
        )
        | inr e ↦
            let apart : h ≢ m = λ p. same-apart h m p e in
            (
              false,
              false,
              true,
              (
                refl,
                rw (t, hash_is, merkle_is, e) refl,
                ap ok low,
                rw (t, hash_is, merkle_is, e) refl,
              ),
              ((λ u. cc), λ p. absurd (apart p.1)),
              ((λ u. cc), λ p. absurd (let q : 0 < info.height = p in omega arith)),
              ((λ u. (zeroed, apart)), λ p. refl),
              refl,
            )
      ]

  -- A transaction without information is unannounced, and in no other state. One whose information has
  -- both hashes is announced, and in one state only: confirmed if its height is positive, unconfirmed if
  -- the height is 0 and the hashes are equal, short of signatures if it is 0 and they differ.
  pub one_state : Answers none true false false false × IsInOneState info h m
  unfolding is_unannounced is_unconfirmed is_confirmed has_missing_signatures
  one_state = (
    (refl, refl, refl, refl),
    elim (Bool-cases (info.height == 0)) [ inl t ↦ waiting_state t | inr n ↦ confirmed_state n ],
  )

-- A network type of one byte and a version of less than 2 ^ 24 that are put into the header are taken out
-- of it again.
pub extract_network_type-generate_vectors :
    (tx : AbstractTransaction)
    → tx.network_type < 256
    → tx.version < 2 ^ 24
    → (extract_network_type (generate_vectors tx).version ≡ tx.network_type)
      × (extract_version (generate_vectors tx).version ≡ tx.version)
unfolding extract_network_type extract_version generate_vectors
extract_network_type-generate_vectors tx n v =
    let word : u32 (u32 (u32 (tx.network_type * 2 ^ 24) + tx.version))
        ≡ tx.network_type * 2 ^ 24 + tx.version =
      omega arith in
    let total = tx.network_type * 2 ^ 24 + tx.version in
    rw word (omega arith, omega (arith, bit_and_mask 24 total))
