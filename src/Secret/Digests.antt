-- ===== src/Secret/Digests.antt =====
-- What a secret is, and which proofs have one.
use go_xpx_chain_sdk.Base.{
  ==_iff, Bool, Bytes, Error, Option, append-nil, arith, err, false, if◌then◌else◌, length,
  length-append, length-take, new_error, none, not, ok, refl, replicate, some, suc, sym, take,
  take-length, true, zero, ℕ, ◌&&◌, ◌++◌, ◌-◌, ◌<◌, ◌==◌, ◌>>=◌, ◌∙◌, ◌≡◌,
}
use go_xpx_chain_sdk.Secret.{
  HashType, Hashes, Secret, generate_secret, generate_secret_of, hash_160, hash_type, keccak_256,
  new_secret, new_secret_of, secret_of_proof, sha3_256, sha_256,
}

full :
    (hash : Bytes)
    → length hash ≡ 32
    → (take 32 hash ≡ hash ++ replicate (32 - length hash) 0) × (length (take 32 hash) ≡ 32)
full hash l = (
  rw l (take-length 32 hash (omega arith) ∙ sym (append-nil hash)),
  length-take 32 hash ∙ omega arith,
)

short :
    (hash : Bytes)
    → length hash ≡ 20
    → (take 32 (hash ++ replicate 12 0) ≡ hash ++ replicate (32 - length hash) 0)
      × (length (take 32 (hash ++ replicate 12 0)) ≡ 32)
short hash l = (
  take-length 32 (hash ++ replicate 12 0) (rw (length-append hash (replicate 12 0)) (omega arith))
      ∙ rw l refl,
  length-take 32 (hash ++ replicate 12 0) ∙ rw (length-append hash (replicate 12 0)) (omega arith),
)

-- What is made from `hash` as a secret `s` of a type.
abbrev pub IsPadded : Bytes → ℕ → Secret → Type 0
IsPadded hash type s =
    (s.hash ≡ hash ++ replicate (32 - length hash) 0) × (length s.hash ≡ 32) × (s.type ≡ type)

-- One branch of the switch, with what it stores.
branch :
    (hash bytes : Bytes) (type : ℕ) (e : Error) (test : Bool) {s : Secret}
    → (test ≡ true → (bytes ≡ hash ++ replicate (32 - length hash) 0) × (length bytes ≡ 32))
    → (if not test then err e else ok (record { hash = bytes; type = type })) ≡ ok s
    → IsPadded hash type s
branch hash bytes type e false f h = cc
branch hash bytes type e true {s} f h =
    let same : record { hash = bytes; type = type } ≡ s = cc in
    rw (sym same) ((f refl).0, (f refl).1, refl)

branch_of_two :
    (hash long brief : Bytes) (type : ℕ) (e : Error) (is_brief is_long : Bool) {s : Secret}
    → (is_brief ≡ true → (brief ≡ hash ++ replicate (32 - length hash) 0) × (length brief ≡ 32))
    → (is_long ≡ true → (long ≡ hash ++ replicate (32 - length hash) 0) × (length long ≡ 32))
    → (if not is_brief && not is_long
        then err e
        else if is_brief
        then ok (record { hash = brief; type = type })
        else ok (record { hash = long; type = type }))
      ≡ ok s
    → IsPadded hash type s
branch_of_two hash long brief type e true is_long f g h = branch hash brief type e true f h
branch_of_two hash long brief type e false is_long f g h = branch hash long type e is_long g h

new_secret_of_lem :
    (t : Option HashType) (hash : Bytes) (type : ℕ) {s : Secret}
    → new_secret_of t hash type ≡ ok s
    → IsPadded hash type s
unfolding new_secret_of
new_secret_of_lem none hash type h = cc
new_secret_of_lem (some hash_160) hash type h =
    branch_of_two hash (take 32 hash) (take 32 (hash ++ replicate 12 0)) type
      (new_error "the length of HASH_160 Secret is wrong") (length hash == 20) (length hash == 32)
      (λ t. short hash ((==_iff (length hash) 20).0 t))
      (λ t. full hash ((==_iff (length hash) 32).0 t)) h
new_secret_of_lem (some sha3_256) hash type h =
    branch hash (take 32 hash) type (new_error "the length of Secret is wrong") (length hash == 32)
      (λ t. full hash ((==_iff (length hash) 32).0 t)) h
new_secret_of_lem (some keccak_256) hash type h =
    branch hash (take 32 hash) type (new_error "the length of Secret is wrong") (length hash == 32)
      (λ t. full hash ((==_iff (length hash) 32).0 t)) h
new_secret_of_lem (some sha_256) hash type h =
    branch hash (take 32 hash) type (new_error "the length of Secret is wrong") (length hash == 32)
      (λ t. full hash ((==_iff (length hash) 32).0 t)) h

-- A secret is made with the type that it is asked for, and its hash is the given one, filled up with
-- zeros to the 32 bytes of its array.
pub new_secret_lem :
    (hash : Bytes) (type : ℕ) {s : Secret} → new_secret hash type ≡ ok s → IsPadded hash type s
unfolding new_secret
new_secret_lem hash type h = new_secret_of_lem (hash_type type) hash type h

-- The hash functions return digests of their documented lengths.
pub record HasDigests (crypto : Hashes) : Type 0 where
  pub sha3_256_digest :
      (b : Bytes) → (d : Bytes) × (crypto.hashes_sha3_256 b ≡ ok d) × (length d ≡ 32)
  pub keccak_256_digest :
      (b : Bytes) → (d : Bytes) × (crypto.hashes_keccak_256 b ≡ ok d) × (length d ≡ 32)
  pub sha_256_digest :
      (b : Bytes) → (d : Bytes) × (crypto.hashes_sha_256 b ≡ ok d) × (length d ≡ 32)
  pub ripemd160_digest :
      (b : Bytes) → (d : Bytes) × (crypto.hashes_ripemd160 b ≡ ok d) × (length d ≡ 20)

hash_type_some : (type : ℕ) → type < 4 → (t : HashType) × (hash_type type ≡ some t)
unfolding hash_type
hash_type_some zero h = (sha3_256, refl)
hash_type_some (suc zero) h = (keccak_256, refl)
hash_type_some (suc (suc zero)) h = (hash_160, refl)
hash_type_some (suc (suc (suc zero))) h = (sha_256, refl)
hash_type_some (suc (suc (suc (suc n)))) h = absurd (omega arith)

accepted :
    (t : HashType) (type : ℕ) (d : Bytes)
    → length d ≡ 32
    → new_secret_of (some t) d type ≡ ok (record { hash = take 32 d; type = type })
unfolding new_secret_of
accepted sha3_256 type d l = rw l refl
accepted keccak_256 type d l = rw l refl
accepted hash_160 type d l = rw l refl
accepted sha_256 type d l = rw l refl

accepted_brief :
    (type : ℕ) (d : Bytes)
    → length d ≡ 20
    → new_secret_of (some hash_160) d type
      ≡ ok (record { hash = take 32 (d ++ replicate 12 0); type = type })
unfolding new_secret_of
accepted_brief type d l = rw l refl

secret_of :
    (crypto : Hashes)
    → HasDigests crypto
    → (t : HashType) (proof : Bytes) (type : ℕ)
    → (s : Secret) × ((generate_secret_of crypto (some t) proof >>= λ d.
          new_secret_of (some t) d type)
        ≡ ok s)
      × (length s.hash ≡ 32)
unfolding generate_secret_of
secret_of crypto has sha3_256 proof type =
    let (d, e, l) = has.sha3_256_digest proof in
    (
      record { hash = take 32 d; type = type },
      rw e (accepted sha3_256 type d l),
      length-take 32 d ∙ omega arith,
    )
secret_of crypto has keccak_256 proof type =
    let (d, e, l) = has.keccak_256_digest proof in
    (
      record { hash = take 32 d; type = type },
      rw e (accepted keccak_256 type d l),
      length-take 32 d ∙ omega arith,
    )
secret_of crypto has hash_160 proof type =
    let (d, e, l) = has.sha_256_digest proof in
    let (r, f, k) = has.ripemd160_digest d in
    (
      record { hash = take 32 (r ++ replicate 12 0); type = type },
      rw (e, f) (accepted_brief type r k),
      (short r k).1,
    )
secret_of crypto has sha_256 proof type =
    let (d, e, l) = has.sha_256_digest proof in
    let (r, f, k) = has.sha_256_digest d in
    (
      record { hash = take 32 r; type = type },
      rw (e, f) (accepted sha_256 type r k),
      length-take 32 r ∙ omega arith,
    )

-- With hash functions that return digests, every proof has a secret of each of the four types, of 32
-- bytes.
pub secret_of_proof_total :
    (crypto : Hashes)
    → HasDigests crypto
    → (proof : Bytes) (type : ℕ) → type < 4
    → (s : Secret) × (secret_of_proof crypto proof type ≡ ok s) × (length s.hash ≡ 32)
unfolding secret_of_proof generate_secret new_secret
secret_of_proof_total crypto d proof type small =
    let (t, is_t) = hash_type_some type small in rw is_t (secret_of crypto d t proof type)
