-- ===== src/Encoding/Fuel.antt =====
-- The loop of the base32 decoder ends by itself: more fuel than characters changes nothing.
use go_xpx_chain_sdk.Base.{
  Bool, Bytes, Option, Result, [], ap, arith, err, false, if◌then◌else◌, length, none, ok, panic,
  refl, some, suc, sym, true, zero, ℕ, ◌++◌, ◌+◌, ◌-◌, ◌>>=◌, ◌∙◌, ◌∷◌, ◌≡◌, ◌≤◌,
}
use go_xpx_chain_sdk.Encoding.{
  corrupt, decode_groups, from_base32_char, padding, read_quantum, use_digit,
}
use go_xpx_chain_sdk.Websocket.Client.Listening.{done}

-- A group that is read leaves at most `n` characters.
abbrev Leaves : ℕ → Result (Bytes × Bool × Bytes) → Type 0
Leaves n r = (ds rest : Bytes) (done : Bool) → r ≡ ok (ds, done, rest) → length rest ≤ n

either-Leaves :
    (test : Bool) (x y : Result (Bytes × Bool × Bytes)) (n : ℕ)
    → Leaves n x
    → Leaves n y
    → Leaves n (if test then x else y)
either-Leaves true x y n h k = h
either-Leaves false x y n h k = k

corrupt-Leaves : (n : ℕ) → Leaves n corrupt
corrupt-Leaves n ds rest done e = cc

digit-Leaves :
    (o : Option ℕ) (f : ℕ → Result (Bytes × Bool × Bytes)) (n : ℕ)
    → ((d : ℕ) → Leaves n (f d))
    → Leaves n (use_digit o f)
digit-Leaves none f n h = corrupt-Leaves n
digit-Leaves (some d) f n h = h d

done-Leaves : (digits src : Bytes) (b : Bool) → Leaves (length src) (ok (digits, b, src))
done-Leaves digits src b ds rest done e = let same : src ≡ rest = cc in rw (sym same) (omega arith)

padding-Leaves : (j left : ℕ) (src digits : Bytes) → Leaves (length src) (padding j left src digits)
padding-Leaves j left src digits =
    either-Leaves _ corrupt (ok (digits, true, src)) (length src) (corrupt-Leaves (length src))
      (done-Leaves digits src true)

group-Leaves :
    (left c : ℕ) (src digits : Bytes)
    → ((more : Bytes) → Leaves (length src) (read_quantum left src more))
    → Leaves (length src) (read_quantum (suc left) (c ∷ src) digits)
unfolding read_quantum
group-Leaves left c src digits h =
    either-Leaves _ _ _ (length src) (padding-Leaves (7 - left) left src digits)
      (digit-Leaves (from_base32_char c) _ (length src) (λ d. h (digits ++ (d ∷ []))))

read_nothing : (src digits : Bytes) → Leaves (length src) (read_quantum 0 src digits)
unfolding read_quantum
read_nothing src digits = done-Leaves digits src false

read_quantum_end : (left : ℕ) (digits : Bytes) → Leaves 0 (read_quantum (suc left) [] digits)
unfolding read_quantum
read_quantum_end left digits = corrupt-Leaves 0

read_quantum-Leaves :
    (left : ℕ) (src digits : Bytes) → Leaves (length src) (read_quantum left src digits)
read_quantum-Leaves zero src digits = read_nothing src digits
read_quantum-Leaves (suc left) [] digits = read_quantum_end left digits
read_quantum-Leaves (suc left) (c ∷ src) digits = λ ds rest done e.
    omega (arith, group-Leaves left c src digits (read_quantum-Leaves left src) ds rest done e)

bind_agree :
    {X Y : Type 0} (r : Result X) (f g : X → Result Y)
    → ((x : X) → r ≡ ok x → f x ≡ g x)
    → (r >>= f) ≡ (r >>= g)
bind_agree (ok x) f g h = h x refl
bind_agree (err e) f g h = refl
bind_agree panic f g h = refl

decode_groups_more :
    (fuel : ℕ) (src : Bytes)
    → length src ≤ fuel
    → decode_groups (suc fuel) src ≡ decode_groups fuel src
unfolding decode_groups
decode_groups_more zero [] h = refl
decode_groups_more (suc fuel) [] h = refl
decode_groups_more zero (c ∷ src) h = absurd (omega arith)
decode_groups_more (suc fuel) (c ∷ src) h = bind_agree (read_quantum 8 (c ∷ src) []) _ _ (λ x e.
    let left = group-Leaves 7 c src [] (read_quantum-Leaves 7 src) x.0 x.2 x.1 e in
    rw (decode_groups_more fuel x.2 (omega arith)) refl)

-- Fuel for as many groups as there are characters is enough.
pub decode_groups_enough :
    (more : ℕ) (src : Bytes)
    → decode_groups (length src + more) src ≡ decode_groups (length src) src
decode_groups_enough zero src = ap (λ (n : ℕ). decode_groups n src) (omega arith)
decode_groups_enough (suc more) src =
    ap (λ (n : ℕ). decode_groups n src) (omega arith)
    ∙ decode_groups_more (length src + more) src (omega arith)
    ∙ decode_groups_enough more src
