-- ===== src/Base/Text.antt =====
-- What the program uses of Go's packages strings, bufio and bytes, on text of ASCII characters: equality,
-- TrimSpace, Index and ReadLine.
use go_xpx_chain_sdk.Base.{
  ==_iff, Bool, Bytes, List, Option, [], and_split, ap₂, arith, false, if◌then◌else◌, leb, length,
  none, not, refl, some, suc, true, ℕ, ◌&&◌, ◌++◌, ◌==◌, ◌||◌, ◌∷◌, ◌≡◌, ◌≢◌,
}

unfoldable pub same : Bytes → Bytes → Bool
same [] [] = true
same [] (y ∷ ys) = false
same (x ∷ xs) [] = false
same (x ∷ xs) (y ∷ ys) = x == y && same xs ys

-- Tab, the line breaks, and the space.
unfoldable pub is_space : ℕ → Bool
is_space c = (leb 9 c && leb c 13) || c == 32

unfoldable pub trim_left : Bytes → Bytes
unfolding is_space
trim_left [] = []
trim_left (c ∷ cs) = let rest = trim_left cs in if is_space c then rest else c ∷ cs

abbrev pub is_blank : Bytes → Bool
is_blank [] = true
is_blank (c ∷ cs) = false

unfoldable pub trim_right : Bytes → Bytes
unfolding is_space
trim_right [] = []
trim_right (c ∷ cs) =
    let rest = trim_right cs in if is_blank rest && is_space c then [] else c ∷ rest

-- `strings.TrimSpace`
unfoldable pub trim_space : Bytes → Bytes
unfolding trim_left trim_right
trim_space s = trim_right (trim_left s)

-- `strings.Index` of a text of one character; `none` is -1.
unfoldable pub index_of : ℕ → Bytes → Option ℕ
index_of c [] = none
index_of c (x ∷ xs) =
    let later : Option ℕ = elim (index_of c xs) [ none ↦ none | some i ↦ some (suc i) ] in
    if x == c then some 0 else later

abbrev put_in_front : ℕ → List Bytes → List Bytes
put_in_front c [] = (c ∷ []) ∷ []
put_in_front c (l ∷ ls) = (c ∷ l) ∷ ls

-- The lines that `ReadLine` returns one by one, without their line breaks. It removes a carriage
-- return at the end too, which every caller removes as a space.
unfoldable pub lines : Bytes → List Bytes
lines [] = []
lines (c ∷ cs) = let rest = lines cs in if c == 10 then [] ∷ rest else put_in_front c rest

-- The text has no such character.
unfoldable pub lacks : ℕ → Bytes → Bool
lacks c [] = true
lacks c (x ∷ xs) = not (x == c) && lacks c xs

-- A test that was made already.
pub if_twice :
    {A : Type 0} (t : Bool) (x y z : A)
    → (if t then x else z) ≡ (if t then x else if t then y else z)
if_twice true x y z = refl
if_twice false x y z = refl

pub same_refl : (a : Bytes) → same a a ≡ true
unfolding same
same_refl [] = refl
same_refl (x ∷ xs) = rw ((==_iff x x).1 refl, same_refl xs) refl

pub same-eq : (a b : Bytes) → same a b ≡ true → a ≡ b
unfolding same
same-eq [] [] h = refl
same-eq [] (y ∷ ys) h = cc
same-eq (x ∷ xs) [] h = cc
same-eq (x ∷ xs) (y ∷ ys) h =
    let (p, q) = and_split (x == y) (same xs ys) h in
    ap₂ (λ u us. u ∷ us) ((==_iff x y).0 p) (same-eq xs ys q)

pub index_of-append :
    (c : ℕ) (xs ys : Bytes) → lacks c xs ≡ true → index_of c (xs ++ (c ∷ ys)) ≡ some (length xs)
unfolding index_of lacks
index_of-append c [] ys h = ground arith
index_of-append c (x ∷ xs) ys h = ground (arith, index_of-append c xs ys)

pub lines-append : (l rest : Bytes) → lacks 10 l ≡ true → lines (l ++ (10 ∷ rest)) ≡ l ∷ lines rest
unfolding lines lacks
lines-append [] rest h = refl
lines-append (c ∷ cs) rest h = ground (arith, lines-append cs rest)

not_blank : (xs : Bytes) → xs ≢ [] → is_blank xs ≡ false
not_blank [] h = absurd (h refl)
not_blank (x ∷ xs) h = refl

append_nonempty : (xs ys : Bytes) → ys ≢ [] → (xs ++ ys) ≢ []
append_nonempty [] ys h = h
append_nonempty (x ∷ xs) ys h = λ e. cc

-- A text whose end is no space keeps it whatever stands in front.
pub trim_right-append :
    (xs ys : Bytes) → trim_right ys ≢ [] → trim_right (xs ++ ys) ≡ xs ++ trim_right ys
unfolding trim_right
trim_right-append [] ys h = refl
trim_right-append (x ∷ xs) ys h = rw (
  trim_right-append xs ys h,
  not_blank (xs ++ trim_right ys) (append_nonempty xs (trim_right ys) h),
)
