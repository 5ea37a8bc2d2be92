-- ===== src/Network/Reading.antt =====
-- How the reader of sdk/network_model.go gets over one piece of text, whatever follows it.
use go_xpx_chain_sdk.Base.{
  Bytes, [], ap, append-nil, append_assoc, arith, false, leb, length, ok, refl, replicate, subst,
  suc, sym, true, zero, ℕ, ◌++◌, ◌+◌, ◌<◌, ◌==◌, ◌||◌, ◌∙◌, ◌∷◌, ◌≡◌,
}
use go_xpx_chain_sdk.Base.Text.{
  is_space, lacks, lines, lines-append, trim_left, trim_right, trim_space,
}
use go_xpx_chain_sdk.Network.{
  Reader, buffer_size, print_comment, read_line, read_lines, read_trimmed,
}

-- The reader gets over the text `b`, from one state to another.
pub record Reads (b : Bytes) (r r' : Reader) : Type 0 where
  pub over :
      (rest : Bytes) (l : ℕ)
      → (m : ℕ) × (read_lines l (lines (b ++ rest)) r ≡ read_lines m (lines rest) r')

pub Reads-nil : (r : Reader) → Reads [] r r
Reads-nil r = record { over = λ rest l. (l, refl) }

pub Reads-append : {a b : Bytes} {r s t : Reader} → Reads a r s → Reads b s t → Reads (a ++ b) r t
Reads-append {a} {b} first second = record {
  over = λ rest l.
      let (m, e) = first.over (b ++ rest) l in
      let (n, f) = second.over rest m in (n, rw append_assoc (e ∙ f));
}

-- A line with its break.
pub Reads-line :
    (line : Bytes) (r r' : Reader)
    → lacks 10 line ≡ true
    → length line < buffer_size
    → ((l : ℕ) → read_trimmed l (trim_space line) r ≡ ok r')
    → Reads (line ++ (10 ∷ [])) r r'
unfolding read_lines read_line
Reads-line line r r' one short read = record {
  over = λ rest l.
      let fits : leb buffer_size (length line) ≡ false = ground arith in
      (suc l, rw (append_assoc, lines-append line rest one, fits, read (suc l)) refl);
}

abbrev pub breaks : ℕ → Bytes
breaks n = replicate n 10

abbrev pub with_comment : Bytes → Reader → Reader
with_comment s r = record r { comment = r.comment ++ s }

Reads-break : (r : Reader) → Reads (10 ∷ []) r (with_comment (10 ∷ []) r)
unfolding read_trimmed trim_space lacks
Reads-break r = Reads-line [] r (with_comment (10 ∷ []) r) refl (omega arith) (λ l. refl)

pub Reads-breaks : (n : ℕ) (r : Reader) → Reads (breaks n) r (with_comment (breaks n) r)
Reads-breaks zero r = rw append-nil (Reads-nil r)
Reads-breaks (suc n) r =
    let later = Reads-breaks n (with_comment (10 ∷ []) r) in
    let same : with_comment (breaks n) (with_comment (10 ∷ []) r)
        ≡ with_comment (breaks (suc n)) r =
      rw append_assoc refl in
    subst (λ r'. Reads (breaks (suc n)) r r') same (Reads-append (Reads-break r) later)

-- A comment that is printed and read back as it is: blank lines, and one line at most that begins a
-- comment.
pub data IsComment : Bytes → Type 0 where
  blank_lines : (n : ℕ) → IsComment (breaks n)
  one_line :
      (m n c : ℕ) (cs : Bytes)
      → (c == b';' || c == b'#') ≡ true
      → trim_right cs ≡ cs
      → lacks 10 cs ≡ true
      → length cs + 1 < buffer_size
      → IsComment (breaks m ++ ((c ∷ cs) ++ breaks n))

mark_nonspace :
    (c : ℕ) → (c == b';' || c == b'#') ≡ true → (is_space c ≡ false) × ((c == 10) ≡ false)
unfolding is_space
mark_nonspace c h = (ground arith, ground arith)

trim_left-breaks : (n : ℕ) (s : Bytes) → trim_left (breaks n ++ s) ≡ trim_left s
unfolding trim_left is_space
trim_left-breaks zero s = refl
trim_left-breaks (suc n) s = trim_left-breaks n s

-- A text that begins with no space.
pub trim_right_cons :
    (c : ℕ) (cs : Bytes) → is_space c ≡ false → trim_right (c ∷ cs) ≡ c ∷ trim_right cs
unfolding trim_right
trim_right_cons c cs h = ground arith

pub trim_space_cons :
    (c : ℕ) (cs : Bytes) → is_space c ≡ false → trim_space (c ∷ cs) ≡ c ∷ trim_right cs
unfolding trim_space trim_left
trim_space_cons c cs h = rw h (trim_right_cons c cs h)

trim_space-breaks : (n : ℕ) (s : Bytes) → trim_space (breaks n ++ s) ≡ trim_space s
unfolding trim_space
trim_space-breaks n s = ap trim_right (trim_left-breaks n s)

pub lacks_cons :
    (x c : ℕ) (cs : Bytes) → (c == x) ≡ false → lacks x cs ≡ true → lacks x (c ∷ cs) ≡ true
unfolding lacks
lacks_cons x c cs h k = rw (h, k) refl

read_mark :
    (l c : ℕ) (cs : Bytes) (r : Reader)
    → (c == b';' || c == b'#') ≡ true
    → read_trimmed l (c ∷ cs) r ≡ ok (with_comment (c ∷ cs) r)
unfolding read_trimmed
read_mark l c cs r mark = rw mark refl

breaks-snoc : (n : ℕ) → breaks n ++ (10 ∷ []) ≡ 10 ∷ breaks n
breaks-snoc zero = refl
breaks-snoc (suc n) = ap (λ s. 10 ∷ s) (breaks-snoc n)

print_comment-breaks : (n : ℕ) → print_comment (breaks n) ≡ breaks n
unfolding print_comment trim_space trim_right
print_comment-breaks n =
    let blank : trim_left (breaks n) ≡ [] =
      ap trim_left (sym (append-nil (breaks n))) ∙ trim_left-breaks n [] in
    rw blank refl

-- The text of a comment that has a line.
print_comment-line :
    (m n c : ℕ) (cs : Bytes)
    → is_space c ≡ false
    → print_comment (breaks m ++ ((c ∷ cs) ++ breaks n))
      ≡ breaks m ++ (((c ∷ cs) ++ (10 ∷ [])) ++ breaks n)
unfolding print_comment
print_comment-line m n c cs h =
    let shown : trim_space (breaks m ++ ((c ∷ cs) ++ breaks n)) ≡ c ∷ trim_right (cs ++ breaks n) =
      trim_space-breaks m ((c ∷ cs) ++ breaks n) ∙ trim_space_cons c (cs ++ breaks n) h in
    rw shown (simp (append_assoc, breaks-snoc n))

pub Reads-print_comment :
    {s : Bytes} (r : Reader) → IsComment s → Reads (print_comment s) r (with_comment s r)
Reads-print_comment r (blank_lines n) = rw (print_comment-breaks n) (Reads-breaks n r)
Reads-print_comment r (one_line m n c cs mark trimmed one short) =
    let (shown, printed) = mark_nonspace c mark in
    let lead = Reads-breaks m r in
    let read : (l : ℕ)
        → read_trimmed l (trim_space (c ∷ cs)) (with_comment (breaks m) r)
          ≡ ok (with_comment (c ∷ cs) (with_comment (breaks m) r)) =
      λ l.
        rw (trim_space_cons c cs shown, trimmed)
          (read_mark l c cs (with_comment (breaks m) r) mark) in
    let body =
      Reads-line (c ∷ cs) (with_comment (breaks m) r)
        (with_comment (c ∷ cs) (with_comment (breaks m) r)) (lacks_cons 10 c cs printed one)
        (omega (arith, short)) read in
    let trail = Reads-breaks n (with_comment (c ∷ cs) (with_comment (breaks m) r)) in
    let same : with_comment (breaks n) (with_comment (c ∷ cs) (with_comment (breaks m) r))
        ≡ with_comment (breaks m ++ ((c ∷ cs) ++ breaks n)) r =
      rw append_assoc (rw append_assoc refl) in
    rw (print_comment-line m n c cs shown) (
      subst (λ r'. Reads (breaks m ++ (((c ∷ cs) ++ (10 ∷ [])) ++ breaks n)) r r') same
        (Reads-append lead (Reads-append body trail)))
