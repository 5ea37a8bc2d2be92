-- ===== src/Network/Fields.antt =====
-- The fields of sdk/network_model.go: what is printed of them is read back.
use go_xpx_chain_sdk.Base.{
  Bool, Bytes, List, [], and_split, ap, append-nil, append_assoc, arith, false, length,
  length-append, length_nonzero, not, ok, refl, some, subst, subst₂, sym, take-append_self, true, ℕ,
  ◌&&◌, ◌++◌, ◌+◌, ◌<◌, ◌==◌, ◌||◌, ◌∙◌, ◌∷◌, ◌≡◌, ◌≢◌,
}
use go_xpx_chain_sdk.Base.Text.{index_of, index_of-append, is_space, lacks, same, trim_space}
use go_xpx_chain_sdk.Info.Resolver.{before}
use go_xpx_chain_sdk.Network.{
  ConfigBag, Field, Reader, add_field, buffer_size, field_at, print_comment, print_field,
  print_fields, read_trimmed, set_field,
}
use go_xpx_chain_sdk.Network.Reading.{
  IsComment, Reads, Reads-append, Reads-line, Reads-nil, Reads-print_comment, lacks_cons,
}
use go_xpx_chain_sdk.Network.Trimming.{
  drop-append_cons, trim_space_key, trim_space_value, trimmed_line, trimmed_value,
}

unfoldable pub has_field : Bytes → List Field → Bool
unfolding same
has_field key [] = false
has_field key (f ∷ fs) = same f.key key || has_field key fs

-- A key begins neither a comment nor a header.
abbrev pub begins_key : Bytes → Bool
begins_key [] = false
begins_key (c ∷ cs) = not (is_space c) && not (c == b';' || c == b'#') && not (c == b'[')

-- A field that is printed and read back: one line, with spaces only inside its key and its value.
pub record IsField (f : Field) : Type 0 where
  pub comment_is : IsComment f.comment
  pub key_begins : begins_key f.key ≡ true
  pub key_ends : trim_space f.key ≡ f.key
  pub key_lacks : (lacks b'=' f.key ≡ true) × (lacks 10 f.key ≡ true)
  pub value_ends : trim_space f.value ≡ f.value
  pub value_lacks : lacks 10 f.value ≡ true
  pub short : length f.key + length f.value + 3 < buffer_size

-- The fields of a section after those of `before`: each one is where its index says, under a new key.
abbrev pub AreFields : List Field → List Field → Type 0
AreFields before [] = Unit
AreFields before (f ∷ fs) =
    IsField f
    × (f.index ≡ length before)
    × (has_field f.key before ≡ false)
    × AreFields (before ++ (f ∷ [])) fs

pub lacks_nil : (c : ℕ) → lacks c [] ≡ true
unfolding lacks
lacks_nil c = refl

pub lacks-append :
    (c : ℕ) (xs ys : Bytes) → lacks c xs ≡ true → lacks c ys ≡ true → lacks c (xs ++ ys) ≡ true
unfolding lacks
lacks-append c [] ys h k = k
lacks-append c (x ∷ xs) ys h k =
    let (p, q) = and_split (not (x == c)) (lacks c xs) h in rw (p, lacks-append c xs ys q k) refl

set_field-append :
    (f : Field) (fs : List Field) → has_field f.key fs ≡ false → set_field f fs ≡ fs ++ (f ∷ [])
unfolding set_field has_field
set_field-append f [] h = refl
set_field-append f (g ∷ fs) h = ground (arith, set_field-append f fs)

-- A line is cut at its first equals sign.
field_at-equals :
    (l : ℕ) (before after comment : Bytes) (ss : List ConfigBag) (b : ConfigBag)
    → lacks b'=' before ≡ true
    → before ≢ []
    → field_at l
        (index_of b'=' (before ++ (b'=' ∷ after)))
        (before ++ (b'=' ∷ after))
        (record { sections = ss; bag = some b; comment = comment })
      ≡ ok (record {
        sections = ss;
        bag = some (record b {
          fields =
              set_field
                (record {
                  key = trim_space before;
                  value = trim_space after;
                  comment = comment;
                  index = length b.fields;
                })
                b.fields;
        });
        comment = [];
      })
unfolding field_at add_field
field_at-equals l before after comment ss b h some_key =
    let nonzero : (length before == 0) ≡ false = ground (arith, length_nonzero before some_key) in
    let cut = take-append_self before (b'=' ∷ after) in
    let rest = drop-append_cons before b'=' after in
    rw (index_of-append b'=' before after h) (rw (nonzero, cut, rest) refl)

-- A key that begins a line of a field.
begins_key_parts :
    (c : ℕ) (cs : Bytes)
    → begins_key (c ∷ cs) ≡ true
    → (is_space c ≡ false) × ((c == b';' || c == b'#') ≡ false) × ((c == b'[') ≡ false)
unfolding is_space
begins_key_parts c cs h = (ground arith, ground arith, ground arith)

read_trimmed-key :
    (l c : ℕ) (cs : Bytes) (r : Reader)
    → (c == b';' || c == b'#') ≡ false
    → (c == b'[') ≡ false
    → read_trimmed l (c ∷ cs) r ≡ field_at l (index_of b'=' (c ∷ cs)) (c ∷ cs) r
unfolding read_trimmed
read_trimmed-key l c cs r p q = rw (p, q) refl

-- What the reader makes of the trimmed line of a field.
read_trimmed-field :
    (l c : ℕ) (cs value comment : Bytes) (ss : List ConfigBag) (b : ConfigBag)
    → IsField (record { key = c ∷ cs; value = value; comment = comment; index = length b.fields })
    → has_field (c ∷ cs) b.fields ≡ false
    → read_trimmed l
        ((c ∷ cs) ++ (32 ∷ (b'=' ∷ trimmed_value value)))
        (record { sections = ss; bag = some b; comment = comment })
      ≡ ok (record {
        sections = ss;
        bag = some (record b {
          fields =
              b.fields
              ++ ((record {
                key = c ∷ cs;
                value = value;
                comment = comment;
                index = length b.fields;
              })
                  ∷ []);
        });
        comment = [];
      })
read_trimmed-field l c cs value comment ss b is fresh =
    let (nonspace, p, q) = begins_key_parts c cs is.key_begins in
    let r : Reader = record { sections = ss; bag = some b; comment = comment } in
    let tail = trimmed_value value in
    let split : (c ∷ cs) ++ (32 ∷ (b'=' ∷ tail)) ≡ ((c ∷ cs) ++ (32 ∷ [])) ++ (b'=' ∷ tail) =
      rw append_assoc refl in
    let free : lacks b'=' ((c ∷ cs) ++ (32 ∷ [])) ≡ true =
      lacks-append b'=' (c ∷ cs) (32 ∷ []) (is.key_lacks.0)
        (lacks_cons b'=' 32 [] refl (lacks_nil b'=')) in
    read_trimmed-key l c (cs ++ (32 ∷ (b'=' ∷ tail))) r p q
    ∙ ap (λ s. field_at l (index_of b'=' s) s r) split
    ∙ field_at-equals l ((c ∷ cs) ++ (32 ∷ [])) tail comment ss b free (λ e. cc)
    ∙ rw
        (
          trim_space_key c cs nonspace is.key_ends,
          trim_space_value value is.value_ends,
          set_field-append
              (record { key = c ∷ cs; value = value; comment = comment; index = length b.fields })
              b.fields fresh,
        )
        refl

Reads-print_field :
    (key value comment : Bytes) (ss : List ConfigBag) (b : ConfigBag)
    → IsField (record { key = key; value = value; comment = comment; index = length b.fields })
    → has_field key b.fields ≡ false
    → Reads
        (print_field
            (record { key = key; value = value; comment = comment; index = length b.fields })
          ++ (10 ∷ []))
        (record { sections = ss; bag = some b; comment = [] })
        (record {
          sections = ss;
          bag = some (record b {
            fields =
                b.fields
                ++ ((record {
                  key = key;
                  value = value;
                  comment = comment;
                  index = length b.fields;
                })
                    ∷ []);
          });
          comment = [];
        })
unfolding print_field
Reads-print_field [] value comment ss b is fresh = absurd (cc is.key_begins)
Reads-print_field (c ∷ cs) value comment ss b is fresh =
    let start : Reader = record { sections = ss; bag = some b; comment = [] } in
    let noted : Reader = record { sections = ss; bag = some b; comment = comment } in
    let line = (c ∷ cs) ++ (32 ∷ (b'=' ∷ (32 ∷ value))) in
    let lead : Reads (print_comment comment) start noted =
      Reads-print_comment start is.comment_is in
    let one : lacks 10 line ≡ true =
      lacks-append 10 (c ∷ cs) (32 ∷ (b'=' ∷ (32 ∷ value))) (is.key_lacks.1) (
        lacks_cons 10 32 (b'=' ∷ (32 ∷ value)) refl
          (lacks_cons 10 b'=' (32 ∷ value) refl (lacks_cons 10 32 value refl is.value_lacks))) in
    let body =
      Reads-line line noted _ one
        (omega (arith, length-append (c ∷ cs) (32 ∷ (b'=' ∷ (32 ∷ value)))))
        (λ l.
          ap (λ s. read_trimmed l s noted)
            (trimmed_line c cs value (begins_key_parts c cs is.key_begins).0 is.value_ends)
          ∙ read_trimmed-field l c cs value comment ss b is fresh) in
    rw append_assoc (Reads-append lead body)

Reads-field :
    (f : Field) (ss : List ConfigBag) (b : ConfigBag)
    → IsField f
    → f.index ≡ length b.fields
    → has_field f.key b.fields ≡ false
    → Reads
        (print_field f ++ (10 ∷ []))
        (record { sections = ss; bag = some b; comment = [] })
        (record {
          sections = ss;
          bag = some (record b { fields = b.fields ++ (f ∷ []) });
          comment = [];
        })
Reads-field f ss b is index fresh =
    subst
      (λ (i : ℕ).
        let g : Field = record { key = f.key; value = f.value; comment = f.comment; index = i } in
        Reads (print_field g ++ (10 ∷ [])) (record { sections = ss; bag = some b; comment = [] })
          (record {
            sections = ss;
            bag = some (record b { fields = b.fields ++ (g ∷ []) });
            comment = [];
          }))
      (sym index)
      (Reads-print_field f.key f.value f.comment ss b
        (record {
          comment_is = is.comment_is;
          key_begins = is.key_begins;
          key_ends = is.key_ends;
          key_lacks = is.key_lacks;
          value_ends = is.value_ends;
          value_lacks = is.value_lacks;
          short = is.short;
        })
        fresh)

pub Reads-fields :
    (fs : List Field) (ss : List ConfigBag) (b : ConfigBag)
    → AreFields b.fields fs
    → Reads
        (print_fields fs)
        (record { sections = ss; bag = some b; comment = [] })
        (record { sections = ss; bag = some (record b { fields = b.fields ++ fs }); comment = [] })
unfolding print_fields
Reads-fields [] ss b h =
    rw append-nil (Reads-nil (record { sections = ss; bag = some b; comment = [] }))
Reads-fields (f ∷ fs) ss b (is, index, fresh, h) =
    subst₂
      (λ (text : Bytes) (all : List Field).
        Reads text (record { sections = ss; bag = some b; comment = [] })
          (record { sections = ss; bag = some (record b { fields = all }); comment = [] }))
      (append_assoc (print_field f) (10 ∷ []) (print_fields fs)) (append_assoc b.fields (f ∷ []) fs)
      (Reads-append (Reads-field f ss b is index fresh)
        (Reads-fields fs ss (record b { fields = b.fields ++ (f ∷ []) }) h))
