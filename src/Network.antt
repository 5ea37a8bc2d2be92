-- ===== src/Network.antt =====
-- The network configuration of sdk/network_model.go: its reader `UnmarshalBinary` and its printer
-- `MarshalBinary`. Text is ASCII. A map is the list of its values, each found by its key.
pub mod Reading
pub mod Trimming
pub mod Fields
pub mod RoundTrip
pub mod Entities
use go_xpx_chain_sdk.Base.{
  Bool, Bytes, List, Option, Result, [], at_line, drop, err, false, if◌then◌else◌, leb, length,
  none, ok, some, suc, take, ℕ, ◌++◌, ◌+◌, ◌==◌, ◌>>=◌, ◌||◌, ◌∷◌,
}
use go_xpx_chain_sdk.Base.Text.{index_of, is_blank, lines, same, trim_space}

pub record Field : Type 0 where
  pub key : Bytes
  pub value : Bytes
  pub comment : Bytes
  pub index : ℕ

pub record ConfigBag : Type 0 where
  pub name : Bytes
  pub comment : Bytes
  pub index : ℕ
  pub fields : List Field

pub record NetworkConfig : Type 0 where
  pub sections : List ConfigBag

pub new_network_config : NetworkConfig
new_network_config = record { sections = [] }

-- `bag.Fields[field.Key] = field`
unfoldable pub set_field : Field → List Field → List Field
unfolding same
set_field new [] = new ∷ []
set_field new (f ∷ fs) =
    let others = set_field new fs in if same f.key new.key then new ∷ fs else f ∷ others

unfoldable pub has_section : Bytes → List ConfigBag → Bool
unfolding same
has_section name [] = false
has_section name (s ∷ ss) = same s.name name || has_section name ss

-- The variables of the loop of `UnmarshalBinary`. The bag that is being filled is kept apart from the
-- other sections, though the map holds it already.
pub record Reader : Type 0 where
  pub sections : List ConfigBag
  pub bag : Option ConfigBag
  pub comment : Bytes

-- `c.Sections`, the current bag included.
unfoldable pub all_sections : Reader → List ConfigBag
all_sections r = elim r.bag [ none ↦ r.sections | some b ↦ r.sections ++ (b ∷ []) ]

-- A header whose closing bracket is at `right`.
unfoldable pub header_at : ℕ → Option ℕ → Bytes → Reader → Result Reader
unfolding all_sections has_section
header_at l none line r = err (at_line "Wrong header of section" l)
header_at l (some right) line r =
    let name = trim_space (drop 1 (take right line)) in
    if has_section name (all_sections r)
    then err (at_line "Duplicate section" l)
    else ok (record {
      sections = all_sections r;
      bag = some (record {
        name = name;
        comment = r.comment;
        index = length (all_sections r);
        fields = [];
      });
      comment = [];
    })

-- `bag == nil` is tested after the separator.
unfoldable pub add_field : ℕ → ℕ → Bytes → Reader → Result Reader
unfolding set_field
add_field l separator line r = elim r.bag [
  | none ↦ err (at_line "The section without header" l)
  | some b ↦ ok (record r {
    bag = some (record b {
      fields =
          set_field
            (record {
              key = trim_space (take separator line);
              value = trim_space (drop (separator + 1) line);
              comment = r.comment;
              index = length b.fields;
            })
            b.fields;
    });
    comment = [];
  })
]

-- A field whose separator is at `separator`.
unfoldable pub field_at : ℕ → Option ℕ → Bytes → Reader → Result Reader
unfolding add_field
field_at l none line r = err (at_line "'=' character not found" l)
field_at l (some separator) line r =
    if separator == 0 then err (at_line "Key is empty" l) else add_field l separator line r

-- The switch on the first character of a trimmed line.
unfoldable pub read_trimmed : ℕ → Bytes → Reader → Result Reader
unfolding header_at field_at
read_trimmed l [] r = ok (record r { comment = r.comment ++ (10 ∷ []) })
read_trimmed l (c ∷ cs) r =
    if c == b';' || c == b'#'
    then ok (record r { comment = r.comment ++ (c ∷ cs) })
    else if c == b'['
    then header_at l (index_of b']' (c ∷ cs)) (c ∷ cs) r
    else field_at l (index_of b'=' (c ∷ cs)) (c ∷ cs) r

-- `ReadLine` of a `bufio.Reader` has a buffer of 4096 bytes, and says `isPrefix` of a line that fills it.
abbrev pub buffer_size : ℕ
buffer_size = 4096

unfoldable pub read_line : ℕ → Bytes → Reader → Result Reader
unfolding read_trimmed trim_space
read_line l line r =
    if leb buffer_size (length line)
    then err (at_line "Line is to long" l)
    else read_trimmed l (trim_space line) r

-- The loop: `l` lines have been read.
unfoldable pub read_lines : ℕ → List Bytes → Reader → Result Reader
unfolding read_line
read_lines l [] r = ok r
read_lines l (line ∷ more) r = do r' ← read_line (suc l) line r; read_lines (suc l) more r'

pub unmarshal_binary : NetworkConfig → Bytes → Result NetworkConfig
unfolding read_lines all_sections
unmarshal_binary c data' = do
  r ← read_lines 0 (lines data') (record { sections = c.sections; bag = none; comment = [] })
  ok (record { sections = all_sections r })

-- A comment, with a line break where it is not blank.
unfoldable pub print_comment : Bytes → Bytes
unfolding trim_space
print_comment s = if is_blank (trim_space s) then s else s ++ (10 ∷ [])

-- `Field.String`
unfoldable pub print_field : Field → Bytes
unfolding print_comment
print_field f = print_comment f.comment ++ (f.key ++ (32 ∷ (b'=' ∷ (32 ∷ f.value))))

module _ {ℓ} {A : Type ℓ} (index : A → ℕ) where
  -- `sort.Slice` by an index; among equal ones Go leaves the order open.
  unfoldable pub insert_by : A → List A → List A
  insert_by a [] = a ∷ []
  insert_by a (x ∷ xs) =
      let later = insert_by a xs in if leb (index a) (index x) then a ∷ (x ∷ xs) else x ∷ later

  unfoldable pub sort_by : List A → List A
  unfolding insert_by
  sort_by [] = []
  sort_by (x ∷ xs) = insert_by x (sort_by xs)

unfoldable pub print_fields : List Field → Bytes
unfolding print_field
print_fields [] = []
print_fields (f ∷ fs) = print_field f ++ (10 ∷ print_fields fs)

-- `ConfigBag.String`
unfoldable pub print_section : ConfigBag → Bytes
unfolding print_comment print_fields sort_by
print_section b =
    print_comment b.comment
    ++ (b'[' ∷ (b.name ++ (b']' ∷ (10 ∷ print_fields (sort_by (λ f. f.index) b.fields)))))

unfoldable pub print_sections : List ConfigBag → Bytes
unfolding print_section
print_sections [] = []
print_sections (b ∷ bs) = print_section b ++ print_sections bs

pub marshal_binary : NetworkConfig → Bytes
unfolding print_sections sort_by
marshal_binary c = print_sections (sort_by (λ b. b.index) c.sections)
