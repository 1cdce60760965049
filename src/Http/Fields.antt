-- ===== src/Http/Fields.antt =====
-- Header fields as they are written, and as `parse_request_head` of src/blocking_http.rs reads
-- them back.
use ferro_s.Base.{
  ℕ, zero, suc, ◌<◌, ◌≡◌, refl, sym, ap, ◌∙◌, List, [], ◌∷◌, ◌++◌, none, some, Bool, true, false,
  ◌||◌, Text, codes, is_empty, if◌then◌else◌, All, All-append, append_assoc, append-nil, arith,
  trim, length, text_eq, Bool-cases, inl, inr,
}
use ferro_s.Base.Strings.Laws.{Differs}
use ferro_s.Headers.{HeaderMap}
use ferro_s.Http.Heads.{
  HttpCrate, is_break, fields, header_field, read_fields, other_lines, trim_breaks,
}
use ferro_s.Http.Lines.{
  NoBreak, read_line-crlf, is_empty-append_some, trim_breaks-append, split_once-append, trim-space,
}

-- A field as it stands in a head, with the name that the crate http gives it.
pub record IsField (k : HttpCrate) (name value lower : Text) : Type 0 where
  pub no_colon : All (Differs b':') name
  pub name_breaks : NoBreak name
  pub value_breaks : NoBreak value
  pub name_trimmed : trim name ≡ name
  pub value_trimmed : trim value ≡ value
  pub accepted_name : k.header_name name ≡ some lower
  pub accepted_value : k.header_value value ≡ some (some value)

abbrev pub field_line : Text → Text → Text → Text
field_line name value rest = name ++ (codes ": " ++ (value ++ (codes "\r\n" ++ rest)))

pub header_field-line :
    (k : HttpCrate) (name value : Text) {lower : Text}
    → IsField k name value lower
    → header_field k (name ++ (codes ": " ++ value)) ≡ fields ((lower, some value) ∷ []) []
unfolding header_field
header_field-line k name value h =
    rw
      (
        header_field,
        split_once-append b':' name (b' ' ∷ value) h.no_colon,
        h.name_trimmed,
        h.accepted_name,
        trim-space value,
        h.value_trimmed,
        h.accepted_value,
      )
      refl

line-NoBreak :
    (k : HttpCrate) (name value : Text) {lower : Text}
    → IsField k name value lower
    → NoBreak (name ++ (codes ": " ++ value))
line-NoBreak k name value h =
    All-append (λ c. is_break c ≡ false) name (codes ": " ++ value) h.name_breaks
      (refl, (refl, h.value_breaks))

module _ (k : HttpCrate) (fuel : ℕ) (acc : HeaderMap) where
  -- The blank line ends the fields.
  pub read_fields-blank :
      (rest : List ℕ) → read_fields k (suc fuel) acc (codes "\r\n" ++ rest) ≡ some (fields acc rest)
  unfolding read_fields
  read_fields-blank rest = rw (read_line-crlf [] rest tt) (unfold trim_breaks in refl)

  read_fields-text :
      (line rest : Text) {field : HeaderMap}
      → NoBreak line
      → is_empty line ≡ false
      → header_field k line ≡ fields field []
      → read_fields k (suc fuel) acc (line ++ (codes "\r\n" ++ rest))
        ≡ read_fields k fuel (acc ++ field) rest
  unfolding read_fields
  read_fields-text line rest {field} h ne e =
      rw
        (
          read_line-crlf line rest h,
          is_empty-append_some line b'\r' (codes "\n"),
          trim_breaks-append line h,
          ne,
          e,
        )
        (ap (λ (p : List ℕ × List ℕ). read_fields k fuel (acc ++ field) p.1)
          (read_line-crlf line rest h))

  -- A field's line is read as that field.
  pub read_fields-line :
      (name value rest : Text) {lower : Text}
      → IsField k name value lower
      → read_fields k (suc fuel) acc (field_line name value rest)
        ≡ read_fields k fuel (acc ++ ((lower, some value) ∷ [])) rest
  read_fields-line name value rest h =
      ap (read_fields k (suc fuel) acc)
        (sym (append_assoc name (codes ": " ++ value) (codes "\r\n" ++ rest)))
      ∙ read_fields-text (name ++ (codes ": " ++ value)) rest (line-NoBreak k name value h)
          (is_empty-append_some name b':' (b' ' ∷ value)) (header_field-line k name value h)

-- The fields of a response besides those that the head itself declares.
abbrev pub is_own : Text → Bool
is_own name = text_eq name (codes "content-length") || text_eq name (codes "connection")

unfoldable pub others : HeaderMap → HeaderMap
others [] = []
others ((name, none) ∷ headers) = others headers
others ((name, some v) ∷ headers) =
    let rest = others headers in if is_own name then rest else (name, some v) ∷ rest

-- Every readable value is a field under its own name.
abbrev pub AllFields : HttpCrate → HeaderMap → Type 0
AllFields k [] = Unit
AllFields k ((name, none) ∷ headers) = AllFields k headers
AllFields k ((name, some v) ∷ headers) = IsField k name v name × AllFields k headers

module _ (k : HttpCrate) where
  other_lines-none :
      (name : Text) (headers : HeaderMap)
      → other_lines k ((name, none) ∷ headers) ≡ other_lines k headers
  unfolding other_lines
  other_lines-none name headers = elim (Bool-cases (is_own name)) [
    | inl y ↦ rw y refl
    | inr n ↦ rw n refl
  ]

  field_line-append :
      (name value rest t : Text)
      → field_line name value rest ++ t ≡ field_line name value (rest ++ t)
  field_line-append name value rest t =
      append_assoc name (codes ": " ++ (value ++ (codes "\r\n" ++ rest))) t
      ∙ ap (λ u. name ++ (codes ": " ++ u)) (append_assoc value (codes "\r\n" ++ rest) t)

  other_lines-own :
      (name v : Text) (headers : HeaderMap)
      → is_own name ≡ true
      → (other_lines k ((name, some v) ∷ headers) ≡ other_lines k headers)
        × (others ((name, some v) ∷ headers) ≡ others headers)
  unfolding other_lines others
  other_lines-own name v headers y = (rw y refl, rw y refl)

  other_lines-other :
      (name v : Text) (headers : HeaderMap)
      → is_own name ≡ false
      → (other_lines k ((name, some v) ∷ headers) ≡ field_line name v (other_lines k headers))
        × (others ((name, some v) ∷ headers) ≡ (name, some v) ∷ others headers)
  unfolding other_lines others
  other_lines-other name v headers n = (rw n refl, rw n refl)

  -- The lines of the other headers, and the blank line, are read as these headers.
  pub read_fields-other_lines :
      (fuel : ℕ) (acc headers : HeaderMap) (rest : List ℕ)
      → AllFields k headers
      → length headers < fuel
      → read_fields k fuel acc (other_lines k headers ++ (codes "\r\n" ++ rest))
        ≡ some (fields (acc ++ others headers) rest)
  read_fields-other_lines zero acc headers rest h l = ground (arith, l)
  read_fields-other_lines (suc fuel) acc [] rest h l =
      unfold other_lines others in
      read_fields-blank k fuel acc rest ∙ ap (λ a. some (fields a rest)) (sym (append-nil acc))
  read_fields-other_lines (suc fuel) acc ((name, none) ∷ headers) rest h l =
      let less : length headers < suc fuel = omega (arith, l) in
      ap (λ t. read_fields k (suc fuel) acc (t ++ (codes "\r\n" ++ rest)))
        (other_lines-none name headers)
      ∙ read_fields-other_lines (suc fuel) acc headers rest h less
      ∙ (unfold others in refl)
  read_fields-other_lines (suc fuel) acc ((name, some v) ∷ headers) rest (p, h) l =
      elim (Bool-cases (is_own name)) [
        | inl y ↦
            let less : length headers < suc fuel = omega (arith, l) in
            let (same, kept) = other_lines-own name v headers y in
            rw (same, kept) (read_fields-other_lines (suc fuel) acc headers rest h less)
        | inr n ↦
            let less : length headers < fuel = omega (arith, l) in
            let (same, kept) = other_lines-other name v headers n in
            rw (same, kept)
              (ap (read_fields k (suc fuel) acc)
                  (field_line-append name v (other_lines k headers) ((codes "\r\n" ++ rest)))
                ∙ read_fields-line k fuel acc name v
                    (other_lines k headers ++ (codes "\r\n" ++ rest)) p
                ∙ read_fields-other_lines fuel (acc ++ ((name, some v) ∷ [])) headers rest h less
                ∙ ap (λ a. some (fields a rest))
                    (append_assoc acc ((name, some v) ∷ []) (others headers)))
      ]

-- Lines of fields, before `rest`.
abbrev pub field_lines : List (Text × Text) → Text → Text
field_lines [] rest = rest
field_lines ((name, value) ∷ hs) rest = field_line name value (field_lines hs rest)

abbrev pub header_map : List (Text × Text) → HeaderMap
header_map [] = []
header_map ((name, value) ∷ hs) = (name, some value) ∷ header_map hs

-- Fields under the names that the crate http gives them.
abbrev pub AreFields : HttpCrate → List (Text × Text) → Type 0
AreFields k [] = Unit
AreFields k ((name, value) ∷ hs) = IsField k name value name × AreFields k hs

-- Lines of fields, and the blank line, are read as the fields.
pub read_fields-field_lines :
    (k : HttpCrate) (fuel : ℕ) (acc : HeaderMap) (hs : List (Text × Text)) (rest : List ℕ)
    → AreFields k hs
    → length hs < fuel
    → read_fields k fuel acc (field_lines hs (codes "\r\n" ++ rest))
      ≡ some (fields (acc ++ header_map hs) rest)
read_fields-field_lines k zero acc hs rest h l = ground (arith, l)
read_fields-field_lines k (suc fuel) acc [] rest h l =
    read_fields-blank k fuel acc rest ∙ ap (λ a. some (fields a rest)) (sym (append-nil acc))
read_fields-field_lines k (suc fuel) acc ((name, value) ∷ hs) rest (p, h) l =
    let less : length hs < fuel = omega (arith, l) in
    read_fields-line k fuel acc name value (field_lines hs (codes "\r\n" ++ rest)) p
    ∙ read_fields-field_lines k fuel (acc ++ ((name, some value) ∷ [])) hs rest h less
    ∙ ap (λ a. some (fields a rest)) (append_assoc acc ((name, some value) ∷ []) (header_map hs))
