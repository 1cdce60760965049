-- ===== src/Objects/Write/TempPath.antt =====
-- The names of temporary files: `temp_path_for` of src/handlers/object.rs.
use ferro_s.Base.{
  ℕ, ◌+◌, ◌≤◌, ◌≡◌, ◌≢◌, refl, sym, ap, ◌∙◌, [], ◌∷◌, ◌++◌, none, some, false, Text, codes, text_eq,
  text_eq_sound, length, length-append, arith, unwrap_or, if◌then◌else◌, Bool-cases, inl, inr,
}
use ferro_s.Base.Decimal.{dec}
use ferro_s.FilePath.{FilePath, parent}
use ferro_s.Objects.Names.{file_name, temp_name, temp_path_for}

file_name-concat :
    (dir : FilePath) (name : Text)
    → file_name (dir ++ (name ∷ [])) ≡ (if text_eq name (codes "..") then none else some name)
unfolding file_name
file_name-concat [] name = refl
file_name-concat (c ∷ []) name = refl
file_name-concat (c ∷ d ∷ dir) name = file_name-concat (d ∷ dir) name

length-temp_name : (pid n : ℕ) (name : Text) → length name + 7 ≤ length (temp_name pid n name)
unfolding temp_name
length-temp_name pid n name = omega (
  arith,
  length-append name (codes "." ++ (dec pid ++ (codes "." ++ (dec n ++ codes ".tmp")))),
  length-append (dec pid) (codes "." ++ (dec n ++ codes ".tmp")),
  length-append (dec n) (codes ".tmp"),
)

temp_name-ne_dots : (pid n : ℕ) (name : Text) → text_eq (temp_name pid n name) (codes "..") ≡ false
temp_name-ne_dots pid n name = elim (Bool-cases (text_eq (temp_name pid n name) (codes ".."))) [
  | inr ne ↦ ne
  | inl e ↦
      absurd
        (omega (arith, length-temp_name pid n name, ap length (text_eq_sound _ (codes "..") e)))
]

-- A temporary file never has the path of the object that it is renamed to.
pub temp_path_for-ne : (pid n : ℕ) (path : FilePath) → temp_path_for pid n path ≢ path
unfolding temp_path_for
temp_path_for-ne pid n path e =
    let name = unwrap_or (file_name path) (codes "object") in
    let dir = unwrap_or (parent path) (codes "." ∷ []) in
    let named : file_name (dir ++ (temp_name pid n name ∷ [])) ≡ some (temp_name pid n name) =
      file_name-concat dir (temp_name pid n name) ∙ (rw (temp_name-ne_dots pid n name)) in
    let same : name ≡ temp_name pid n name =
      ap (λ o. unwrap_or o (codes "object")) (sym (ap file_name e) ∙ named) in
    absurd (omega (arith, length-temp_name pid n name, ap length same))
