-- ===== src/Auth/Compare.antt =====
-- `constant_time_eq` of src/auth/sigv4.rs.
use Prim.Native.Nat.{bit_or, bit_xor}
use ferro_s.Base.{
  ℕ, zero, suc, ◌<◌, ◌≡◌, refl, ap, List, [], ◌∷◌, Bool, true, false, not, ◌&&◌, ◌==◌, ltb, length,
  All, arith, if◌then◌else◌, ==_iff, text_eq, text_eq_sound, Bool-cases, inl, inr, sym, ◌∙◌,
}

-- The loop over the two slices, of one length.
unfoldable pub diff_bytes : ℕ → List ℕ → List ℕ → ℕ
diff_bytes diff [] b = diff
diff_bytes diff (x ∷ a) [] = diff
diff_bytes diff (x ∷ a) (y ∷ b) = diff_bytes (bit_or diff (bit_xor x y)) a b

unfoldable pub constant_time_eq : List ℕ → List ℕ → Bool
constant_time_eq a b = if not (length a == length b) then false else (diff_bytes 0 a b == 0)

abbrev pub IsByte : ℕ → Type 0
IsByte c = c < 256

-- A test passes on all numbers below a bound.
passes : (ℕ → Bool) → ℕ → Bool
passes test zero = true
passes test (suc bound) = passes test bound && test bound

passes_at : (test : ℕ → Bool) (bound c : ℕ) → c < bound → passes test bound ≡ true → test c ≡ true
unfolding passes
passes_at test zero c below all = absurd (omega arith)
passes_at test (suc bound) c below all = elim (Bool-cases (c == bound)) [
  | inl top ↦ rw ((==_iff c bound).0 top) (ground (arith, all))
  | inr ne ↦ passes_at test bound c (ground (arith, ne)) (ground (arith, all))
]

-- What the laws of `|` and `^` on bytes say of one pair.
abbrev pair_ok : ℕ → ℕ → Bool
pair_ok x y =
    ltb (bit_or x y) 256
    && ltb (bit_xor x y) 256
    && (if bit_or x y == 0 then x == 0 && y == 0 else not (x == 0 && y == 0))
    && (if bit_xor x y == 0 then x == y else not (x == y))

pair_table : passes (λ x. passes (pair_ok x) 256) 256 ≡ true
unfolding passes
pair_table = refl

pair_true : (x y : ℕ) → x < 256 → y < 256 → pair_ok x y ≡ true
pair_true x y hx hy =
    passes_at (pair_ok x) 256 y hy (passes_at (λ x. passes (pair_ok x) 256) 256 x hx pair_table)

or-IsByte : (x y : ℕ) → IsByte x → IsByte y → IsByte (bit_or x y)
or-IsByte x y hx hy = ground (arith, pair_true x y hx hy)

xor-IsByte : (x y : ℕ) → IsByte x → IsByte y → IsByte (bit_xor x y)
xor-IsByte x y hx hy = ground (arith, pair_true x y hx hy)

or_zero : (x y : ℕ) → IsByte x → IsByte y → (bit_or x y == 0) ≡ ((x == 0) && (y == 0))
or_zero x y hx hy = ground (arith, pair_true x y hx hy)

xor_zero : (x y : ℕ) → IsByte x → IsByte y → (bit_xor x y == 0) ≡ (x == y)
xor_zero x y hx hy = ground (arith, pair_true x y hx hy)

and_assoc : (a b c : Bool) → ((a && b) && c) ≡ (a && (b && c))
and_assoc true b c = refl
and_assoc false b c = refl

length_ne : (a b : List ℕ) → (length a == length b) ≡ false → length a ≡ length b → ⊥
length_ne a b h e = ground arith

diff_bytes-zero :
    (diff : ℕ) (a b : List ℕ)
    → IsByte diff
    → All IsByte a
    → All IsByte b
    → length a ≡ length b
    → (diff_bytes diff a b == 0) ≡ ((diff == 0) && text_eq a b)
unfolding diff_bytes text_eq
diff_bytes-zero diff [] [] hd ha hb e = ground arith
diff_bytes-zero diff [] (y ∷ b) hd ha hb e = absurd (omega arith)
diff_bytes-zero diff (x ∷ a) [] hd ha hb e = absurd (omega arith)
diff_bytes-zero diff (x ∷ a) (y ∷ b) hd (hx, ha) (hy, hb) e =
    diff_bytes-zero (bit_or diff (bit_xor x y)) a b
      (or-IsByte diff (bit_xor x y) hd (xor-IsByte x y hx hy)) ha hb (omega arith)
    ∙ rw (or_zero diff (bit_xor x y) hd (xor-IsByte x y hx hy), xor_zero x y hx hy)
        (and_assoc (diff == 0) (x == y) (text_eq a b))

text_eq-length : (a b : List ℕ) → (length a == length b) ≡ false → text_eq a b ≡ false
text_eq-length a b ne = elim (Bool-cases (text_eq a b)) [
  | inr e ↦ e
  | inl e ↦ absurd (length_ne a b ne (ap length (text_eq_sound a b e)))
]

-- On byte strings, comparing in constant time gives the same answer as equality.
pub constant_time_eq-text_eq :
    (a b : List ℕ) → All IsByte a → All IsByte b → constant_time_eq a b ≡ text_eq a b
unfolding constant_time_eq
constant_time_eq-text_eq a b ha hb = elim (Bool-cases (length a == length b)) [
  | inl same ↦
      rw same (diff_bytes-zero 0 a b (omega arith) ha hb ((==_iff (length a) (length b)).0 same))
  | inr ne ↦ rw ne (sym (text_eq-length a b ne))
]
