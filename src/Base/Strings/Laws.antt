-- ===== src/Base/Strings/Laws.antt =====
-- Splitting and trimming texts that hold no separator and no white space.
use Prim.Native.Nat.{ℕ}
use mathlib.Core.Path.{◌≡◌, refl}
use mathlib.Core.Bool.{false}
use mathlib.Core.List.{[], ◌∷◌, ◌++◌}
use ferro_s.Base.Tests.{◌==◌, ==_refl}
use ferro_s.Base.Lists.{All}
use ferro_s.Base.Strings.{Text, is_whitespace, trim_start, trim_end, trim, split}

abbrev pub IsInk : ℕ → Type 0
IsInk c = is_whitespace c ≡ false

abbrev pub Differs : ℕ → ℕ → Type 0
Differs sep c = (c == sep) ≡ false

trim_end-ink : (s : Text) → All IsInk s → trim_end s ≡ s
unfolding trim_end
trim_end-ink [] h = refl
trim_end-ink (c ∷ []) (p, h) = rw p
trim_end-ink (c ∷ d ∷ s) (p, h) = rw (trim_end-ink (d ∷ s) h, trim_end)

trim_start-ink : (s : Text) → All IsInk s → trim_start s ≡ s
unfolding trim_start
trim_start-ink [] h = refl
trim_start-ink (c ∷ s) (p, h) = rw p

-- A text with no white space is its own trimming.
pub trim-ink : (s : Text) → All IsInk s → trim s ≡ s
unfolding trim
trim-ink s h = rw (trim_start-ink s h) (trim_end-ink s h)

pub split-none : (sep : ℕ) (s : Text) → All (Differs sep) s → split sep s ≡ s ∷ []
unfolding split
split-none sep [] h = refl
split-none sep (c ∷ s) (p, h) = rw (p, split-none sep s h)

-- A field with no separator is split off whole.
pub split-append :
    (sep : ℕ) (s t : Text) → All (Differs sep) s → split sep (s ++ (sep ∷ t)) ≡ s ∷ split sep t
unfolding split
split-append sep [] t h = rw (==_refl sep)
split-append sep (c ∷ s) t (p, h) = rw (p, split-append sep s t h)
