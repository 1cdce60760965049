-- ===== src/Http/Lines.antt =====
-- Lines of a head of src/blocking_http.rs: what `read_line`, `trim_end_matches`, `split_once` and
-- `split_whitespace` make of them.
use ferro_s.Base.{
  ℕ, ◌≡◌, refl, sym, ap, ◌∙◌, List, [], ◌∷◌, ◌++◌, some, false, Text, codes, is_empty, split_once,
  trim, is_whitespace, All, All-append, append_assoc, append-nil, ==_refl, arith,
}
use ferro_s.Base.Strings.{trim_start}
use ferro_s.Base.Strings.Laws.{IsInk, Differs}
use ferro_s.Http.{read_line}
use ferro_s.Http.Heads.{is_break, trim_breaks, words_from, split_whitespace}

abbrev pub NoBreak : Text → Type 0
NoBreak s = All (λ c. is_break c ≡ false) s

pub NoBreak-Differs : (s : Text) → NoBreak s → All (Differs b'\n') s
NoBreak-Differs [] h = tt
NoBreak-Differs (c ∷ s) (p, h) = (ground (arith, p), NoBreak-Differs s h)

pub read_line-append :
    (line : Text) (s : List ℕ)
    → All (Differs b'\n') line
    → read_line (line ++ (b'\n' ∷ s)) ≡ (line ++ (b'\n' ∷ []), s)
unfolding read_line
read_line-append [] s h = refl
read_line-append (c ∷ line) s (p, h) = rw (read_line-append line s h, p) refl

pub trim_breaks-append : (line : Text) → NoBreak line → trim_breaks (line ++ codes "\r\n") ≡ line
unfolding trim_breaks
trim_breaks-append [] h = refl
trim_breaks-append (c ∷ []) (p, h) = rw p refl
trim_breaks-append (c ∷ d ∷ s) (p, h) = rw (trim_breaks-append (d ∷ s) h, trim_breaks) refl

pub split_once-append :
    (sep : ℕ) (s t : Text) → All (Differs sep) s → split_once sep (s ++ (sep ∷ t)) ≡ some (s, t)
unfolding split_once
split_once-append sep [] t h = rw (==_refl sep) refl
split_once-append sep (c ∷ s) t (p, h) = rw (p, split_once-append sep s t h) refl

pub trim-space : (s : Text) → trim (b' ' ∷ s) ≡ trim s
unfolding trim trim_start
trim-space s = unfold is_whitespace in refl

words_from-ink :
    (word s : Text) (t : Text) → All IsInk s → words_from word (s ++ t) ≡ words_from (word ++ s) t
unfolding words_from
words_from-ink word [] t h = ap (λ w. words_from w t) (sym (append-nil word))
words_from-ink word (c ∷ s) t (p, h) = rw p (
    words_from-ink (word ++ (c ∷ [])) s t h
    ∙ ap (λ w. words_from w t) (append_assoc word (c ∷ []) s))

-- A word, and a space after it.
pub split_whitespace-append :
    (s t : Text)
    → is_empty s ≡ false
    → All IsInk s
    → split_whitespace (s ++ (b' ' ∷ t)) ≡ s ∷ split_whitespace t
unfolding split_whitespace
split_whitespace-append s t ne h =
    words_from-ink [] s (b' ' ∷ t) h ∙ (unfold words_from is_whitespace in rw ne refl)

pub split_whitespace-word :
    (s : Text) → is_empty s ≡ false → All IsInk s → split_whitespace s ≡ s ∷ []
unfolding split_whitespace
split_whitespace-word s ne h =
    ap (words_from []) (sym (append-nil s))
    ∙ words_from-ink [] s [] h
    ∙ (unfold words_from in rw ne refl)

-- A line with its line break.
pub read_line-crlf :
    (line rest : List ℕ)
    → NoBreak line
    → read_line (line ++ (codes "\r\n" ++ rest)) ≡ (line ++ codes "\r\n", rest)
read_line-crlf line rest h =
    ap read_line (sym (append_assoc line (codes "\r") (b'\n' ∷ rest)))
    ∙ read_line-append (line ++ codes "\r") rest
        (All-append (Differs b'\n') line (codes "\r") (NoBreak-Differs line h) (refl, tt))
    ∙ ap (λ l. (l, rest)) (append_assoc line (codes "\r") (codes "\n"))

pub is_empty-append_some : (s : Text) (c : ℕ) (t : Text) → is_empty (s ++ (c ∷ t)) ≡ false
is_empty-append_some [] c t = refl
is_empty-append_some (d ∷ s) c t = refl
