-- ===== src/Listing/Refinement/Parts.antt =====
-- The parts of a key between its slashes are names, so a prefix with another part matches no key.
use ferro_s.Base.{
  ◌≡◌, refl, sym, ap, ◌∙◌, List, [], ◌∷◌, ◌++◌, Option, true, false, Text, codes, starts_with,
  starts_with_sound, All, All-append, split, Bool-cases, inl, inr, append_assoc,
}
use mathlib.Core.Path.{subst}
use ferro_s.Base.Strings.Laws.{split-none, split-append}
use ferro_s.FilePath.Names.{IsName}
use ferro_s.Metadata.{Metadata}
use ferro_s.Listing.Tree.{Node, file, dir, Entries, nil, entry, child_key}
use ferro_s.Listing.Reference.{KeyFile, reference_keys, reference_blocks}
use ferro_s.Listing.Refinement.Keys.{BlocksAll, concat-All, insert_block-All}
use ferro_s.Listing.Refinement.Names.{HasNoSlash}
use ferro_s.Listing.Refinement.Filter.{IsListable, ListableEntries, matching}
use ferro_s.Listing.Refinement.Descend.{matching-none}
use ferro_s.Listing.Refinement.Root.{in_dirs}

abbrev pub IsKey : KeyFile → Type 0
IsKey f = All IsName (split b'/' f.0)

pub split-in_dirs :
    (names : List Text) (rest : Text)
    → All HasNoSlash names
    → split b'/' (in_dirs names rest) ≡ names ++ split b'/' rest
split-in_dirs [] rest h = refl
split-in_dirs (a ∷ names) rest (p, h) =
    split-append b'/' a (in_dirs names rest) p ∙ ap (λ ts. a ∷ ts) (split-in_dirs names rest h)

pub names_no_slash : (names : List Text) → All IsName names → All HasNoSlash names
names_no_slash [] h = tt
names_no_slash (a ∷ names) (p, h) = (p.no_slash, names_no_slash names h)

pub in_dirs-append :
    (names : List Text) (s t : Text) → in_dirs names s ++ t ≡ in_dirs names (s ++ t)
in_dirs-append [] s t = refl
in_dirs-append (a ∷ names) s t =
    append_assoc a (b'/' ∷ in_dirs names s) t ∙ ap (λ u. a ++ (b'/' ∷ u)) (in_dirs-append names s t)

pub in_dirs-snoc :
    (names : List Text) (a : Text) → in_dirs (names ++ (a ∷ [])) [] ≡ in_dirs names (a ++ codes "/")
in_dirs-snoc [] a = refl
in_dirs-snoc (b ∷ names) a = ap (λ u. b ++ (b'/' ∷ u)) (in_dirs-snoc names a)

pub file_IsKey :
    (names : List Text) (name : Text) (m : Option Metadata)
    → All IsName names
    → IsName name
    → IsKey (in_dirs names [] ++ name, m)
file_IsKey names name m h p =
    rw
      (
        in_dirs-append names [] name,
        split-in_dirs names name (names_no_slash names h),
        split-none b'/' name p.no_slash,
      )
      (All-append IsName names (name ∷ []) h (p, tt))

mutual
  unfolding reference_keys reference_blocks

  node_keys :
      (names : List Text) (name : Text) (n : Node) (d : Text)
      → d ≡ in_dirs names []
      → All IsName names
      → IsName name
      → IsListable n
      → All IsKey (reference_keys (child_key d name n) n)
  node_keys names name (file m t) d e h p ok = rw e (file_IsKey names name m h p, tt)
  node_keys names name (dir false es) d e h p ok = tt
  node_keys names name (dir true es) d e h p ok =
      concat-All IsKey (reference_blocks (d ++ (name ++ codes "/")) es) (
        entries_keys (names ++ (name ∷ [])) es (d ++ (name ++ codes "/"))
          (ap (λ s. s ++ (name ++ codes "/")) e
            ∙ in_dirs-append names [] (name ++ codes "/")
            ∙ sym (in_dirs-snoc names name))
          (All-append IsName names (name ∷ []) h (p, tt)) ok.1)

  entries_keys :
      (names : List Text) (es : Entries) (d : Text)
      → d ≡ in_dirs names []
      → All IsName names
      → ListableEntries es
      → BlocksAll IsKey (reference_blocks d es)
  entries_keys names nil d e h ok = tt
  entries_keys names (entry name n es) d e h (p, fresh, ok, oks) =
      insert_block-All IsKey (child_key d name n) (reference_keys (child_key d name n) n)
        (reference_blocks d es) (node_keys names name n d e h p ok)
        (entries_keys names es d e h oks)

-- The parts of every key below a directory are names.
pub reference_keys-IsKey :
    (names : List Text) (es : Entries) (d : Text)
    → d ≡ in_dirs names []
    → All IsName names
    → ListableEntries es
    → All IsKey (reference_keys d (dir true es))
unfolding reference_keys
reference_keys-IsKey names es d e h ok =
    concat-All IsKey (reference_blocks d es) (entries_keys names es d e h ok)

-- A key that begins with some parts has names for parts.
parts-IsName :
    (parts : List Text) (k rest x : Text)
    → All HasNoSlash parts
    → k ≡ in_dirs parts rest ++ x
    → All IsName (split b'/' k)
    → All IsName parts
parts-IsName [] k rest x h e n = tt
parts-IsName (a ∷ parts) k rest x (p, h) e n =
    let same : split b'/' k ≡ a ∷ split b'/' (in_dirs parts rest ++ x) =
      ap (split b'/') (e ∙ append_assoc a (b'/' ∷ in_dirs parts rest) x)
      ∙ split-append b'/' a (in_dirs parts rest ++ x) p in
    let both : All IsName (a ∷ split b'/' (in_dirs parts rest ++ x)) =
      subst (λ (ts : List Text). All IsName ts) same n in
    (both.0, parts-IsName parts (in_dirs parts rest ++ x) rest x h refl both.1)

none_under :
    (parts : List Text) (rest : Text) (files : List KeyFile)
    → All HasNoSlash parts
    → ¬ All IsName parts
    → All IsKey files
    → All (λ (f : KeyFile). starts_with f.0 (in_dirs parts rest) ≡ false) files
none_under parts rest [] h bad keys = tt
none_under parts rest ((key, m) ∷ files) h bad (k, keys) = (
  elim (Bool-cases (starts_with key (in_dirs parts rest))) [
    | inr n ↦ n
    | inl y ↦
        let (x, e) = starts_with_sound key (in_dirs parts rest) y in
        absurd (bad (parts-IsName parts key rest x h e k))
  ],
  none_under parts rest files h bad keys,
)

-- No key begins with parts that are not all names.
pub matching-parts :
    (parts : List Text) (rest : Text) (files : List KeyFile)
    → All HasNoSlash parts
    → ¬ All IsName parts
    → All IsKey files
    → matching (in_dirs parts rest) files ≡ []
matching-parts parts rest files h bad keys =
    matching-none (in_dirs parts rest) files (none_under parts rest files h bad keys)
