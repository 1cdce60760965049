-- ===== src/Objects/MemCache.antt =====
-- A cache in memory that meets `CacheLaws`, for the tests: it never evicts.
use ferro_s.Base.{
  List, [], ◌∷◌, Option, none, some, Text, ◌≡◌, ◌≢◌, refl, text_eq, text_eq_sound, text_eq_refl,
  false, Bool-cases, inl, inr, if◌then◌else◌, arith,
}
use ferro_s.State.{CachedStat, CacheOps, CacheLaws}

abbrev pub MemCache : Type 0
MemCache = List (Text × CachedStat)

abbrev cached : MemCache → Text → Option CachedStat
cached [] k = none
cached ((j, v) ∷ c) k = if text_eq j k then some v else cached c k

abbrev without : MemCache → Text → MemCache
without [] k = []
without ((j, v) ∷ c) k = let rest = without c k in if text_eq j k then rest else (j, v) ∷ rest

abbrev pub mem_cache : CacheOps MemCache
mem_cache = record { new = λ n. []; get = cached; insert = λ c k v. (k, v) ∷ c; remove = without }

text_eq-ne : (k j : Text) → k ≢ j → text_eq k j ≡ false
text_eq-ne k j ne = elim (Bool-cases (text_eq k j)) [
  | inl e ↦ absurd (ne (text_eq_sound k j e))
  | inr e ↦ e
]

cached-without_self : (c : MemCache) (k : Text) → cached (without c k) k ≡ none
cached-without_self [] k = refl
cached-without_self ((j, v) ∷ c) k = elim (Bool-cases (text_eq j k)) [
  | inl y ↦ rw y (cached-without_self c k)
  | inr n ↦ rw (n, n) (cached-without_self c k)
]

cached-without_ne : (c : MemCache) (k l : Text) → k ≢ l → cached (without c k) l ≡ cached c l
cached-without_ne [] k l ne = refl
cached-without_ne ((j, v) ∷ c) k l ne = elim (Bool-cases (text_eq j k)) [
  | inl y ↦
      let e : text_eq j l ≡ false = rw (text_eq_sound j k y) (text_eq-ne k l ne) in
      rw (y, e) (cached-without_ne c k l ne)
  | inr n ↦ rw (n, cached-without_ne c k l ne) refl
]

pub mem_cache-CacheLaws : CacheLaws mem_cache
mem_cache-CacheLaws = record {
  get-new = λ n k. refl;
  get-insert_self =
      λ c k v {u} h. let e : some v ≡ some u = rw (text_eq_refl k) at h in ground (arith, e);
  get-insert_ne = λ c k j v ne h. rw (text_eq-ne k j ne) at h;
  get-remove_self = cached-without_self;
  get-remove_ne = λ c k j ne. cached-without_ne c k j ne;
}
