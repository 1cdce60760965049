-- ===== src/Headers.antt =====
-- Request and response headers as the handlers read them. `HeaderMap` is the crate http: a list of
-- fields with lower-case names, where a value is missing if `to_str` refuses it.
use ferro_s.Base.{
  List, [], ◌∷◌, Option, none, some, Bool, false, ◌||◌, Text, codes, text_eq, starts_with, split,
  if◌then◌else◌,
}

abbrev pub HeaderMap : Type 0
HeaderMap = List (Text × Option Text)

-- `headers.get(name).and_then(|h| h.to_str().ok())`: the first field of that name.
unfoldable pub header_text : HeaderMap → Text → Option Text
header_text [] name = none
header_text ((n, v) ∷ hs) name = if text_eq n name then v else header_text hs name

unfoldable pub any_acl : List Text → Bool
any_acl [] = false
any_acl (part ∷ parts) =
    text_eq part (codes "acl") || (starts_with part (codes "acl=") || any_acl parts)

-- `has_acl_query` of src/handlers/object.rs.
unfoldable pub has_acl_query : Option Text → Bool
has_acl_query none = false
has_acl_query (some query) = any_acl (split b'&' query)
