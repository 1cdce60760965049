-- ===== src/Listing/Client/Tests.antt =====
-- A client that lists a small bucket by groups, one item at a time.
use ferro_s.Base.{
  List, [], ◌∷◌, none, some, true, false, codes, text_eq, text_lt, starts_with, find, rfind, ◌<◌,
  length, ◌≡◌, refl, arith,
}
use ferro_s.State.{AppState, map_get}
use ferro_s.Listing.Tree.{dir, through_link}
use ferro_s.Listing.Walk.{strip_path, common_prefix, mem_text, after_start}
use ferro_s.Listing.Page.{ListObjectsParams, ListEnv, list_query}
use ferro_s.Listing.Reference.{
  search_through_link, reference_keys, reference_items, past, once, shown, shown_as,
  reference_blocks, insert_block,
}
use ferro_s.Listing.Truncation.{contents_of, prefixes_of}
use ferro_s.Listing.Tests.{entries, entries-ListableEntries}
use ferro_s.Listing.Order.Items.{Item}
use ferro_s.Listing.Client.{follow}
use ferro_s.Listing.Client.Complete.{items_of, follow-reference_items}
use ferro_s.State.{with_defaults, build_state, build_storage_map, map_insert}
use ferro_s.FilePath.{FilePath, prefix_search_root}
use ferro_s.Objects.MemCache.{MemCache, mem_cache}

abbrev env : ListEnv
env = record { now = 0; rfc3339 = λ t. []; request_id = []; tree = dir true entries; joined = true }

abbrev params : ListObjectsParams
params = record {
  prefix = none;
  delimiter = some (codes "/");
  marker = none;
  max_keys = some 1;
  list_type = some 2;
  continuation_token = none;
}

abbrev storage : FilePath
storage = codes "data" ∷ []

abbrev state : AppState MemCache
unfolding build_state build_storage_map map_insert with_defaults
state = build_state mem_cache (
    with_defaults (record {
      endpoint = codes "0.0.0.0";
      port = 9000;
      verbose = false;
      cache_size = none;
      stat_cache_ttl_secs = none;
      fsync = none;
      request_timeout_secs = none;
      prune_empty_dirs = none;
      auth = none;
      buckets = record { name = codes "photos"; storage = storage } ∷ [];
    }))

known : map_get state.storage_map (codes "photos") ≡ some storage
unfolding state build_state build_storage_map map_insert with_defaults map_get text_eq
known = refl

no_link : search_through_link [] storage (dir true entries) ≡ false
unfolding search_through_link prefix_search_root rfind strip_path through_link text_eq
no_link = refl

abbrev all_items : List Item
all_items =
    items_of env 20 state (codes "photos") {storage = storage} entries known refl refl
      entries-ListableEntries (omega arith) params

two_items : length all_items < 3
unfolding list_query reference_items past once shown shown_as reference_keys reference_blocks
    insert_block starts_with text_lt common_prefix find mem_text after_start
two_items = omega arith

follow-reference_items_example :
    follow env 20 state (codes "photos") 3 params
    ≡ some (contents_of all_items, prefixes_of all_items)
follow-reference_items_example =
    follow-reference_items env 20 state (codes "photos") entries known refl refl
      entries-ListableEntries (omega arith) 3 params no_link (λ h. refl) (omega arith) (omega arith)
      two_items
