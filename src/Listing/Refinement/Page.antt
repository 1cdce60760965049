-- ===== src/Listing/Refinement/Page.antt =====
-- The page that `collect_entries` of src/handlers/list.rs answers, against the listing that S3
-- defines.
use ferro_s.Base.{ℕ, suc, ◌<◌, ◌≡◌, refl, ◌∙◌, ap, some, true, false, []}
use ferro_s.FilePath.{FilePath}
use ferro_s.Listing.Tree.{Entries, dir}
use ferro_s.Listing.Walk.{Query, collect_entries}
use ferro_s.Listing.Reference.{reference_keys, reference_page, search_through_link}
use ferro_s.Listing.Ends.{node_weight, collect_entries_ends}
use ferro_s.Listing.Refinement.Search.{collected}
use ferro_s.Listing.Refinement.Filter.{ListableEntries}
use ferro_s.Listing.Refinement.Roots.{IsListable-NamesOk}
use ferro_s.Listing.Refinement.Whole.{page_of-search_files}

-- Where every directory can be read and each name in it is a file name that stands there once, and
-- with a fuel past the size of the tree, the walk over one page ends with the page that S3
-- defines: every key of the bucket in order, those that start with the prefix kept, those that
-- share a common prefix shown as one, those up to the start key dropped, and the rest cut to the
-- limit. The condition on links: the directory that the prefix names, at which the walk starts, is
-- not reached through a symbolic link. Then the directories that the walk prunes, and the root it
-- starts at, change nothing.
pub collect_entries-reference_page :
    (q : Query) (fuel : ℕ) (storage : FilePath) (es : Entries)
    → ListableEntries es
    → search_through_link q.prefix storage (dir true es) ≡ false
    → suc (node_weight (dir true es)) < fuel
    → collect_entries q fuel storage (dir true es)
      ≡ some (reference_page q (reference_keys [] (dir true es)))
collect_entries-reference_page q fuel storage es ok direct enough =
    let (items, e) = collect_entries_ends q fuel storage (dir true es) enough in
    e
    ∙ ap some (
        collected q fuel storage (dir true es) (IsListable-NamesOk (dir true es) (refl, ok)) e
        ∙ page_of-search_files q storage es ok direct)
