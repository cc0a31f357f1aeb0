-- ===== src/Web/Trim.antt =====
-- `trimCache` of internal/web/web.go: the cache of what was restored for downloads.
pub mod Oldest
use crawlbox.Common.{
  ℕ, ◌+◌, ◌-◌, leb, ltb, Bool, true, false, not, Option, none, some, List, [], ◌∷◌, Map, Text,
  eq_text, length, select, any, if◌then◌else◌,
}
use crawlbox.Common.Sorting.{sort}

-- The directory of one revision: when it was modified, and its files by their paths in it.
pub record CacheDir : Type 0 where
  pub modified : ℕ
  pub files : Map Text

-- The directory "cache", by the identifiers of the revisions.
abbrev pub Downloads : Type 0
Downloads = Map CacheDir

abbrev pub files_size : Map Text → ℕ
files_size [] = 0
files_size ((p, b) ∷ files) = length b + files_size files

-- `item`, which stands for its directory.
abbrev pub Item : Type 0
Item = Text × CacheDir

abbrev pub size_of : Item → ℕ
size_of (id, d) = files_size d.files

unfoldable pub total_size : List Item → ℕ
total_size [] = 0
total_size (it ∷ items) = size_of it + total_size items

abbrev pub older : Item → Item → Bool
older (i, a) (j, b) = ltb a.modified b.modified

-- The answers of the system: whether the directory cannot be read, which entries have no
-- information, and which cannot be removed and stay as they are.
pub record Trimming : Type 0 where
  pub unlisted : Bool
  pub unknown : Text → Bool
  pub stuck : Text → Bool

abbrev pub remove_item : Item → List Item × List Item → List Item × List Item
remove_item it (removed, kept) = (it ∷ removed, kept)

abbrev pub keep_item : Item → List Item × List Item → List Item × List Item
keep_item it (removed, kept) = (removed, it ∷ kept)

module _ (bound : ℕ) (stuck : Text → Bool) (keep : Text) where
  -- The loop over the items, with what their sizes come to: those that are removed, and the rest.
  unfoldable pub trim_items : ℕ → List Item → List Item × List Item
  trim_items total [] = ([], [])
  trim_items total ((id, d) ∷ items) =
      let skipped = trim_items total items in
      let removed = trim_items (total - files_size d.files) items in
      if leb total bound
      then ([], (id, d) ∷ items)
      else if eq_text id keep
      then keep_item (id, d) skipped
      else if stuck id
      then keep_item (id, d) skipped
      else remove_item (id, d) removed

abbrev pub is_among : List Item → Item → Bool
is_among items (id, d) = any (λ (it : Item). eq_text it.0 id) items

unfoldable pub trim_cache : ℕ → Trimming → Text → Downloads → Downloads
unfolding trim_items total_size
trim_cache bound io keep cache =
    if io.unlisted
    then cache
    else (let items = sort older (select (λ (it : Item). not (io.unknown it.0)) cache) in
        let (removed, kept) = trim_items bound io.stuck keep (total_size items) items in
        select (λ it. not (is_among removed it)) cache)
