-- ===== src/App/Changes.antt =====
-- `diff` of internal/app/app.go: the changes between two lists of entries.
pub mod Exact
use crawlbox.Common.{
  ℕ, Bool, true, false, Option, none, some, List, [], ◌∷◌, ◌++◌, Map, Text, eq_text, lt_text,
  lookup, erase, map, if◌then◌else◌,
}
use crawlbox.Common.Sorting.{sort}
use crawlbox.Wire.{Entry}
use crawlbox.Model.{Change, added, modified, deleted}
use crawlbox.Host.State.{index_entries}

abbrev pub added_at : Entry → Change
added_at f = record { path = f.path; kind = added; before = []; after = f.sha256 }

abbrev pub modified_at : Entry → Entry → Change
modified_at b f = record { path = f.path; kind = modified; before = b.sha256; after = f.sha256 }

abbrev pub deleted_at : Entry → Change
deleted_at b = record { path = b.path; kind = deleted; before = b.sha256; after = [] }

-- The change of one new entry, by the old entry of its path.
unfoldable pub change_of : Option Entry → Entry → List Change
change_of none f = added_at f ∷ []
change_of (some b) f = if eq_text b.sha256 f.sha256 then [] else modified_at b f ∷ []

-- The loop over the new entries, with the old entries that are left.
unfoldable pub diff_new : List Entry → Map Entry → List Change × Map Entry
unfolding change_of
diff_new [] before = ([], before)
diff_new (f ∷ fs) before =
    let (out, left) = diff_new fs (erase f.path before) in
    (change_of (lookup f.path before) f ++ out, left)

abbrev pub deletion : Text × Entry → Change
deletion (k, f) = deleted_at f

abbrev pub by_path : Change → Change → Bool
by_path a b = lt_text a.path b.path

unfoldable pub diff : List Entry → List Entry → List Change
unfolding diff_new index_entries
diff old fresh =
    let (out, left) = diff_new fresh (index_entries old []) in
    sort by_path (out ++ map deletion left)
