-- ===== src/Kopia.antt =====
-- The client of Kopia (internal/kopia/kopia.go): what it makes of the answers of the command, and
-- its cache of snapshots. The command and the decoder of its output are given, as their results.
pub mod Known
mod Tests
use crawlbox.Common.{
  ℕ, Bool, true, false, not, ◌||◌, Option, none, some, List, [], ◌∷◌, ◌++◌, Map, Text, eq_text,
  lookup, insert, codes, if◌then◌else◌,
}
use crawlbox.Common.Splitting.{strip_prefix}
use crawlbox.Common.Result.{Error, Result, ok, err, new, ◌>>=◌, ◌>>◌, fail_if}
use crawlbox.App.Recovery.{Snapshot, is_complete}

abbrev pub kept_tag : Option Text → Text → Map Text → Map Text
kept_tag none v rest = rest
kept_tag (some k) v rest = (k, v) ∷ rest

-- The loop of `normalize`: the tags whose names start with "tag:", without that.
unfoldable pub normalize_tags : Map Text → Map Text
unfolding strip_prefix
normalize_tags [] = []
normalize_tags ((k, v) ∷ tags) = kept_tag (strip_prefix (codes "tag:") k) v (normalize_tags tags)

abbrev pub normalize : Snapshot → Snapshot
normalize s = record s { tags = normalize_tags s.tags }

-- `CLI.cache`
abbrev pub Cache : Type 0
Cache = Map Snapshot

abbrev pub accept : Snapshot → Cache → Result Snapshot × Cache
accept s cache =
    if not (is_complete s)
    then (err (new "snapshot is not complete and pinned"), cache)
    else (ok s, insert s.id s cache)

-- `Create`, from the snapshot that the command's output decodes to.
unfoldable pub create : Result Snapshot → Cache → Result Snapshot × Cache
unfolding is_complete normalize_tags
create (err e) cache = (err e, cache)
create (ok s) cache = accept (normalize s) cache

abbrev pub normalize_all : List Snapshot → List Snapshot
normalize_all [] = []
normalize_all (s ∷ ss) = normalize s ∷ normalize_all ss

unfoldable pub remember : List Snapshot → Cache → Cache
remember [] cache = cache
remember (s ∷ ss) cache = remember ss (insert s.id s cache)

-- `List`, from the snapshots that the command's output decodes to.
unfoldable pub list : Result (List Snapshot) → Cache → Result (List Snapshot) × Cache
unfolding remember normalize_tags
list (err e) cache = (err e, cache)
list (ok ss) cache = (ok (normalize_all ss), remember (normalize_all ss) cache)

-- The object of a snapshot, or a file in it.
abbrev pub reference : Snapshot → Text → Text
reference s relative =
    if eq_text relative [] then s.root_object else s.root_object ++ b'/' ∷ relative

abbrev pub complete_one : Option Snapshot → Text → Result Text
complete_one none relative = err (new "complete snapshot not found")
complete_one (some s) relative =
    if not (is_complete s)
    then err (new "complete snapshot not found")
    else ok (reference s relative)

abbrev pub after_list : Result (List Snapshot) × Cache → Text → Text → Result Text × Cache
after_list (err e, cache) id relative = (err e, cache)
after_list (ok ss, cache) id relative = (complete_one (lookup id cache) relative, cache)

abbrev pub with_known :
    Option Snapshot → Result (List Snapshot) → Text → Text → Cache → Result Text × Cache
with_known (some s) listed id relative cache = (complete_one (some s) relative, cache)
with_known none listed id relative cache = after_list (list listed cache) id relative

-- `Restore` up to the command: the reference that it is given. `listed` is what a list would give.
unfoldable pub restore : Result (List Snapshot) → Text → Text → Cache → Result Text × Cache
unfolding is_complete list
restore listed id relative cache = with_known (lookup id cache) listed id relative cache
