-- ===== src/App/Cache.antt =====
-- `current`, `installCurrent`, `lockCurrent` and `replaceCurrent` of internal/app/app.go: the cache
-- that holds, for each source, the tree of one revision. `current` is
-- `filepath.Join(DataDir, "current")`; progress messages are left to the caller.
pub mod Outcomes
use crawlbox.Common.{
  Bool, true, false, Option, none, some, List, [], Map, Text, eq_text, lookup, insert, erase,
  if◌then◌else◌,
}
use crawlbox.Common.Result.{Error, Result, ok, err}
use crawlbox.Model.{Revision}
use crawlbox.Paths.{path_join}
use crawlbox.Host.State.{Node}
use crawlbox.App.Confirm.{verify}

-- A tree in the cache: what its `revision.json` decodes to, if it can be read, and its files, by
-- the paths that they had under `root`, from where the tree was renamed.
pub record Installed : Type 0 where
  pub index : Option Revision
  pub root : Text
  pub tree : Text → Option Node

abbrev pub Cache : Type 0
Cache = Map Installed

-- The errors of the steps of `replaceCurrent`; `remains` is what a failed removal leaves.
pub record Replacing : Type 0 where
  pub removing : Option Error
  pub remains : Option Installed
  pub parent_dir : Option Error
  pub renaming : Option Error

abbrev pub put : Text → Option Installed → Cache → Cache
put source none cache = erase source cache
put source (some i) cache = insert source i cache

-- An early return with an error and the cache as it then is.
abbrev pub unless_error {ℓ} :
    {A : Type ℓ} → Option Error → Cache → Result A × Cache → Result A × Cache
unless_error none cache next = next
unless_error (some e) cache next = (err e, cache)

unfoldable pub replace_current : Replacing → Text → Installed → Cache → Result (Unit {0}) × Cache
replace_current io source i cache = unless_error io.removing (put source io.remains cache) (
    unless_error io.parent_dir (erase source cache)
      (unless_error io.renaming (erase source cache) (ok tt, insert source i cache)))

-- `installCurrent`, with the error of `lockCurrent`.
unfoldable pub install_current :
    Option Error → Replacing → Text → Installed → Cache → Result (Unit {0}) × Cache
unfolding replace_current
install_current lock io source i cache = unless_error lock cache (replace_current io source i cache)

-- What the system and the backend answer to `current`: the error of the lock, that of the context
-- when it is read, the directory for the restored tree, the error of restoring it, what is
-- restored, and the order in which `verify` visits the two directories.
pub record Preparing : Type 0 where
  pub lock : Option Error
  pub ended : Option Error
  pub temp_dir : Result Text
  pub restore : Option Error
  pub restored : Text → Installed
  pub files_first : Bool
  pub replacing : Replacing

-- Whether the cached tree is of the revision.
abbrev pub is_cached : Revision → Option Installed → Bool
is_cached r none = false
is_cached r (some i) = elim i.index [ none ↦ false | some x ↦ eq_text x.id r.id ]

-- `return dst, ctx.Err()`
abbrev pub unless_ended : Option Error → Text → Result Text
unless_ended none dst = ok dst
unless_ended (some e) dst = err e

abbrev pub done_at : Text → Result (Unit {0}) × Cache → Result Text × Cache
done_at dst (ok done, cache) = (ok dst, cache)
done_at dst (err e, cache) = (err e, cache)

-- `os.MkdirTemp`
abbrev pub with_dir : Result Text → Cache → (Text → Result Text × Cache) → Result Text × Cache
with_dir (ok tmp) cache next = next tmp
with_dir (err e) cache next = (err e, cache)

-- What follows a check that passed.
abbrev pub after_check : Result (Unit {0}) → Cache → Result Text × Cache → Result Text × Cache
after_check (ok passed) cache next = next
after_check (err e) cache next = (err e, cache)

module _ (sha256 : Text → Text) (current_dir : Text) where
  -- The tree that was restored, if it is what the revision says.
  unfoldable pub install_restored : Preparing → Revision → Cache → Installed → Result Text × Cache
  install_restored io r cache i =
      after_check (verify sha256 io.files_first i.tree i.root r) cache
        (done_at (path_join current_dir r.source) (replace_current io.replacing r.source i cache))

  unfoldable pub restore_tree : Preparing → Revision → Cache → Result Text × Cache
  unfolding install_restored
  restore_tree io r cache = unless_error io.ended cache (
      with_dir io.temp_dir cache
        λ tmp. unless_error io.restore cache (install_restored io r cache (io.restored tmp)))

  unfoldable pub current : Preparing → Revision → Cache → Result Text × Cache
  unfolding restore_tree
  current io r cache = unless_error io.lock cache (
      if is_cached r (lookup r.source cache)
      then (unless_ended io.ended (path_join current_dir r.source), cache)
      else restore_tree io r cache)
