-- ===== src/App/Build/Listed.antt =====
-- Which files `build` lists, and the changes that its loop lists for them.
use mathlib.Core.List.{append-nil}
use crawlbox.Common.{
  select-append, ◌≡◌, refl, sym, ap, ap₂, subst, ◌∙◌, Bool, true, not, Option, none, some, List, [],
  ◌∷◌, ◌++◌, Map, Text, eq_text, eq_text_iff, lookup, has, codes, map, if◌then◌else◌, arith,
  Bool-cases, inl, inr,
}
use crawlbox.Common.Result.{Result, ok, err, >>=-eq-ok, passed_test, not_exist}
use crawlbox.Wire.{Entry}
use crawlbox.Model.{Change}
use crawlbox.Paths.{safe_path}
use crawlbox.App.Changes.{change_of}
use crawlbox.App.Changes.Exact.{
  changes_at, first_at, HasDistinctPaths, IsIndex, changes_at-change_of, changed_if,
}
use crawlbox.App.Build.{Steps, place, copy_file, entry_for, build_files}

-- The path of an entry under its key in an index.
pub IsIndex-path :
    (p : Text) (m : Map Entry) (e : Entry) → IsIndex m → lookup p m ≡ some e → e.path ≡ p
unfolding lookup
IsIndex-path p [] e i h = cc
IsIndex-path p ((k, f) ∷ m) e (at, once, i) h =
    ground (arith, eq_text_iff k p, IsIndex-path p m e i)

-- The paths of a list of entries.
abbrev pub paths_of : List Entry → List Text
paths_of es = map (λ e. e.path) es

-- The changes of a list of new entries.
abbrev pub changes_of : Map Entry → List Entry → List Change
changes_of old [] = []
changes_of old (f ∷ fs) = change_of (lookup f.path old) f ++ changes_of old fs

built-inj :
    {a b : List Entry} {c d : List Change} {t u : Map Text}
    → ◌≡◌ {A = Result (List Entry × List Change × Map Text)} (ok (a, c, t)) (ok (b, d, u))
    → (a ≡ b) × (c ≡ d) × (t ≡ u)
built-inj h = (cc, cc, cc)

module _ (sha256 : Text → Text) (disk : Text → Option Text) where
  entry_for-path :
      (io : Steps) (tree : Map Text) (replaced : Bool) (dst p : Text) (o : Option Entry) (e : Entry)
      → ((b : Entry) → o ≡ some b → b.path ≡ p)
      → entry_for sha256 disk io tree replaced dst p o ≡ ok e
      → e.path ≡ p
  entry_for-path io tree replaced dst p o e named h = ground (arith, named e)

  -- One turn of the loop.
  record Turn (io : Steps) (root : Text) (old : Map Entry) (published paths : Map Text) (p : Text)
      (ps : List Text) (tree : Map Text) (fs : List Entry) (cs : List Change) : Type 0 where
    safe : safe_path p ≡ true
    copied : Map Text
    entry : Entry
    made :
        entry_for sha256 disk io copied
          (has p published)
          (place root (codes "files") p)
          p
          (lookup p old)
        ≡ ok entry
    fs' : List Entry
    cs' : List Change
    last : Map Text
    rest : build_files sha256 disk io root old published paths ps copied ≡ ok (fs', cs', last)
    files : fs ≡ entry ∷ fs'
    changes : cs ≡ change_of (lookup p old) entry ++ cs'

  build_files-Turn :
      (io : Steps) (root : Text) (old : Map Entry) (published paths : Map Text) (p : Text)
      (ps : List Text) (tree : Map Text) (fs : List Entry) (cs : List Change) (last : Map Text)
      → build_files sha256 disk io root old published paths (p ∷ ps) tree ≡ ok (fs, cs, last)
      → Turn io root old published paths p ps tree fs cs
  unfolding build_files
  build_files-Turn io root old published paths p ps tree fs cs last h =
      let dst = place root (codes "files") p in
      let (e1, h1) = passed_test (not (safe_path p)) _ _ h in
      let (copied, e2, h2) =
        >>=-eq-ok
          (elim (lookup p paths) [
            | none ↦ err not_exist
            | some src ↦ copy_file disk io src dst tree
          ])
          _ h1 in
      let (entry, e3, h3) =
        >>=-eq-ok (entry_for sha256 disk io copied (has p published) dst p (lookup p old)) _ h2 in
      let ((fs', cs', last'), e4, h4) =
        >>=-eq-ok (build_files sha256 disk io root old published paths ps copied) _ h3 in
      record {
        safe = ground arith;
        copied = copied;
        entry = entry;
        made = e3;
        fs' = fs';
        cs' = cs';
        last = last';
        rest = e4;
        files = sym (built-inj h4).0;
        changes = sym (built-inj h4).1;
      }

  -- The loop lists the paths that it is given, in order, and the changes of what it lists.
  pub build_files-listed :
      (io : Steps) (root : Text) (old : Map Entry) (published paths : Map Text) (ps : List Text)
      (tree : Map Text) (fs : List Entry) (cs : List Change) (last : Map Text)
      → IsIndex old
      → build_files sha256 disk io root old published paths ps tree ≡ ok (fs, cs, last)
      → (paths_of fs ≡ ps) × (cs ≡ changes_of old fs)
  unfolding build_files
  build_files-listed io root old published paths [] tree fs cs last i h =
      let (files, changes, _) = built-inj h in rw (sym files, sym changes) (refl, refl)
  build_files-listed io root old published paths (p ∷ ps) tree fs cs last i h =
      let t = build_files-Turn io root old published paths p ps tree fs cs last h in
      let (names, changed) =
        build_files-listed io root old published paths ps t.copied t.fs' t.cs' t.last i t.rest in
      let at =
        entry_for-path io t.copied (has p published) (place root (codes "files") p) p (lookup p old)
          t.entry (λ b e. IsIndex-path p old b i e) t.made in
      (
        rw t.files (ap₂ ◌∷◌ at names),
        rw (t.files, t.changes, changed)
            (ap (λ q. change_of (lookup q old) t.entry ++ changes_of old t.fs') (sym at)),
      )

  here :
      (p : Text) (a b : Option Entry) (f : Entry) (fs : List Entry)
      → first_at f.path fs ≡ none
      → (f.path ≡ p → a ≡ b)
      → (if eq_text f.path p then change_of a f else []) ++ changed_if b (first_at p fs)
        ≡ changed_if b (first_at p (f ∷ fs))
  here p a b f fs once same = elim (Bool-cases (eq_text f.path p)) [
    | inl e ↦
        let at = (eq_text_iff f.path p).0 e in
        let none_there : first_at p fs ≡ none = subst (λ q. first_at q fs ≡ none) at once in
        rw (e, none_there, same at, append-nil)
    | inr e ↦ rw e
  ]

  pub changes_at-changes_of :
      (p : Text) (old : Map Entry) (fs : List Entry)
      → HasDistinctPaths fs
      → changes_at p (changes_of old fs) ≡ changed_if (lookup p old) (first_at p fs)
  unfolding change_of
  changes_at-changes_of p old [] d = refl
  changes_at-changes_of p old (f ∷ fs) (once, d) =
      select-append (λ c. eq_text c.path p) (change_of (lookup f.path old) f) (changes_of old fs)
      ∙ ap₂ ◌++◌ (changes_at-change_of p (lookup f.path old) f) (changes_at-changes_of p old fs d)
      ∙ here p (lookup f.path old) (lookup p old) f fs once (λ e. ap (λ q. lookup q old) e)
