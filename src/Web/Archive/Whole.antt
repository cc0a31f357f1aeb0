-- ===== src/Web/Archive/Whole.antt =====
-- A whole archive has what the revision records.
use crawlbox.Common.{
  ℕ, ◌≡◌, refl, ap, sym, subst, ◌∙◌, ◌⊎◌, inl, inr, Bool, true, false, not, Option, none, some,
  List, [], ◌∷◌, ◌++◌, Text, lookup, codes, length, if◌then◌else◌,
}
use crawlbox.Common.Result.{Error, Result, ok, err, new, >>=-eq-ok, passed_test, ok-inj}
use crawlbox.Wire.{Entry, eq_entry}
use crawlbox.Model.{Revision}
use crawlbox.Paths.{safe_path}
use crawlbox.Host.State.{Node, regular, irregular}
use crawlbox.App.Confirm.{check}
use crawlbox.App.Confirm.Entries.{eq_entry-eq}
use crawlbox.Web.{Response, answered}
use crawlbox.Web.Trim.{Downloads, trim_cache}
use crawlbox.Web.Serving.{files_of, served_path}
use crawlbox.Web.Archive.{
  Archiving, Sent, whole, archive_name, Member, checked_bytes, archive_entries, archive_members,
  send_archive, failing, from_cache, trimmed_after, archive,
}

-- One member for each entry, in their order, with the size and the digest that it records.
abbrev pub AreMembers : (Text → Text) → Text → List Entry → List Member → Type 0
AreMembers sha256 kind [] [] = Unit
AreMembers sha256 kind [] (m ∷ ms) = ⊥
AreMembers sha256 kind (e ∷ es) [] = ⊥
AreMembers sha256 kind (e ∷ es) ((p, b) ∷ ms) =
    ((p ≡ served_path kind e.path) × (sha256 b ≡ e.sha256) × (length b ≡ e.size))
    × AreMembers sha256 kind es ms

whole-inj : (a b : Text) → answered (whole a) ≡ answered (whole b) → a ≡ b
whole-inj a b h = cc

module _ (sha256 : Text → Text) (io : Archiving) where
  bytes-recorded :
      (n : Option Node) (e : Entry) (b : Text)
      → checked_bytes sha256 io n e ≡ ok b
      → (sha256 b ≡ e.sha256) × (length b ≡ e.size)
  bytes-recorded none e b h = cc
  bytes-recorded (some irregular) e b h = cc
  bytes-recorded (some (regular x)) e b h =
      by_test (eq_entry (record { path = e.path; size = length x; sha256 = sha256 x }) e) refl h
    where
      by_test :
          (t : Bool)
          → eq_entry (record { path = e.path; size = length x; sha256 = sha256 x }) e ≡ t
          → (if t then ok x else err (new "entry mismatch")) ≡ ok b
          → (sha256 b ≡ e.sha256) × (length b ≡ e.size)
      by_test true k l =
          let same =
            eq_entry-eq (record { path = e.path; size = length x; sha256 = sha256 x }) e k in
          subst (λ y. (sha256 y ≡ e.sha256) × (length y ≡ e.size)) (ok-inj l)
            (ap (λ (z : Entry). z.sha256) same, ap (λ (z : Entry). z.size) same)
      by_test false k l = cc

  entries-AreMembers :
      (kind : Text) (es : List Entry) (ms : List Member)
      → archive_entries sha256 io kind es ≡ ok ms
      → AreMembers sha256 kind es ms
  unfolding archive_entries
  entries-AreMembers kind [] ms h = subst (AreMembers sha256 kind []) (ok-inj h) tt
  entries-AreMembers kind (e ∷ es) ms h =
      let p = served_path kind e.path in
      let (_, h1) = passed_test (io.ended p) _ _ h in
      let (_, h2) = passed_test (not (safe_path e.path)) _ _ h1 in
      let (_, _, h3) = >>=-eq-ok (check (io.hashing p)) _ h2 in
      let (b, found, h4) = >>=-eq-ok (checked_bytes sha256 io (io.tree p) e) _ h3 in
      let (_, _, h5) = >>=-eq-ok (check (io.writing p)) _ h4 in
      let (rest, others, h6) = >>=-eq-ok (archive_entries sha256 io kind es) _ h5 in
      let (digest, size) = bytes-recorded (io.tree p) e b found in
      subst (AreMembers sha256 kind (e ∷ es)) (ok-inj h6)
        ((refl, digest, size), entries-AreMembers kind es rest others)

  -- The members of a revision, whichever kind comes first.
  abbrev AreAll : Bool → Revision → List Member → Type 0
  AreAll files_first v ms =
      (files : List Member) × (artifacts : List Member) × (ms
        ≡ (if files_first then files ++ artifacts else artifacts ++ files))
      × AreMembers sha256 (codes "files") v.files files
      × AreMembers sha256 (codes "artifacts") v.artifacts artifacts

  ordered :
      (b : Bool) (v : Revision) (first second : List Member)
      → AreMembers sha256
          (if b then codes "files" else codes "artifacts")
          (if b then v.files else v.artifacts)
          first
      → AreMembers sha256
          (if b then codes "artifacts" else codes "files")
          (if b then v.artifacts else v.files)
          second
      → AreAll b v (first ++ second)
  ordered true v first second f a = (first, second, refl, f, a)
  ordered false v first second a f = (second, first, refl, f, a)

  members-AreAll :
      (v : Revision) (ms : List Member)
      → archive_members sha256 io v ≡ ok ms
      → AreAll io.files_first v ms
  unfolding archive_members
  members-AreAll v ms h =
      let (first, f, h1) = >>=-eq-ok (archive_entries sha256 io _ _) _ h in
      let (second, a, h2) = >>=-eq-ok (archive_entries sha256 io _ _) _ h1 in
      let (_, _, h3) = >>=-eq-ok (check io.closing) _ h2 in
      subst (AreAll io.files_first v) (ok-inj h3) (
        ordered io.files_first v first second (entries-AreMembers _ _ first f)
          (entries-AreMembers _ _ second a))

  -- What a response of a whole archive has: what lay in the cache, or all members.
  abbrev IsWhole : (List Member → Text) → Revision → Option Text → Response Sent → Type 0
  IsWhole pack v cached r =
      (b : Text)
      → r ≡ answered (whole b)
      → (cached ≡ some b) ⊎ ((ms : List Member) × (b ≡ pack ms) × AreAll io.files_first v ms)

  sent-IsWhole :
      (pack : List Member → Text) (v : Revision) (cached : Option Text) (cache : Downloads)
      (r : Result (List Member))
      → archive_members sha256 io v ≡ r
      → IsWhole pack v cached (send_archive sha256 io pack r v.id cache).0
  sent-IsWhole pack v cached cache (err e) h b k = cc
  sent-IsWhole pack v cached cache (ok ms) h b k =
      inr (ms, sym (whole-inj (pack ms) b k), members-AreAll v ms h)

  failing-IsWhole :
      (pack : List Member → Text) (v : Revision) (cached : Option Text) (cache : Downloads)
      (o : Option Error) (x : Response Sent × Downloads)
      → IsWhole pack v cached x.0
      → IsWhole pack v cached (failing sha256 io o cache x).0
  failing-IsWhole pack v cached cache none x h b k = h b k
  failing-IsWhole pack v cached cache (some e) x h b k = cc

  cached-IsWhole :
      (pack : List Member → Text) (v : Revision) (cache : Downloads) (cached : Option Text)
      → IsWhole pack v cached (from_cache sha256 io cached pack v cache).0
  cached-IsWhole pack v cache (some c) b k = inl (ap some (whole-inj c b k))
  cached-IsWhole pack v cache none b k =
      failing-IsWhole pack v none cache io.temp_dir _
        (failing-IsWhole pack v none cache io.restore _ (
          failing-IsWhole pack v none cache io.create _
            (sent-IsWhole pack v none cache (archive_members sha256 io v) refl)))
        b k

  trimmed-answer :
      (bound : ℕ) (x : Response Sent × Downloads) → (trimmed_after sha256 io bound x).0 ≡ x.0
  trimmed-answer bound (answer, cache) = refl

  -- An archive that is answered whole was in the cache, or packs exactly one member for each file
  -- and each artifact of the revision, in the order in which it lists them, with the size and the
  -- digest that it records.
  pub archive-AreMembers :
      (bound : ℕ) (pack : List Member → Text) (v : Revision) (cache : Downloads) (b : Text)
      → (archive sha256 io bound pack v cache).0 ≡ answered (whole b)
      → (lookup archive_name (files_of (lookup v.id (trim_cache bound io.trimming [] cache)))
          ≡ some b)
        ⊎ ((ms : List Member) × (b ≡ pack ms)
            × ((files : List Member) × (artifacts : List Member) × (ms
                  ≡ (if io.files_first then files ++ artifacts else artifacts ++ files))
                × AreMembers sha256 (codes "files") v.files files
                × AreMembers sha256 (codes "artifacts") v.artifacts artifacts))
  unfolding archive
  archive-AreMembers bound pack v cache b h =
      let trimmed = trim_cache bound io.trimming [] cache in
      let cached = lookup archive_name (files_of (lookup v.id trimmed)) in
      failing-IsWhole pack v cached trimmed io.make_dir _ (cached-IsWhole pack v trimmed cached) b (
        sym (
          trimmed-answer bound
            (failing sha256 io io.make_dir trimmed (from_cache sha256 io cached pack v trimmed)))
        ∙ h)
