-- ===== src/Host/Conflicts.antt =====
-- The candidate of a run is consistent: its paths are safe, and none is both published and
-- deleted.
use crawlbox.Common.{
  ℕ, ◌≡◌, refl, Bool, true, false, Option, List, Map, Text, insert, has, lookup-insert, eq_text,
  eq_text_iff, arith, if◌then◌else◌,
}
use crawlbox.Paths.{safe_path}
use crawlbox.Wire.{Request, Descriptor}
use crawlbox.Host.State.{Candidate, Host, Io, Previous, Node, new_host}
use crawlbox.Host.Network.{Naming}
use crawlbox.Host.Candidate.{is_deleted}
use crawlbox.Host.Calls.{run}
use crawlbox.Host.Moves.{
  Move, told, left, made, wrote, downloaded, sealed, opened, published_file, published_artifact,
  deleted, Moves, here, next,
}
use crawlbox.Host.Steps.{run-Moves}

pub record IsConsistent (c : Candidate) : Type 0 where
  pub files_safe : (p : Text) → has p c.files ≡ true → safe_path p ≡ true
  pub artifacts_safe : (p : Text) → has p c.artifacts ≡ true → safe_path p ≡ true
  pub deletes_safe : (p : Text) → is_deleted p c.deletes ≡ true → safe_path p ≡ true
  pub disjoint : (p : Text) → has p c.files ≡ true → is_deleted p c.deletes ≡ false

has-insert_if {ℓ} :
    {V : Type ℓ} (p q : Text) (v : V) (m : Map V)
    → has q (insert p v m) ≡ (if eq_text p q then true else has q m)
unfolding has
has-insert_if p q v m = ground (arith, lookup-insert p q v m)

is_deleted-insert :
    (p q : Text) (m : Map Bool)
    → is_deleted q (insert p true m) ≡ (if eq_text p q then true else is_deleted q m)
unfolding is_deleted
is_deleted-insert p q m = ground (arith, lookup-insert p q true m)

add_file :
    (c : Candidate) (p v : Text)
    → safe_path p ≡ true
    → is_deleted p c.deletes ≡ false
    → IsConsistent c
    → IsConsistent (record c { files = insert p v c.files })
add_file c p v safe kept i = record {
  files_safe = λ q e. ground (arith, has-insert_if p q v c.files, eq_text_iff p q, i.files_safe q);
  artifacts_safe = i.artifacts_safe;
  deletes_safe = i.deletes_safe;
  disjoint = λ q e. ground (arith, has-insert_if p q v c.files, eq_text_iff p q, i.disjoint q);
}

add_artifact :
    (c : Candidate) (p v : Text)
    → safe_path p ≡ true
    → IsConsistent c
    → IsConsistent (record c { artifacts = insert p v c.artifacts })
add_artifact c p v safe i = record {
  files_safe = i.files_safe;
  artifacts_safe =
      λ q e. ground (arith, has-insert_if p q v c.artifacts, eq_text_iff p q, i.artifacts_safe q);
  deletes_safe = i.deletes_safe;
  disjoint = i.disjoint;
}

add_deletion :
    (c : Candidate) (p : Text)
    → safe_path p ≡ true
    → has p c.files ≡ false
    → IsConsistent c
    → IsConsistent (record c { deletes = insert p true c.deletes })
add_deletion c p safe fresh i = record {
  files_safe = i.files_safe;
  artifacts_safe = i.artifacts_safe;
  deletes_safe =
      λ q e. ground (arith, is_deleted-insert p q c.deletes, eq_text_iff p q, i.deletes_safe q);
  disjoint = λ q e. ground (arith, is_deleted-insert p q c.deletes, eq_text_iff p q, i.disjoint q);
}

Move-IsConsistent : {h h' : Host} → Move h h' → IsConsistent h.candidate → IsConsistent h'.candidate
Move-IsConsistent (told reports e) i = rw e i
Move-IsConsistent (left path fresh e) i = rw e i
Move-IsConsistent (made id path fresh e) i = rw e i
Move-IsConsistent (wrote id o old bytes whole found unsealed file short small fits e) i = rw e i
Move-IsConsistent (downloaded id o bytes body found unsealed file room short e) i = rw e i
Move-IsConsistent (sealed id o found e) i = rw e i
Move-IsConsistent (opened id path bytes entry node e) i = rw e i
Move-IsConsistent {h} (published_file id o p found shut safe fresh kept e) i =
    rw e (add_file h.candidate p o.path safe kept i)
Move-IsConsistent {h} (published_artifact id o p found shut safe fresh e) i =
    rw e (add_artifact h.candidate p o.path safe i)
Move-IsConsistent {h} (deleted p safe fresh e) i = rw e (add_deletion h.candidate p safe fresh i)

Moves-IsConsistent :
    {h h' : Host} → Moves h h' → IsConsistent h.candidate → IsConsistent h'.candidate
Moves-IsConsistent here i = i
Moves-IsConsistent (next ms mv) i = Move-IsConsistent mv (Moves-IsConsistent ms i)

-- Whatever calls a plugin makes, every path in the candidate is safe, and no path of a published
-- file is deleted.
pub run-IsConsistent :
    (sha256 : Text → Text) (naming : Naming) (staging_bytes : ℕ) (hosts : List Text)
    (descriptor : Descriptor) (dir : Text) (prev : Previous) (tree : Text → Option Node)
    (calls : List (Io × Request))
    → IsConsistent
        (run sha256 naming calls (new_host staging_bytes hosts descriptor dir prev tree)).candidate
unfolding new_host has is_deleted
run-IsConsistent sha256 naming staging_bytes hosts descriptor dir prev tree calls =
    Moves-IsConsistent
      (run-Moves sha256 naming calls (new_host staging_bytes hosts descriptor dir prev tree))
      (record {
        files_safe = λ p e. cc;
        artifacts_safe = λ p e. cc;
        deletes_safe = λ p e. cc;
        disjoint = λ p e. refl;
      })
