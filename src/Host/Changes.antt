-- ===== src/Host/Changes.antt =====
-- What a move does to the objects, the files and the candidate of a host.
use crawlbox.Common.{
  ◌≡◌, ◌⊎◌, refl, ap, true, false, Option, none, some, [], ◌++◌, Map, Text, lookup, insert, has,
  lookup-insert, eq_text, eq_text_iff, eq_text_refl, arith, Bool-cases, inl, inr, if◌then◌else◌,
}
use crawlbox.Host.State.{Object, Host, Node, regular, is_taken}
use crawlbox.Host.Moves.{
  Move, told, left, made, wrote, downloaded, sealed, opened, published_file, published_artifact,
  deleted,
}

-- What a move does to the objects.
pub data Change (h : Host) (h' : Host) : Type 0 where
  same : h'.objects ≡ h.objects → Change h h'
  add :
      (id : Text) (o : Object)
      → o.sealed ≡ false
      → is_taken h o.path ≡ false
      → has o.path h'.staged ≡ true
      → h'.objects ≡ insert id o h.objects
      → Change h h'
  seal :
      (id : Text) (o : Object)
      → lookup id h.objects ≡ some o
      → h'.objects ≡ insert id (record o { sealed = true }) h.objects
      → Change h h'
  open_node :
      (id : Text) (o : Object) (node : Node)
      → o.sealed ≡ true
      → h.tree o.path ≡ some node
      → h'.objects ≡ insert id o h.objects
      → Change h h'

abbrev tree_of : Host → Text → Option Node
tree_of h = h.tree

abbrev objects_of : Host → Map Object
objects_of h = h.objects

has-insert : (p q bytes : Text) (m : Map Text) → has q m ≡ true → has q (insert p bytes m) ≡ true
unfolding has
has-insert p q bytes m h = ground (arith, lookup-insert p q bytes m)

has-insert_self : (p bytes : Text) (m : Map Text) → has p (insert p bytes m) ≡ true
unfolding has
has-insert_self p bytes m = ground (arith, lookup-insert p p bytes m, eq_text_refl p)

pub Move-Change : {h h' : Host} → Move h h' → Change h h'
Move-Change (told reports e) = same (ap objects_of e)
Move-Change (left path fresh e) = same (ap objects_of e)
Move-Change {h} (made id path fresh e) =
    add id (record { path = path; sealed = false; entry = none }) refl fresh
      (rw e (has-insert_self path [] h.staged)) (ap objects_of e)
Move-Change (wrote id o old bytes whole found unsealed file short small fits e) =
    same (ap objects_of e)
Move-Change (downloaded id o bytes body found unsealed file room short e) = same (ap objects_of e)
Move-Change (sealed id o found e) = seal id o found (ap objects_of e)
Move-Change (opened id path bytes entry node e) =
    open_node id (record { path = path; sealed = true; entry = entry }) (regular bytes) refl node
      (ap objects_of e)
Move-Change (published_file id o p found shut safe fresh kept e) = same (ap objects_of e)
Move-Change (published_artifact id o p found shut safe fresh e) = same (ap objects_of e)
Move-Change (deleted p safe fresh e) = same (ap objects_of e)

pub Move-tree : {h h' : Host} → Move h h' → h'.tree ≡ h.tree
Move-tree (told reports e) = ap tree_of e
Move-tree (left path fresh e) = ap tree_of e
Move-tree (made id path fresh e) = ap tree_of e
Move-tree (wrote id o old bytes whole found unsealed file short small fits e) = ap tree_of e
Move-tree (downloaded id o bytes body found unsealed file room short e) = ap tree_of e
Move-tree (sealed id o found e) = ap tree_of e
Move-tree (opened id path bytes entry node e) = ap tree_of e
Move-tree (published_file id o p found shut safe fresh kept e) = ap tree_of e
Move-tree (published_artifact id o p found shut safe fresh e) = ap tree_of e
Move-tree (deleted p safe fresh e) = ap tree_of e

-- No file is removed.
pub Move-has : {h h' : Host} (q : Text) → Move h h' → has q h.staged ≡ true → has q h'.staged ≡ true
Move-has q (told reports e) t = rw e t
Move-has {h} q (left path fresh e) t = rw e (has-insert path q [] h.staged t)
Move-has {h} q (made id path fresh e) t = rw e (has-insert path q [] h.staged t)
Move-has {h} q (wrote id o old bytes whole found unsealed file short small fits e) t =
    rw e (has-insert o.path q (old ++ bytes) h.staged t)
Move-has {h} q (downloaded id o bytes body found unsealed file room short e) t =
    rw e (has-insert o.path q bytes h.staged t)
Move-has q (sealed id o found e) t = rw e t
Move-has q (opened id path bytes entry node e) t = rw e t
Move-has q (published_file id o p found shut safe fresh kept e) t = rw e t
Move-has q (published_artifact id o p found shut safe fresh e) t = rw e t
Move-has q (deleted p safe fresh e) t = rw e t

-- A sealed object at a path.
abbrev pub IsSealedAt : Host → Text → Type 0
IsSealedAt h v =
    (id : Text) × (o : Object) × (lookup id h.objects ≡ some o) × (o.sealed ≡ true) × (o.path ≡ v)

files-published :
    (h h' : Host) (q p v : Text)
    → h' ≡ record h { candidate = record h.candidate { files = insert p v h.candidate.files } }
    → lookup q h'.candidate.files ≡ (if eq_text p q then some v else lookup q h.candidate.files)
files-published h h' q p v e = rw e (lookup-insert p q v h.candidate.files)

artifacts-published :
    (h h' : Host) (q p v : Text)
    → h'
      ≡ record h { candidate = record h.candidate { artifacts = insert p v h.candidate.artifacts } }
    → lookup q h'.candidate.artifacts
      ≡ (if eq_text p q then some v else lookup q h.candidate.artifacts)
artifacts-published h h' q p v e = rw e (lookup-insert p q v h.candidate.artifacts)

pub Move-files :
    {h h' : Host} (q v : Text)
    → Move h h'
    → lookup q h'.candidate.files ≡ some v
    → (lookup q h.candidate.files ≡ some v) ⊎ IsSealedAt h v
Move-files q v (told reports e) t = inl (rw e at t)
Move-files q v (left path fresh e) t = inl (rw e at t)
Move-files q v (made id path fresh e) t = inl (rw e at t)
Move-files q v (wrote id o old bytes whole found unsealed file short small fits e) t =
    inl (rw e at t)
Move-files q v (downloaded id o bytes body found unsealed file room short e) t = inl (rw e at t)
Move-files q v (sealed id o found e) t = inl (rw e at t)
Move-files q v (opened id path bytes entry node e) t = inl (rw e at t)
Move-files {h} {h'} q v (published_file id o p found shut safe fresh kept e) t =
    elim (Bool-cases (eq_text p q)) [
      | inl f ↦ inr (id, o, found, shut, ground (arith, files-published h h' q p o.path e))
      | inr f ↦ inl (ground (arith, files-published h h' q p o.path e))
    ]
Move-files q v (published_artifact id o p found shut safe fresh e) t = inl (rw e at t)
Move-files q v (deleted p safe fresh e) t = inl (rw e at t)

pub Move-artifacts :
    {h h' : Host} (q v : Text)
    → Move h h'
    → lookup q h'.candidate.artifacts ≡ some v
    → (lookup q h.candidate.artifacts ≡ some v) ⊎ IsSealedAt h v
Move-artifacts q v (told reports e) t = inl (rw e at t)
Move-artifacts q v (left path fresh e) t = inl (rw e at t)
Move-artifacts q v (made id path fresh e) t = inl (rw e at t)
Move-artifacts q v (wrote id o old bytes whole found unsealed file short small fits e) t =
    inl (rw e at t)
Move-artifacts q v (downloaded id o bytes body found unsealed file room short e) t = inl (rw e at t)
Move-artifacts q v (sealed id o found e) t = inl (rw e at t)
Move-artifacts q v (opened id path bytes entry node e) t = inl (rw e at t)
Move-artifacts q v (published_file id o p found shut safe fresh kept e) t = inl (rw e at t)
Move-artifacts {h} {h'} q v (published_artifact id o p found shut safe fresh e) t =
    elim (Bool-cases (eq_text p q)) [
      | inl f ↦ inr (id, o, found, shut, ground (arith, artifacts-published h h' q p o.path e))
      | inr f ↦ inl (ground (arith, artifacts-published h h' q p o.path e))
    ]
Move-artifacts q v (deleted p safe fresh e) t = inl (rw e at t)

-- A published file is not published again.
pub Move-files_kept :
    {h h' : Host} (q v : Text)
    → Move h h'
    → lookup q h.candidate.files ≡ some v
    → lookup q h'.candidate.files ≡ some v
unfolding has
Move-files_kept q v (told reports e) t = rw e t
Move-files_kept q v (left path fresh e) t = rw e t
Move-files_kept q v (made id path fresh e) t = rw e t
Move-files_kept q v (wrote id o old bytes whole found unsealed file short small fits e) t = rw e t
Move-files_kept q v (downloaded id o bytes body found unsealed file room short e) t = rw e t
Move-files_kept q v (sealed id o found e) t = rw e t
Move-files_kept q v (opened id path bytes entry node e) t = rw e t
Move-files_kept {h} {h'} q v (published_file id o p found shut safe fresh kept e) t =
    ground (arith, files-published h h' q p o.path e, eq_text_iff p q)
Move-files_kept q v (published_artifact id o p found shut safe fresh e) t = rw e t
Move-files_kept q v (deleted p safe fresh e) t = rw e t

-- A published artifact is not published again.
pub Move-artifacts_kept :
    {h h' : Host} (q v : Text)
    → Move h h'
    → lookup q h.candidate.artifacts ≡ some v
    → lookup q h'.candidate.artifacts ≡ some v
unfolding has
Move-artifacts_kept q v (told reports e) t = rw e t
Move-artifacts_kept q v (left path fresh e) t = rw e t
Move-artifacts_kept q v (made id path fresh e) t = rw e t
Move-artifacts_kept q v (wrote id o old bytes whole found unsealed file short small fits e) t =
    rw e t
Move-artifacts_kept q v (downloaded id o bytes body found unsealed file room short e) t = rw e t
Move-artifacts_kept q v (sealed id o found e) t = rw e t
Move-artifacts_kept q v (opened id path bytes entry node e) t = rw e t
Move-artifacts_kept {h} {h'} q v (published_artifact id o p found shut safe fresh e) t =
    ground (arith, artifacts-published h h' q p o.path e, eq_text_iff p q)
Move-artifacts_kept q v (published_file id o p found shut safe fresh kept e) t = rw e t
Move-artifacts_kept q v (deleted p safe fresh e) t = rw e t
