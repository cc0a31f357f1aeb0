-- ===== src/Host/Frozen.antt =====
-- What has been published cannot change before the end of the run.
use crawlbox.Common.{
  ◌≡◌, ◌⊎◌, refl, sym, ap, subst, ◌∙◌, true, false, none, some, [], ◌++◌, Map, Text, lookup, insert,
  has, lookup-insert, eq_text, eq_text_iff, arith, Bool-cases, inl, inr,
}
use crawlbox.Host.State.{Object, Host, is_taken, content}
use crawlbox.Host.Moves.{
  Move, told, left, made, wrote, downloaded, sealed, opened, published_file, published_artifact,
  deleted,
}

-- A file that is there and that no object can write.
pub record IsFrozen (h : Host) (v : Text) : Type 0 where
  pub there : is_taken h v ≡ true
  pub shut : (id : Text) (o : Object) → lookup id h.objects ≡ some o → o.path ≡ v → o.sealed ≡ true

taken-ne :
    (h : Host) (p v : Text) → is_taken h p ≡ false → is_taken h v ≡ true → eq_text p v ≡ false
taken-ne h p v a b = elim (Bool-cases (eq_text p v)) [
  | inl e ↦ absurd (cc (subst (λ x. is_taken h x ≡ false) ((eq_text_iff p v).0 e) a, b))
  | inr e ↦ e
]

-- A write to another file.
content-insert :
    (h h' : Host) (p v bytes : Text)
    → eq_text p v ≡ false
    → h'.tree ≡ h.tree
    → h'.staged ≡ insert p bytes h.staged
    → (content h' v ≡ content h v) × (is_taken h' v ≡ is_taken h v)
unfolding content is_taken has
content-insert h h' p v bytes ne tree staged =
    let file : lookup v h'.staged ≡ lookup v h.staged =
      ap (lookup v) staged ∙ lookup-insert p v bytes h.staged ∙ rw ne in
    let node : h'.tree v ≡ h.tree v = ap (λ t. t v) tree in ground arith

-- An object of another path, or one that is sealed, leaves a frozen file frozen.
shut-insert :
    (h : Host) (v id : Text) (added : Object)
    → IsFrozen h v
    → (eq_text added.path v ≡ false) ⊎ (added.sealed ≡ true)
    → (j : Text) (o : Object) → lookup j (insert id added h.objects) ≡ some o
    → o.path ≡ v
    → o.sealed ≡ true
shut-insert h v id added f apart j o found same =
    ground (arith, lookup-insert id j added h.objects, f.shut j o, eq_text_iff o.path v)

-- From a state that has the same files and trees, and whose new objects do not unseal `v`.
IsFrozen-next :
    (h h' : Host) (v : Text) (objects : Map Object)
    → IsFrozen h v
    → (content h' v ≡ content h v) × (is_taken h' v ≡ is_taken h v)
    → h'.objects ≡ objects
    → ((id : Text) (o : Object) → lookup id objects ≡ some o → o.path ≡ v → o.sealed ≡ true)
    → IsFrozen h' v × (content h' v ≡ content h v)
IsFrozen-next h h' v objects f (same, taken) e shut = (
  record {
    there = taken ∙ f.there;
    shut = λ id o found at. shut id o (ap (lookup id) (sym e) ∙ found) at;
  },
  same,
)

-- A step that changes no file.
same-files :
    (h h' : Host) (v : Text)
    → h'.tree ≡ h.tree
    → h'.staged ≡ h.staged
    → (content h' v ≡ content h v) × (is_taken h' v ≡ is_taken h v)
unfolding content is_taken has
same-files h h' v tree staged =
    let file : lookup v h'.staged ≡ lookup v h.staged = ap (lookup v) staged in
    let node : h'.tree v ≡ h.tree v = ap (λ t. t v) tree in ground arith

unsealed-ne :
    (h : Host) (v id : Text) (o : Object)
    → IsFrozen h v
    → lookup id h.objects ≡ some o
    → o.sealed ≡ false
    → eq_text o.path v ≡ false
unsealed-ne h v id o f found unsealed = ground (arith, f.shut id o, eq_text_iff o.path v)

-- A move leaves a frozen file frozen, with the bytes that it has.
pub Move-IsFrozen :
    {h h' : Host} (v : Text)
    → Move h h'
    → IsFrozen h v
    → IsFrozen h' v × (content h' v ≡ content h v)
Move-IsFrozen {h} {h'} v (told reports e) f =
    IsFrozen-next h h' v h.objects f
      (same-files h h' v (ap (λ (x : Host). x.tree) e) (ap (λ (x : Host). x.staged) e))
      (ap (λ (x : Host). x.objects) e) f.shut
Move-IsFrozen {h} {h'} v (left path fresh e) f =
    let ne = taken-ne h path v fresh f.there in
    IsFrozen-next h h' v h.objects f
      (content-insert h h' path v [] ne (ap (λ (x : Host). x.tree) e)
        (ap (λ (x : Host). x.staged) e))
      (ap (λ (x : Host). x.objects) e) f.shut
Move-IsFrozen {h} {h'} v (made id path fresh e) f =
    let ne = taken-ne h path v fresh f.there in
    let o' : Object = record { path = path; sealed = false; entry = none } in
    IsFrozen-next h h' v (insert id o' h.objects) f
      (content-insert h h' path v [] ne (ap (λ (x : Host). x.tree) e)
        (ap (λ (x : Host). x.staged) e))
      (ap (λ (x : Host). x.objects) e) (shut-insert h v id o' f (inl ne))
Move-IsFrozen {h} {h'} v (wrote id o old bytes whole found unsealed file short small fits e) f =
    let ne = unsealed-ne h v id o f found unsealed in
    IsFrozen-next h h' v h.objects f
      (content-insert h h' o.path v (old ++ bytes) ne (ap (λ (x : Host). x.tree) e)
        (ap (λ (x : Host). x.staged) e))
      (ap (λ (x : Host). x.objects) e) f.shut
Move-IsFrozen {h} {h'} v (downloaded id o bytes body found unsealed file room short e) f =
    let ne = unsealed-ne h v id o f found unsealed in
    IsFrozen-next h h' v h.objects f
      (content-insert h h' o.path v bytes ne (ap (λ (x : Host). x.tree) e)
        (ap (λ (x : Host). x.staged) e))
      (ap (λ (x : Host). x.objects) e) f.shut
Move-IsFrozen {h} {h'} v (sealed id o found e) f =
    let o' : Object = record o { sealed = true } in
    IsFrozen-next h h' v (insert id o' h.objects) f
      (same-files h h' v (ap (λ (x : Host). x.tree) e) (ap (λ (x : Host). x.staged) e))
      (ap (λ (x : Host). x.objects) e) (shut-insert h v id o' f (inr refl))
Move-IsFrozen {h} {h'} v (opened id path bytes entry node e) f =
    let o' : Object = record { path = path; sealed = true; entry = entry } in
    IsFrozen-next h h' v (insert id o' h.objects) f
      (same-files h h' v (ap (λ (x : Host). x.tree) e) (ap (λ (x : Host). x.staged) e))
      (ap (λ (x : Host). x.objects) e) (shut-insert h v id o' f (inr refl))
Move-IsFrozen {h} {h'} v (published_file id o p found shut safe fresh kept e) f =
    IsFrozen-next h h' v h.objects f
      (same-files h h' v (ap (λ (x : Host). x.tree) e) (ap (λ (x : Host). x.staged) e))
      (ap (λ (x : Host). x.objects) e) f.shut
Move-IsFrozen {h} {h'} v (published_artifact id o p found shut safe fresh e) f =
    IsFrozen-next h h' v h.objects f
      (same-files h h' v (ap (λ (x : Host). x.tree) e) (ap (λ (x : Host). x.staged) e))
      (ap (λ (x : Host). x.objects) e) f.shut
Move-IsFrozen {h} {h'} v (deleted p safe fresh e) f =
    IsFrozen-next h h' v h.objects f
      (same-files h h' v (ap (λ (x : Host). x.tree) e) (ap (λ (x : Host). x.staged) e))
      (ap (λ (x : Host). x.objects) e) f.shut
