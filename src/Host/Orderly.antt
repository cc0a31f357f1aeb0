-- ===== src/Host/Orderly.antt =====
-- The invariant of the objects and the candidate, kept by every move.
use crawlbox.Common.{
  ◌≡◌, ◌≢◌, ◌⊎◌, sym, ap, subst, ◌∙◌, true, false, none, some, Map, Text, lookup, insert, has,
  lookup-insert, eq_text, eq_text_iff, arith, Bool-cases, inl, inr,
}
use crawlbox.Host.State.{Object, Host, Node, is_taken}
use crawlbox.Host.Moves.{Move}
use crawlbox.Host.Frozen.{IsFrozen, Move-IsFrozen}
use crawlbox.Host.Changes.{
  Change, same, add, seal, open_node, Move-Change, Move-tree, Move-has, Move-files, Move-artifacts,
  IsSealedAt,
}

-- An object that can be written is the only one of its file, which the host has created.
pub record IsAlone (h : Host) (id : Text) (o : Object) : Type 0 where
  pub own : h.tree o.path ≡ none
  pub staged : has o.path h.staged ≡ true
  pub only : (j : Text) (q : Object) → lookup j h.objects ≡ some q → q.path ≡ o.path → j ≡ id

pub record IsOrderly (h : Host) : Type 0 where
  pub sealed_frozen :
      (id : Text) (o : Object) → lookup id h.objects ≡ some o → o.sealed ≡ true → IsFrozen h o.path
  pub unsealed_alone :
      (id : Text) (o : Object) → lookup id h.objects ≡ some o → o.sealed ≡ false → IsAlone h id o
  pub files_frozen : (p v : Text) → lookup p h.candidate.files ≡ some v → IsFrozen h v
  pub artifacts_frozen : (p v : Text) → lookup p h.candidate.artifacts ≡ some v → IsFrozen h v

IsFrozen-at : {h : Host} (v : Text) → IsOrderly h → IsSealedAt h v → IsFrozen h v
IsFrozen-at {h} v l (id, o, found, shut, at) =
    subst (IsFrozen h) at (l.sealed_frozen id o found shut)

-- Every object has a file that is there.
object_taken :
    (h : Host) (id : Text) (o : Object)
    → IsOrderly h
    → lookup id h.objects ≡ some o
    → is_taken h o.path ≡ true
unfolding is_taken
object_taken h id o l found = elim (Bool-cases o.sealed) [
  | inl e ↦ (l.sealed_frozen id o found e).there
  | inr e ↦ ground (arith, (l.unsealed_alone id o found e).staged)
]

-- An object after one has been added or changed.
objects_split :
    (i id : Text) (n o : Object) (m m' : Map Object)
    → m' ≡ insert i n m
    → lookup id m' ≡ some o
    → ((i ≡ id) × (o ≡ n)) ⊎ ((eq_text i id ≡ false) × (lookup id m ≡ some o))
objects_split i id n o m m' e found =
    let there = ap (lookup id) (sym e) ∙ found in
    ground (arith, lookup-insert i id n m, eq_text_iff i id)

has-taken : (h : Host) (p : Text) → has p h.staged ≡ true → is_taken h p ≡ true
unfolding is_taken
has-taken h p e = rw e

node-taken : (h : Host) (p : Text) (node : Node) → h.tree p ≡ some node → is_taken h p ≡ true
unfolding is_taken
node-taken h p node e = ground arith

fresh-tree : (h : Host) (p : Text) → is_taken h p ≡ false → h.tree p ≡ none
unfolding is_taken
fresh-tree h p e = ground arith

not_taken : (h : Host) (p q : Text) → is_taken h p ≡ false → is_taken h q ≡ true → p ≢ q
not_taken h p q a b e = cc (subst (λ x. is_taken h x ≡ false) e a, b)

not_node : (h : Host) (p q : Text) (node : Node) → h.tree p ≡ some node → h.tree q ≡ none → p ≢ q
not_node h p q node a b e = cc (subst (λ x. h.tree x ≡ some node) e a, b)

ne-id : (i j : Text) → eq_text i j ≡ false → j ≢ i
ne-id i j ne e = cc (ne, (eq_text_iff i j).1 (sym e))

module _ (h h' : Host) (mv : Move h h') (l : IsOrderly h) where
  IsAlone-on :
      (id : Text) (o : Object)
      → IsAlone h id o
      → ((j : Text) (q : Object) → lookup j h'.objects ≡ some q → q.path ≡ o.path → j ≡ id)
      → IsAlone h' id o
  IsAlone-on id o a only = record {
    own = ap (λ t. t o.path) (Move-tree mv) ∙ a.own;
    staged = Move-has o.path mv a.staged;
    only = only;
  }

  next_files : (p v : Text) → lookup p h'.candidate.files ≡ some v → IsFrozen h' v
  next_files p v e = elim (Move-files p v mv e) [
    | inl before ↦ (Move-IsFrozen v mv (l.files_frozen p v before)).0
    | inr now ↦ (Move-IsFrozen v mv (IsFrozen-at v l now)).0
  ]

  next_artifacts : (p v : Text) → lookup p h'.candidate.artifacts ≡ some v → IsFrozen h' v
  next_artifacts p v e = elim (Move-artifacts p v mv e) [
    | inl before ↦ (Move-IsFrozen v mv (l.artifacts_frozen p v before)).0
    | inr now ↦ (Move-IsFrozen v mv (IsFrozen-at v l now)).0
  ]

  still-IsFrozen :
      (id : Text) (o : Object) → lookup id h.objects ≡ some o → o.sealed ≡ true → IsFrozen h' o.path
  still-IsFrozen id o found shut = (Move-IsFrozen o.path mv (l.sealed_frozen id o found shut)).0

  -- The file of an object that has just been sealed.
  just_sealed :
      (i : Text) (n : Object)
      → lookup i h.objects ≡ some n
      → n.sealed ≡ false
      → h'.objects ≡ insert i (record n { sealed = true }) h.objects
      → IsFrozen h' n.path
  just_sealed i n there unsealed e =
      let a = l.unsealed_alone i n there unsealed in
      record {
        there = has-taken h' n.path (Move-has n.path mv a.staged);
        shut = λ j q found at.
            elim (objects_split i j (record n { sealed = true }) q h.objects h'.objects e found) [
              | inl (_, now) ↦ ap (λ (x : Object). x.sealed) now
              | inr (ne, before) ↦ absurd (ne-id i j ne (a.only j q before at))
            ];
      }

  -- The file of an object that has just been opened.
  just_opened :
      (i : Text) (n : Object) (node : Node)
      → n.sealed ≡ true
      → h.tree n.path ≡ some node
      → h'.objects ≡ insert i n h.objects
      → IsFrozen h' n.path
  just_opened i n node closed at e = record {
    there = node-taken h' n.path node (ap (λ t. t n.path) (Move-tree mv) ∙ at);
    shut = λ j q found path. elim (objects_split i j n q h.objects h'.objects e found) [
      | inl (_, now) ↦ ap (λ (x : Object). x.sealed) now ∙ closed
      | inr (_, before) ↦ elim (Bool-cases q.sealed) [
        | inl shut ↦ shut
        | inr unsealed ↦
            absurd (
              not_node h n.path q.path node at (l.unsealed_alone j q before unsealed).own
                (sym path))
      ]
    ];
  }

  next_sealed :
      Change h h'
      → (id : Text) (o : Object) → lookup id h'.objects ≡ some o
      → o.sealed ≡ true
      → IsFrozen h' o.path
  next_sealed (same e) id o found shut = still-IsFrozen id o (ap (lookup id) (sym e) ∙ found) shut
  next_sealed (add i n unsealed fresh there e) id o found shut =
      elim (objects_split i id n o h.objects h'.objects e found) [
        | inl (_, now) ↦ cc (now, unsealed, shut)
        | inr (_, before) ↦ still-IsFrozen id o before shut
      ]
  next_sealed (seal i n there e) id o found shut =
      elim (objects_split i id (record n { sealed = true }) o h.objects h'.objects e found) [
        | inl (_, now) ↦
            subst (λ p. IsFrozen h' p) (ap (λ (x : Object). x.path) (sym now))
              (elim (Bool-cases n.sealed) [
                | inl closed ↦ still-IsFrozen i n there closed
                | inr unsealed ↦ just_sealed i n there unsealed e
              ])
        | inr (_, before) ↦ still-IsFrozen id o before shut
      ]
  next_sealed (open_node i n node closed at e) id o found shut =
      elim (objects_split i id n o h.objects h'.objects e found) [
        | inl (_, now) ↦
            subst (λ p. IsFrozen h' p) (ap (λ (x : Object). x.path) (sym now))
              (just_opened i n node closed at e)
        | inr (_, before) ↦ still-IsFrozen id o before shut
      ]

  next-IsAlone :
      Change h h'
      → (id : Text) (o : Object) → lookup id h'.objects ≡ some o
      → o.sealed ≡ false
      → IsAlone h' id o
  next-IsAlone (same e) id o found unshut =
      let a = l.unsealed_alone id o (ap (lookup id) (sym e) ∙ found) unshut in
      IsAlone-on id o a (λ j q there at. a.only j q (ap (lookup j) (sym e) ∙ there) at)
  next-IsAlone (add i n unsealed fresh there e) id o found unshut =
      elim (objects_split i id n o h.objects h'.objects e found) [
        | inl (here', now) ↦ rw now (record {
          own = ap (λ t. t n.path) (Move-tree mv) ∙ fresh-tree h n.path fresh;
          staged = there;
          only = λ j q at path. elim (objects_split i j n q h.objects h'.objects e at) [
            | inl (k, _) ↦ sym k ∙ here'
            | inr (_, before) ↦
                absurd (not_taken h n.path q.path fresh (object_taken h j q l before) (sym path))
          ];
        })
        | inr (_, before) ↦
            let a = l.unsealed_alone id o before unshut in
            IsAlone-on id o a (λ j q at path.
              elim (objects_split i j n q h.objects h'.objects e at) [
                | inl (_, now) ↦ absurd (
                    not_taken h n.path o.path fresh (object_taken h id o l before)
                      (ap (λ (x : Object). x.path) (sym now) ∙ path))
                | inr (_, old) ↦ a.only j q old path
              ])
      ]
  next-IsAlone (seal i n there e) id o found unshut =
      elim (objects_split i id (record n { sealed = true }) o h.objects h'.objects e found) [
        | inl (_, now) ↦ cc (now, unshut)
        | inr (_, before) ↦
            let a = l.unsealed_alone id o before unshut in
            IsAlone-on id o a (λ j q at path.
              elim (objects_split i j (record n { sealed = true }) q h.objects h'.objects e at) [
                | inl (k, now) ↦
                    sym k ∙ a.only i n there (ap (λ (x : Object). x.path) (sym now) ∙ path)
                | inr (_, old) ↦ a.only j q old path
              ])
      ]
  next-IsAlone (open_node i n node closed at e) id o found unshut =
      elim (objects_split i id n o h.objects h'.objects e found) [
        | inl (_, now) ↦ cc (now, closed, unshut)
        | inr (_, before) ↦
            let a = l.unsealed_alone id o before unshut in
            IsAlone-on id o a (λ j q there path.
              elim (objects_split i j n q h.objects h'.objects e there) [
                | inl (_, now) ↦ absurd (
                    not_node h n.path o.path node at a.own
                      (ap (λ (x : Object). x.path) (sym now) ∙ path))
                | inr (_, old) ↦ a.only j q old path
              ])
      ]

  pub Move-IsOrderly : IsOrderly h'
  Move-IsOrderly = record {
    sealed_frozen = next_sealed (Move-Change mv);
    unsealed_alone = next-IsAlone (Move-Change mv);
    files_frozen = next_files;
    artifacts_frozen = next_artifacts;
  }
