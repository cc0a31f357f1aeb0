-- ===== src/Web/Api.antt =====
-- The interface under "/api/v1" of internal/web/web.go: its handlers but `serveFile` and `archive`,
-- and the order in which the router applies `bearer` and `scope` before them.
use crawlbox.Common.{
  ℕ, ◌+◌, Option, none, some, List, [], ◌∷◌, ◌++◌, Map, Text, lookup, codes, length, map,
}
use crawlbox.Common.Result.{Result, ok, err}
use crawlbox.Wire.{Entry}
use crawlbox.Model.{Revision, Change}
use crawlbox.Catalog.Db.{Db, Faults}
use crawlbox.Catalog.History.{revision, revisions, revisions_page}
use crawlbox.Web.{Response, refused, answered, ◌>>=◌, ◌>>◌}
use crawlbox.Web.Access.{bearer, scope}
use crawlbox.Web.Pages.{Page, pagination, page}

-- `publicRevision`
pub record PublicRevision : Type 0 where
  pub id : Text
  pub source : Text
  pub parent : Text
  pub created_at : ℕ
  pub metadata : Text
  pub tags : List Text
  pub plugin_id : Text
  pub plugin_version : Text

abbrev pub public_revision : Revision → PublicRevision
public_revision v = record {
  id = v.id;
  source = v.source;
  parent = v.parent;
  created_at = v.created_at;
  metadata = v.metadata;
  tags = v.tags;
  plugin_id = v.plugin.id;
  plugin_version = v.plugin.version;
}

abbrev pub or_failure : {A : Type 0} → Result A → Response A
or_failure (ok a) = answered a
or_failure (err e) = refused 500

abbrev pub or_not_found : {A : Type 0} → Result A → Response A
or_not_found (ok a) = answered a
or_not_found (err e) = refused 404

-- The name of a source in the configuration, if it has one.
abbrev pub name_or_id : Option Text → Text → Text
name_or_id none id = id
name_or_id (some []) id = id
name_or_id (some (c ∷ cs)) id = c ∷ cs

abbrev pub listed_source :
    Map Text → Text → Result Revision → List (Text × Text) → List (Text × Text)
listed_source names id (err e) rest = rest
listed_source names id (ok v) rest = (id, name_or_id (lookup id names) id) ∷ rest

-- `sources`: those of the token that have a revision. `names` holds the names of the configured
-- sources, and `fault` the outcomes of the read for each source.
unfoldable pub list_sources : (Text → Faults) → Map Text → Db → List Text → List (Text × Text)
unfolding revision
list_sources fault names db [] = []
list_sources fault names db (id ∷ ids) =
    listed_source names id (revision (fault id) id (codes "latest") db)
      (list_sources fault names db ids)

-- `s.revision`
abbrev pub find : Faults → Text → Text → Db → Response Revision
find fault source id db = or_not_found (revision fault source id db)

unfoldable pub get_metadata : Faults → Text → Text → Db → Response PublicRevision
unfolding revision
get_metadata fault source id db = find fault source id db >>= λ v. answered (public_revision v)

unfoldable pub get_changes : Faults → Text → Text → Db → Response (List Change × List Change)
unfolding revision
get_changes fault source id db =
    find fault source id db >>= λ v. answered (v.changes, v.artifact_changes)

-- `files` and `artifacts`
unfoldable pub get_files : Faults → Text → Text → Text → Text → Db → Response (Page Entry)
unfolding revision page
get_files fault source id offset limit db =
    find fault source id db >>= λ v. page offset limit v.files

unfoldable pub get_artifacts : Faults → Text → Text → Text → Text → Db → Response (Page Entry)
unfolding revision page
get_artifacts fault source id offset limit db =
    find fault source id db >>= λ v. page offset limit v.artifacts

abbrev pub with_revision : Revision → List Text → List (Text × Text)
with_revision v [] = []
with_revision v (t ∷ ts) = (t, v.id) ∷ with_revision v ts

unfoldable pub all_tags : List Revision → List (Text × Text)
all_tags [] = []
all_tags (v ∷ vs) = with_revision v v.tags ++ all_tags vs

module _ (second : ℕ → Text) where
  abbrev pub revisions_at : ℕ → Result (List Revision × ℕ) → Response (Page PublicRevision)
  revisions_at off (err e) = refused 500
  revisions_at off (ok (list, total)) = answered (record {
    entries = map public_revision list;
    total = total;
    next_offset = off + length (map public_revision list);
  })

  -- `revisions`
  unfoldable pub get_revisions : Faults → Text → Text → Text → Db → Response (Page PublicRevision)
  unfolding pagination revisions_page
  get_revisions fault source offset limit db = do
    (off, lim) ← pagination offset limit
    revisions_at off (revisions_page second fault source lim off db)

  -- `tags`
  unfoldable pub get_tags : Faults → Text → Db → Response (List (Text × Text))
  unfolding revisions all_tags
  get_tags fault source db =
      or_failure (revisions second fault source db) >>= λ list. answered (all_tags list)

module _ (sha256 : Text → Text) where
  -- "/sources"
  unfoldable pub api_sources :
      Faults → (Text → Faults) → ℕ → Text → Map Text → Db → Response (List (Text × Text))
  unfolding bearer list_sources
  api_sources fault reads now header names db = do
    t ← bearer sha256 fault now header db
    answered (list_sources reads names db t.sources)

  -- A handler under "/sources/{source}", behind `bearer` and `scope`.
  unfoldable pub api_source : {A : Type 0} → Faults → ℕ → Text → Text → Db → Response A → Response A
  unfolding bearer scope
  api_source fault now header source db handler = do
    t ← bearer sha256 fault now header db
    scope source t
    handler
