-- ===== src/Catalog/Body.antt =====
-- The JSON body of a revision, as `json.Marshal` writes it and `json.Unmarshal` reads it back, with
-- the tags of the fields in internal/model/model.go and internal/wire/wire.go. An object is its
-- members, and a time is its RFC 3339 text, which keeps the nanoseconds. A string keeps its bytes:
-- those of a revision are UTF-8, since they were decoded from JSON.
pub mod Fields
use crawlbox.Common.{
  ℕ, zero, suc, ◌+◌, ◌-◌, ◌/◌, ◌%◌, ◌==◌, leb, ltb, Bool, true, false, ◌||◌, ◌&&◌, not, Option,
  none, some, List, [], ◌∷◌, ◌++◌, Map, Text, eq_text, lookup, codes, if◌then◌else◌, map,
}
use crawlbox.Wire.{Entry, Descriptor}
use crawlbox.Model.{Kind, added, modified, deleted, Change, Revision}

-- Where a byte of raw JSON stands: outside a string, inside one, or there after a backslash.
pub data Place : Type 0 where
  outside inside escaped : Place

abbrev pub next : Place → ℕ → Place
next outside c = if c == 34 then inside else outside
next inside c = if c == 34 then outside else if c == 92 then escaped else inside
next escaped c = inside

-- White space between the tokens, which is left out.
abbrev pub is_skipped : Place → ℕ → Bool
is_skipped outside c = c == 32 || (c == 9 || (c == 10 || c == 13))
is_skipped inside c = false
is_skipped escaped c = false

abbrev pub hex_digit : ℕ → ℕ
hex_digit n = if ltb n 10 then b'0' + n else b'a' + (n - 10)

-- The bytes that are written in the place of one: an escape for "<", ">" and "&", nothing for
-- white space outside the strings, and the byte itself otherwise.
abbrev pub written : Place → ℕ → Text
written p c =
    if c == b'<' || (c == b'>' || c == b'&')
    then 92 ∷ codes "u00" ++ hex_digit (c / 16) ∷ hex_digit (c % 16) ∷ []
    else if is_skipped p c
    then []
    else c ∷ []

-- Whether U+2028 or U+2029 starts with this byte.
abbrev pub is_separator : ℕ → Text → Bool
is_separator c (d ∷ e ∷ rest) = c == 226 && (d == 128 && (e == 168 || e == 169))
is_separator c _ = false

abbrev pub third : Text → ℕ
third (d ∷ e ∷ rest) = e
third _ = 0

-- `compact` with escapes, of which the first bytes may already be written.
unfoldable pub compact : ℕ → Place → Text → Text
compact n p [] = []
compact (suc n) p (c ∷ cs) = compact n (next p c) cs
compact zero p (c ∷ cs) =
    let further = compact zero (next p c) cs in
    let after_two = compact 2 (next p c) cs in
    if is_separator c cs
    then 92 ∷ codes "u202" ++ hex_digit (third cs % 16) ∷ after_two
    else written p c ++ further

-- `json.RawMessage`: an empty one is written as null.
unfoldable pub raw_json : Text → Text
unfolding compact
raw_json [] = codes "null"
raw_json (c ∷ cs) = compact zero outside (c ∷ cs)

-- The values of the members.
pub data Value : Type 0 where
  text : Text → Value
  number : ℕ → Value
  raw : Text → Value
  texts : List Text → Value

pub data Member : Type 0 where
  plain : Value → Member
  object : Map Value → Member
  objects : List (Map Value) → Member

abbrev pub is_empty {ℓ} : {A : Type ℓ} → List A → Bool
is_empty [] = true
is_empty (x ∷ xs) = false

-- A member with "omitempty".
abbrev pub unless {ℓ} : {V : Type ℓ} → Bool → Text → V → Map V → Map V
unless true k v rest = rest
unless false k v rest = (k, v) ∷ rest

abbrev pub kind_text : Kind → Text
kind_text added = codes "added"
kind_text modified = codes "modified"
kind_text deleted = codes "deleted"

abbrev pub entry_body : Entry → Map Value
entry_body e =
    (codes "path", text e.path)
    ∷ (codes "size", number e.size)
    ∷ (codes "sha256", text e.sha256)
    ∷ []

abbrev pub change_body : Change → Map Value
change_body c =
    (codes "path", text c.path)
    ∷ (codes "kind", text (kind_text c.kind))
    ∷ unless (is_empty c.before) (codes "before") (text c.before)
        (unless (is_empty c.after) (codes "after") (text c.after) [])

abbrev pub descriptor_body : Descriptor → Map Value
descriptor_body d =
    (codes "id", text d.id)
    ∷ (codes "version", text d.version)
    ∷ (codes "abi", number d.abi)
    ∷ (codes "hosts", texts d.hosts)
    ∷ (codes "config_schema", raw (raw_json d.config_schema))
    ∷ []

-- `json.Marshal` of a revision.
unfoldable pub marshal : Revision → Map Member
unfolding raw_json
marshal r =
    (codes "id", plain (text r.id))
    ∷ unless (is_empty r.run) (codes "run") (plain (text r.run)) (
        (codes "source", plain (text r.source))
        ∷ unless (is_empty r.parent) (codes "parent") (plain (text r.parent)) (
            (codes "created_at", plain (number r.created_at))
            ∷ (codes "plugin", object (descriptor_body r.plugin))
            ∷ (codes "state", plain (raw (raw_json r.state)))
            ∷ (codes "metadata", plain (raw (raw_json r.metadata)))
            ∷ (codes "files", objects (map entry_body r.files))
            ∷ (codes "artifacts", objects (map entry_body r.artifacts))
            ∷ (codes "changes", objects (map change_body r.changes))
            ∷ unless (is_empty r.tags) (codes "tags") (plain (texts r.tags)) (
                (codes "artifact_changes", objects (map change_body r.artifact_changes))
                ∷ unless (is_empty r.snapshot) (codes "snapshot") (plain (text r.snapshot)) [])))

-- What the fields read: a member that is not there leaves the zero value.
abbrev pub text_of : Option Value → Text
text_of (some (text t)) = t
text_of _ = []

abbrev pub number_of : Option Value → ℕ
number_of (some (number n)) = n
number_of _ = 0

abbrev pub raw_of : Option Value → Text
raw_of (some (raw t)) = t
raw_of _ = []

abbrev pub texts_of : Option Value → List Text
texts_of (some (texts ts)) = ts
texts_of _ = []

abbrev pub plain_of : Option Member → Option Value
plain_of (some (plain v)) = some v
plain_of _ = none

abbrev pub object_of : Option Member → Map Value
object_of (some (object o)) = o
object_of _ = []

abbrev pub objects_of : Option Member → List (Map Value)
objects_of (some (objects os)) = os
objects_of _ = []

abbrev pub kind_of : Text → Kind
kind_of t =
    if eq_text t (codes "added")
    then added
    else if eq_text t (codes "modified")
    then modified
    else deleted

abbrev pub entry_of : Map Value → Entry
entry_of o = record {
  path = text_of (lookup (codes "path") o);
  size = number_of (lookup (codes "size") o);
  sha256 = text_of (lookup (codes "sha256") o);
}

abbrev pub change_of : Map Value → Change
change_of o = record {
  path = text_of (lookup (codes "path") o);
  kind = kind_of (text_of (lookup (codes "kind") o));
  before = text_of (lookup (codes "before") o);
  after = text_of (lookup (codes "after") o);
}

abbrev pub descriptor_of : Map Value → Descriptor
descriptor_of o = record {
  id = text_of (lookup (codes "id") o);
  version = text_of (lookup (codes "version") o);
  abi = number_of (lookup (codes "abi") o);
  hosts = texts_of (lookup (codes "hosts") o);
  config_schema = raw_of (lookup (codes "config_schema") o);
}

-- `json.Unmarshal` into a revision.
unfoldable pub unmarshal : Map Member → Revision
unmarshal o = record {
  id = text_of (plain_of (lookup (codes "id") o));
  run = text_of (plain_of (lookup (codes "run") o));
  source = text_of (plain_of (lookup (codes "source") o));
  parent = text_of (plain_of (lookup (codes "parent") o));
  created_at = number_of (plain_of (lookup (codes "created_at") o));
  plugin = descriptor_of (object_of (lookup (codes "plugin") o));
  state = raw_of (plain_of (lookup (codes "state") o));
  metadata = raw_of (plain_of (lookup (codes "metadata") o));
  files = map entry_of (objects_of (lookup (codes "files") o));
  artifacts = map entry_of (objects_of (lookup (codes "artifacts") o));
  changes = map change_of (objects_of (lookup (codes "changes") o));
  tags = texts_of (plain_of (lookup (codes "tags") o));
  artifact_changes = map change_of (objects_of (lookup (codes "artifact_changes") o));
  snapshot = text_of (plain_of (lookup (codes "snapshot") o));
}
