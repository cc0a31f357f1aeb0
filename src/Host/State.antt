-- ===== src/Host/State.antt =====
-- The state of a `Host` (internal/runtime/runtime.go), with the files that it works on, and what
-- the system answers to one call.
use crawlbox.Common.{
  ℕ, Bool, true, false, ◌||◌, Option, none, some, List, [], ◌∷◌, Map, Text, lookup, insert, has,
  lt_text,
}
use crawlbox.Common.Result.{Error, Result}
use crawlbox.Common.Sorting.{sort}
use crawlbox.Wire.{Entry, Descriptor, Response, no_response}

-- `entry` is the committed metadata of an object that was opened from the previous revision.
pub record Object : Type 0 where
  pub path : Text
  pub sealed : Bool
  pub entry : Option Entry

pub record Candidate : Type 0 where
  pub files : Map Text
  pub artifacts : Map Text
  pub deletes : Map Bool

-- What `Lstat` finds.
pub data Node : Type 0 where
  regular : Text → Node
  irregular : Node

-- `staged` holds the files that the host has created in `dir`, `tree` all other files, which the
-- host only reads. `progress` is the sequence of reports, the newest first.
pub record Host : Type 0 where
  pub staging_bytes : ℕ
  pub source_hosts : List Text
  pub descriptor : Descriptor
  pub dir : Text
  pub previous : Text
  pub previous_artifacts : Text
  pub entries : List Entry
  pub index : Map Entry
  pub artifact_index : Map Entry
  pub tree : Text → Option Node
  pub staged : Map Text
  pub objects : Map Object
  pub used : ℕ
  pub candidate : Candidate
  pub progress : List Text

-- A transfer of bytes: `none` if all pass, else how many do before the error.
abbrev pub Transfer : Type 0
Transfer = Option (ℕ × Error)

-- An answer of the upstream, each header with its first value.
pub record Upstream : Type 0 where
  pub status : ℕ
  pub headers : Map Text
  pub body : Text

-- The answers of the system to one call: `ended` is the context's error, `temp` the random part
-- of a new file name, `open`, `closing` and `slot` the errors of those steps, `copy` the transfer
-- of file or network bytes, and `fetch` the upstream's answer to the request that is sent.
pub record Io : Type 0 where
  pub ended : Option Error
  pub temp : Result Text
  pub opening : Option Error
  pub closing : Option Error
  pub slot : Option Error
  pub copy : Transfer
  pub fetch : Text → Text → Map Text → Text → Option Upstream

-- The response of a call and its error.
abbrev pub Reply : Type 0
Reply = Response × Option Error

abbrev pub refuse : Error → Host → Reply × Host
refuse e h = ((no_response, some e), h)

abbrev pub answer : Response → Host → Reply × Host
answer r h = ((r, none), h)

-- The bytes of a file that is there.
unfoldable pub content : Host → Text → Option Text
content h p = elim (lookup p h.staged) [
  | some bytes ↦ some bytes
  | none ↦ elim (h.tree p) [
    | none ↦ none
    | some irregular ↦ none
    | some (regular bytes) ↦ some bytes
  ]
]

-- Whether a name is taken.
unfoldable pub is_taken : Host → Text → Bool
is_taken h p = has p h.staged || elim (h.tree p) [ none ↦ false | some node ↦ true ]

unfoldable pub index_entries : List Entry → Map Entry → Map Entry
index_entries [] m = m
index_entries (e ∷ es) m = index_entries es (insert e.path e m)

-- `Previous`: where the committed revision lies and what the catalog records of it.
pub record Previous : Type 0 where
  pub files : Text
  pub artifacts : Text
  pub entries : List Entry
  pub artifact_entries : List Entry

abbrev pub no_candidate : Candidate
no_candidate = record { files = []; artifacts = []; deletes = [] }

-- `NewHost`, over the files that are there.
unfoldable pub new_host : ℕ → List Text → Descriptor → Text → Previous → (Text → Option Node) → Host
unfolding index_entries
new_host staging_bytes source_hosts descriptor dir prev tree = record {
  staging_bytes = staging_bytes;
  source_hosts = source_hosts;
  descriptor = descriptor;
  dir = dir;
  previous = prev.files;
  previous_artifacts = prev.artifacts;
  entries = sort (λ a b. lt_text a.path b.path) prev.entries;
  index = index_entries prev.entries [];
  artifact_index = index_entries prev.artifact_entries [];
  tree = tree;
  staged = [];
  objects = [];
  used = 0;
  candidate = no_candidate;
  progress = [];
}
