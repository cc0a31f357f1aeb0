-- ===== src/Wire.antt =====
-- The messages between the manager and a plugin (internal/wire/wire.go). Raw JSON is text; a
-- size is what the system reports for a file, so it is a natural number.
use crawlbox.Common.{ℕ, Bool, List, [], Map, Text, ◌==◌, ◌&&◌, ◌^◌, eq_text}
use crawlbox.Common.Int.{ℤ}

abbrev pub abi : ℕ
abi = 1

abbrev pub chunk : ℕ
chunk = 2 ^ 20

pub record Descriptor : Type 0 where
  pub id : Text
  pub version : Text
  pub abi : ℕ
  pub hosts : List Text
  pub config_schema : Text

pub record Input : Type 0 where
  pub abi : ℕ
  pub source : Text
  pub run : Text
  pub config : Text
  pub state : Text
  pub previous_revision : Text

pub record Entry : Type 0 where
  pub path : Text
  pub size : ℕ
  pub sha256 : Text

-- Go's `==` on two entries.
unfoldable pub eq_entry : Entry → Entry → Bool
eq_entry a b = eq_text a.path b.path && (a.size == b.size && eq_text a.sha256 b.sha256)

-- The operations by name; `other` is any other text.
pub data Op : Type 0 where
  progress http create previous_file previous_artifact list_files delete_file : Op
  write close read stat publish_file publish_artifact other : Op

pub record Request : Type 0 where
  pub op : Op
  pub path : Text
  pub handle : Text
  pub content : Text  -- `data`
  pub offset : ℤ
  pub limit : ℤ
  pub url : Text
  pub method : Text
  pub headers : Map Text
  pub body : Text

pub record Response : Type 0 where
  pub handle : Text
  pub content : Text
  pub size : ℕ
  pub sha256 : Text
  pub status : ℕ
  pub headers : Map Text
  pub entries : List Entry

pub data ResultStatus : Type 0 where
  candidate no_change : ResultStatus

abbrev pub no_response : Response
no_response = record {
  handle = [];
  content = [];
  size = 0;
  sha256 = [];
  status = 0;
  headers = [];
  entries = [];
}

-- What a plugin returns from `run`.
pub record Result : Type 0 where
  pub message : Text
  pub status : ResultStatus
  pub tags : List Text
  pub state : Text
  pub metadata : Text
