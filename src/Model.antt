-- ===== src/Model.antt =====
-- Revisions, changes and runs (internal/model/model.go). A status is one of the texts that the
-- program writes, a time is a number of nanoseconds.
use crawlbox.Common.{ℕ, Bool, true, false, Option, List, Text}
use crawlbox.Wire.{Entry, Descriptor}

pub data Kind : Type 0 where
  added modified deleted : Kind

pub record Change : Type 0 where
  pub path : Text
  pub kind : Kind
  pub before : Text
  pub after : Text

pub record Revision : Type 0 where
  pub id : Text
  pub run : Text
  pub source : Text
  pub parent : Text
  pub created_at : ℕ
  pub plugin : Descriptor
  pub state : Text
  pub metadata : Text
  pub files : List Entry
  pub artifacts : List Entry
  pub changes : List Change
  pub tags : List Text
  pub artifact_changes : List Change
  pub snapshot : Text

pub data Status : Type 0 where
  queued running validating snapshotting committing : Status
  succeeded no_change failed interrupted : Status

pub record Run : Type 0 where
  pub message : Text
  pub id : Text
  pub source : Text
  pub status : Status
  pub progress : Text
  pub error : Text
  pub started : ℕ
  pub finished : Option ℕ

-- The statuses that the list in `InterruptRuns` names: a run that has not ended.
unfoldable pub is_active : Status → Bool
is_active queued = true
is_active running = true
is_active validating = true
is_active snapshotting = true
is_active committing = true
is_active _ = false
