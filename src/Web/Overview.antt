-- ===== src/Web/Overview.antt =====
-- What `render` of internal/web/web.go computes for the administrator's pages, with `runMessage`.
-- The rendering itself is left out.
pub mod Paging
use crawlbox.Common.{
  ℕ, ◌+◌, ◌-◌, ◌*◌, ◌/◌, ◌%◌, ◌==◌, leb, ltb, min, max, Bool, true, false, not, ◌||◌, Option, none,
  some, List, [], ◌∷◌, ◌++◌, Map, Text, eq_text, lookup, codes, utf8, length, take, drop, map,
  if◌then◌else◌,
}
use crawlbox.Common.Int.{ℤ, pos, negsuc, to_ℕ}
use crawlbox.Model.{Run, Status, queued, succeeded, no_change, failed, interrupted, is_active}
use crawlbox.Catalog.Db.{Token}
use crawlbox.Catalog.Tokens.{is_expired}
use crawlbox.App.Control.{App, can_cancel}
use crawlbox.App.Perform.Finish.{cancellation_requested}
use crawlbox.Web.Pages.{atoi}

-- `runMessage`: the message of a result takes the place of the last progress.
unfoldable pub run_message : Run → Text
run_message r = elim r.status [
  | succeeded ↦ utf8 "采集成功，已发布新版本。"
  | no_change ↦ utf8 "检查完成，无变化。"
  | failed ↦ utf8 "任务失败，请查看错误详情。"
  | interrupted ↦ utf8 "任务已中断。"
  | _ ↦ r.progress
]

-- `pageSize`
abbrev pub page_size : ℕ
page_size = 20

-- The pages of the list of runs: 0 stands for no previous or next page.
pub record Numbers : Type 0 where
  pub number : ℕ
  pub pages : ℕ
  pub total : ℕ
  pub previous : ℕ
  pub next : ℕ

-- `max(number, 1)`, where a text that is no number counts as 1.
abbrev pub asked_page : Option ℤ → ℕ
asked_page none = 1
asked_page (some n) = max (to_ℕ n) 1

abbrev pub numbers_at : ℕ → ℕ → ℕ → Numbers
numbers_at number pages total = record {
  number = number;
  pages = pages;
  total = total;
  previous = if ltb 1 number then number - 1 else 0;
  next = if ltb number pages then number + 1 else 0;
}

-- The page of the parameter "runs_page", of so many runs.
unfoldable pub page_numbers : Text → ℕ → Numbers
unfolding atoi
page_numbers query total =
    let pages = max 1 ((total + page_size - 1) / page_size) in
    numbers_at (min (asked_page (atoi query)) pages) pages total

-- `(pagination.Number-1)*pageSize`
abbrev pub page_offset : Numbers → ℕ
page_offset n = (n.number - 1) * page_size

-- `src`, without the time of the next run.
pub record SourceView : Type 0 where
  pub id : Text
  pub revision : Text
  pub status : Option Status
  pub progress : Text
  pub error : Text
  pub active : Bool

unfoldable pub latest_run : Text → List Run → Option Run
latest_run source [] = none
latest_run source (r ∷ rs) = if eq_text r.source source then some r else latest_run source rs

abbrev pub view_of : Text → Text → Option Run → SourceView
view_of id revision none = record {
  id = id;
  revision = revision;
  status = none;
  progress = [];
  error = [];
  active = false;
}
view_of id revision (some r) = record {
  id = id;
  revision = revision;
  status = some r.status;
  progress = run_message r;
  error = r.error;
  active = is_active r.status;
}

-- The view of a source, by the runs, newest first.
unfoldable pub source_view : Text → Text → List Run → SourceView
unfolding run_message is_active latest_run
source_view id revision runs = view_of id revision (latest_run id runs)

pub record RunView : Type 0 where
  pub run : Run
  pub can_cancel : Bool
  pub stopping : Bool
  pub message : Text

unfoldable pub run_view : App → Run → RunView
unfolding run_message can_cancel cancellation_requested
run_view a r = record {
  run = r;
  can_cancel = can_cancel r.id a;
  stopping = cancellation_requested r.id a;
  message = run_message r;
}

pub data TokenStatus : Type 0 where
  active revoked expired : TokenStatus

unfoldable pub token_status : ℕ → Token → TokenStatus
unfolding is_expired
token_status now t =
    if t.revoked then revoked else if is_expired t.expires now then expired else active

-- `displayID`
unfoldable pub display_id : Text → Text
display_id id =
    if ltb 6 (length id)
    then take 3 id ++ codes "***" ++ drop (length id - 3) id ++ codes ".***"
    else codes "***.***"
