-- ===== src/Web/Overview/Paging.antt =====
-- The pages of the list of runs.
use crawlbox.Common.{ℕ, ◌+◌, ◌-◌, ◌/◌, ◌≤◌, ◌<◌, ◌≡◌, ap, ◌∙◌, Text, Option, none, some, arith}
use crawlbox.Common.Int.{ℤ, pos}
use crawlbox.Web.Pages.{atoi}
use crawlbox.Web.Overview.{asked_page, page_numbers, page_offset}

asked-one : (o : Option ℤ) → 1 ≤ asked_page o
asked-one none = omega arith
asked-one (some n) = omega arith

asked-at :
    (query : Text) (k : ℕ) → atoi query ≡ some (pos (k + 1)) → asked_page (atoi query) ≡ k + 1
asked-at query k h = ap asked_page h ∙ omega arith

-- Whatever is asked for, the page is one of the pages, and it starts within the runs, or at 0 if
-- there are none.
pub page_numbers_bounded :
    (query : Text) (total : ℕ)
    → let n = page_numbers query total in
      (1 ≤ n.number) × (n.number ≤ n.pages) × (page_offset n ≤ total - 1)
unfolding page_numbers
page_numbers_bounded query total =
    let one = asked-one (atoi query) in (omega (arith, one), omega (arith, one), omega (arith, one))

-- Every run stands on the page that its place says: if the text asks for page `i / 20 + 1`, the
-- page has the run at place `i`.
pub page_numbers_cover :
    (query : Text) (total i : ℕ)
    → i < total
    → atoi query ≡ some (pos (i / 20 + 1))
    → let n = page_numbers query total in (page_offset n ≤ i) × (i < page_offset n + 20)
unfolding page_numbers
page_numbers_cover query total i h asked =
    let at_page = asked-at query (i / 20) asked in
    (omega (arith, h, at_page), omega (arith, h, at_page))
