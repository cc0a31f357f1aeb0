-- ===== src/Web/Pages/Walk.antt =====
-- Walking through a listing page by page.
use crawlbox.Common.{
  ℕ, zero, suc, ◌+◌, ◌-◌, ◌≤◌, ◌<◌, min, ◌≡◌, refl, sym, ap, ◌∙◌, Bool, true, false, List, [], ◌++◌,
  length, take, drop, take-all, length-take, length-drop, take-append-drop, drop-drop, arith, leb,
  leb→le, ap₂, if◌then◌else◌,
}
use crawlbox.Web.Pages.{page_at}

-- A client that asks for pages of one size, from the offset on and while there is more, at most
-- `fuel` times.
abbrev pub walk : {A : Type 0} → ℕ → ℕ → ℕ → List A → List A
walk zero limit offset entries = []
walk (suc fuel) limit offset entries =
    let p = page_at offset limit entries in
    let rest = walk fuel limit p.next_offset entries in
    if leb p.total p.next_offset then p.entries else p.entries ++ rest

-- A page within the listing: where it ends, and what it has.
page-next :
    {A : Type 0} (off limit : ℕ) (entries : List A)
    → off ≤ length entries
    → (page_at off limit entries).next_offset ≡ min (off + limit) (length entries)
unfolding page_at
page-next off limit entries h = ap (λ o. min (o + limit) (length entries)) (omega (arith, h))

page-entries :
    {A : Type 0} (off limit : ℕ) (entries : List A)
    → off ≤ length entries
    → (page_at off limit entries).entries
      ≡ take (min (off + limit) (length entries) - off) (drop off entries)
unfolding page_at
page-entries off limit entries h =
    ap (λ o. take (min (o + limit) (length entries) - o) (drop o entries)) (omega (arith, h))

page-length :
    {A : Type 0} (off limit : ℕ) (entries : List A)
    → length (page_at off limit entries).entries ≤ limit
unfolding page_at
page-length off limit entries =
    let o = min off (length entries) in
    let end = min (o + limit) (length entries) in
    omega (arith, length-take (end - o) (drop o entries))

page-total :
    {A : Type 0} (off limit : ℕ) (entries : List A)
    → (page_at off limit entries).total ≡ length entries
unfolding page_at
page-total off limit entries = refl

leb-false : (a b : ℕ) → leb a b ≡ false → b < a
leb-false a b h = ground arith

page-reached :
    {A : Type 0} (off limit : ℕ) (entries : List A)
    → off ≤ length entries
    → leb (page_at off limit entries).total (page_at off limit entries).next_offset ≡ true
    → length entries ≤ min (off + limit) (length entries)
page-reached off limit entries within e =
    let h = leb→le (page_at off limit entries).total (page_at off limit entries).next_offset e in
    omega (arith, h, page-total off limit entries, page-next off limit entries within)

page-short :
    {A : Type 0} (off limit : ℕ) (entries : List A)
    → off ≤ length entries
    → leb (page_at off limit entries).total (page_at off limit entries).next_offset ≡ false
    → min (off + limit) (length entries) < length entries
page-short off limit entries within e =
    let h = leb-false (page_at off limit entries).total (page_at off limit entries).next_offset e in
    omega (arith, h, page-total off limit entries, page-next off limit entries within)

walk-drop :
    {A : Type 0} (fuel limit off : ℕ) (entries : List A)
    → 1 ≤ limit
    → off ≤ length entries
    → length entries - off < fuel
    → walk fuel limit off entries ≡ drop off entries
walk-drop {A = A} zero limit off entries one within h = absurd (omega (arith, h))
walk-drop {A = A} (suc fuel) limit off entries one within h =
    by_end (leb (page_at off limit entries).total (page_at off limit entries).next_offset) refl
      (λ o. walk-drop fuel limit o entries one)
  where
    end : ℕ
    end = min (off + limit) (length entries)

    by_end :
        (b : Bool)
        → leb (page_at off limit entries).total (page_at off limit entries).next_offset ≡ b
        → ((o : ℕ)
            → o ≤ length entries
            → length entries - o < fuel
            → walk fuel limit o entries ≡ drop o entries)
        → (if b
            then (page_at off limit entries).entries
            else (page_at off limit entries).entries
              ++ walk fuel limit (page_at off limit entries).next_offset entries)
          ≡ drop off entries
    by_end true e later =
        let reached : length entries ≤ end = page-reached off limit entries within e in
        page-entries off limit entries within
        ∙ take-all (end - off) (drop off entries) (omega (arith, length-drop off entries, reached))
    by_end false e later =
        let short : end < length entries = page-short off limit entries within e in
        let next : (page_at off limit entries).next_offset ≡ off + limit =
          page-next off limit entries within ∙ omega (arith, short) in
        let size : end - off ≡ limit = omega (arith, short) in
        ap₂ (λ (xs ys : List A). xs ++ ys)
          (page-entries off limit entries within ∙ ap (λ n. take n (drop off entries)) size)
          (ap (λ o. walk fuel limit o entries) next
            ∙ later (off + limit) (omega (arith, short)) (omega (arith, short, h, one))
            ∙ sym (drop-drop limit off entries))
        ∙ take-append-drop limit (drop off entries)

-- A client that asks for the pages of a listing from the start, each of the same size of at least
-- one and at the offset that the page before it gave, gets the whole listing in order after at
-- most one request more than there are entries; and no page is longer than it asked for.
pub walk-page_at :
    {A : Type 0} (limit offset : ℕ) (entries : List A)
    → 1 ≤ limit
    → (walk (suc (length entries)) limit 0 entries ≡ entries)
      × (length (page_at offset limit entries).entries ≤ limit)
walk-page_at limit offset entries one = (
  walk-drop (suc (length entries)) limit 0 entries one (omega arith) (omega arith),
  page-length offset limit entries,
)
