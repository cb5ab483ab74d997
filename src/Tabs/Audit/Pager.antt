-- ===== src/Tabs/Audit/Pager.antt =====
-- The pager moves by whole pages, and there is always a way back to the first page.
use procovar_notify.Prelude.{
  ℕ, suc, ◌-◌, ◌*◌, ◌≡◌, refl, ap, sym, ◌∙◌, List, [], ◌∷◌, arith, Bool-cases, inl, inr, ◌&&◌,
}
use procovar_notify.Tabs.Audit.{
  page, Click, previous, next, shows_pager, can_previous, can_next, click, clicks,
}

-- A click changes the number of the page by one, or not at all.
click-pages : (rows : ℕ) (c : Click) (k : ℕ) → (m : ℕ) × (click rows c (page * k) ≡ page * m)
unfolding click
click-pages rows previous k =
    elim (Bool-cases (shows_pager rows (page * k) && can_previous (page * k))) [
      | inl b ↦ (k - 1, rw b (omega arith))
      | inr b ↦ (k, rw b refl)
    ]
click-pages rows next k = elim (Bool-cases (shows_pager rows (page * k) && can_next rows)) [
  | inl b ↦ (suc k, rw b (omega arith))
  | inr b ↦ (k, rw b refl)
]

clicks-pages : (cs : List (ℕ × Click)) (k : ℕ) → (m : ℕ) × (clicks cs (page * k) ≡ page * m)
unfolding clicks
clicks-pages [] k = (k, refl)
clicks-pages ((rows, c) ∷ cs) k =
    let (m, e) = click-pages rows c k in let (j, f) = clicks-pages cs m in (j, rw e f)

-- The way back: a click on the previous page for each number of rows.
abbrev pub back : List ℕ → List (ℕ × Click)
back [] = []
back (rows ∷ rs) = (rows, previous) ∷ back rs

click_back : (rows k : ℕ) → click rows previous (page * suc k) ≡ page * k
unfolding click shows_pager can_previous
click_back rows k = ground arith

abbrev pub count : List ℕ → ℕ
count [] = 0
count (r ∷ rs) = suc (count rs)

back_pages : (rs : List ℕ) → clicks (back rs) (page * count rs) ≡ 0
unfolding clicks
back_pages [] = refl
back_pages (rows ∷ rs) = ap (clicks (back rs)) (click_back rows (count rs)) ∙ back_pages rs

-- Whatever was clicked from the first page on, the offset is a whole number of pages, and as many
-- clicks on the previous page lead back to the first page, whatever rows those pages have: the
-- button is there and enabled each time.
pub clicks-back :
    (cs : List (ℕ × Click))
    → (k : ℕ) × (clicks cs 0 ≡ page * k)
      × ((rs : List ℕ) → count rs ≡ k → clicks (back rs) (clicks cs 0) ≡ 0)
clicks-back cs = let (k, e) = clicks-pages cs 0 in (k, e, λ rs p. rw (e, sym p) (back_pages rs))
