-- ===== src/Inventory/Paging.antt =====
-- When the paging of the inventory ends.
use ens_provider.Prelude.{
  ℕ, zero, suc, ◌+◌, ◌*◌, ◌≤◌, ◌<◌, ◌≡◌, refl, inl, inr, false, Option, none, some, List, ℤ, pos,
  ◌≤ℤ◌, leb_ℤ, int32, int32_pos, arith, Bool-cases,
}
use ens_provider.Config.{Config}
use ens_provider.Inventory.{
  Instance, Answer, ok, err, Page, int32_value, PageStep, failed, last, more, page_step,
  fetch_pages,
}

-- The paging goes on only where the page's count is above what was read.
page_step-more :
    (cfg : Config) (owned owned' : List Instance) (page : ℕ) (a : Answer (Option Page))
    → page_step cfg owned page a ≡ more owned'
    → (body : Page) × (a ≡ ok (some body))
      × (leb_ℤ (int32_value body.total_count) (int32 (pos (page * 100))) ≡ false)
unfolding page_step
page_step-more cfg owned owned' page (err e) h = cc
page_step-more cfg owned owned' page (ok none) h = cc
page_step-more cfg owned owned' page (ok (some body)) h =
    elim (Bool-cases (leb_ℤ (int32_value body.total_count) (int32 (pos (page * 100))))) [
      | inl p ↦ cc (rw p at h)
      | inr p ↦ (body, refl, p)
    ]

more_left :
    (total page fuel : ℕ) (count : ℤ)
    → leb_ℤ count (int32 (pos (page * 100))) ≡ false
    → count ≤ℤ pos total
    → (page + fuel) * 100 < 2147483648
    → page * 100 < total
more_left total page fuel count h le wrap =
    let small : page * 100 < 2147483648 = omega (arith, wrap) in
    let e = int32_pos (page * 100) small in let h' = rw e at h in ground (arith, h', le)

one_page :
    (cfg : Config) (describe : ℕ → Answer (Option Page)) (total left page : ℕ)
    (owned : List Instance)
    → ((k : ℕ) (body : Page)
        → describe k ≡ ok (some body)
        → int32_value body.total_count ≤ℤ pos total)
    → (page + left) * 100 < 2147483648
    → ((owned' : List Instance)
        → page * 100 < total
        → (answer : Answer (List Instance)) × (fetch_pages cfg describe left (page + 1) owned'
            ≡ some answer))
    → (s : PageStep) → page_step cfg owned page (describe page) ≡ s
    → (answer : Answer (List Instance)) × ((elim s [
      | failed e ↦ some (err e)
      | last owned' ↦ some (ok owned')
      | more owned' ↦ fetch_pages cfg describe left (page + 1) owned'
    ])
        ≡ some answer)
one_page cfg describe total left page owned bound wrap next (failed e) p = (err e, refl)
one_page cfg describe total left page owned bound wrap next (last owned') p = (ok owned', refl)
one_page cfg describe total left page owned bound wrap next (more owned') p =
    let (body, asked, above) = page_step-more cfg owned owned' page (describe page) p in
    next owned'
      (more_left total page left (int32_value body.total_count) above (bound page body asked) wrap)

-- Where ENS never counts more than `total` instances, the paging from page `page` ends within any
-- number of pages that reaches that count, provided the page numbers stay below the 32-bit wrap of
-- their hundredfold.
pub fetch_pages-total :
    (cfg : Config) (describe : ℕ → Answer (Option Page)) (total fuel page : ℕ)
    (owned : List Instance)
    → ((k : ℕ) (body : Page)
        → describe k ≡ ok (some body)
        → int32_value body.total_count ≤ℤ pos total)
    → total ≤ (page + fuel) * 100
    → (page + fuel) * 100 < 2147483648
    → (answer : Answer (List Instance)) × (fetch_pages cfg describe (suc fuel) page owned
        ≡ some answer)
unfolding fetch_pages
fetch_pages-total cfg describe total zero page owned bound reach wrap =
    one_page cfg describe total zero page owned bound wrap
      (λ owned' less. absurd (omega (arith, less, reach)))
      (page_step cfg owned page (describe page)) refl
fetch_pages-total cfg describe total (suc fuel) page owned bound reach wrap =
    one_page cfg describe total (suc fuel) page owned bound wrap
      (λ owned' less.
        fetch_pages-total cfg describe total fuel (page + 1) owned' bound (omega (arith, reach))
          (omega (arith, wrap)))
      (page_step cfg owned page (describe page)) refl
