-- ===== src/Examples/Listing.antt =====
-- Examples of the inventory, its cache, the expiry of a reservation and the identities of Nodes.
use ens_provider.Prelude.{
  ℕ, ◌≡◌, ◌≢◌, ◌↔◌, true, false, Bool, Option, none, some, List, [], ◌∷◌, pos, ◌-ℤ◌, ◌≤ℤ◌, ◌<ℤ◌,
  scale, arith,
}
use ens_provider.Inventory.{
  Instance, Page, Answer, ok, Cache, invalidate_cache, second, fresh, store_fetch, fetch_pages,
  int32_value,
}
use ens_provider.Inventory.Caching.{fresh-store_fetch}
use ens_provider.Inventory.Paging.{fetch_pages-total}
use ens_provider.Reservation.{OrderReservation}
use ens_provider.Examples.Data.{cfg, web1}

abbrev empty_cache : Cache
empty_cache = record { cached = none; cache_at = none }

fresh-store_fetch_example :
    let c' = (store_fetch (pos 0) empty_cache (ok (web1 ∷ []))).0 in
    ((fresh cfg false (pos 5) c' ≡ some (web1 ∷ [])) ↔ (
      (web1 ∷ [] ≡ web1 ∷ [])
      × (web1 ∷ [] ≢ [])
      × (pos 5 -ℤ pos 0 <ℤ scale cfg.describe_ttl_seconds second)))
    × (fresh cfg true (pos 5) c' ≡ none)
    × ((force : Bool) → fresh cfg force (pos 5) (invalidate_cache c') ≡ none)
unfolding scale ens_provider.Prelude.int64
fresh-store_fetch_example =
    fresh-store_fetch cfg (pos 0) (pos 5) empty_cache (web1 ∷ []) (web1 ∷ [])

-- 150 instances in all.
abbrev describe : ℕ → Answer (Option Page)
describe k = ok (some (record { instances = []; total_count = some (pos 150) }))

describe_bound :
    (k : ℕ) (body : Page) → describe k ≡ ok (some body) → int32_value body.total_count ≤ℤ pos 150
describe_bound k body e = ground arith

fetch_pages-total_example :
    (answer : Answer (List Instance)) × (fetch_pages cfg describe 2 1 [] ≡ some answer)
fetch_pages-total_example =
    fetch_pages-total cfg describe 150 1 1 [] describe_bound (omega arith) (omega arith)

abbrev old_order : OrderReservation
old_order = record { expected = pos 2; created = pos 0; misses = 1 }
