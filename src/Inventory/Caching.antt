-- ===== src/Inventory/Caching.antt =====
-- When the inventory is served from the cache.
use ens_provider.Prelude.{
  ◌≡◌, ◌≢◌, refl, ◌↔◌, Bool, true, false, none, some, List, [], ◌∷◌, ℤ, ◌-ℤ◌, ◌<ℤ◌, int64, scale,
  arith,
}
use ens_provider.Config.{Config}
use ens_provider.Inventory.{
  Instance, ok, Cache, invalidate_cache, slice, second, fresh, store_fetch,
}

-- After a fetch, a call that is not forced is served from the cache exactly while the fetch is younger
-- than the time to live, as a 64-bit number of nanoseconds, and it found an instance: an inventory with no instance is never served, so
-- that every call of a region without instances asks ENS. A forced call is never served, nor is any
-- call after an invalidation.
pub fresh-store_fetch :
    (cfg : Config) (at now : ℤ) (c : Cache) (owned out : List Instance)
    → let c' = (store_fetch at c (ok owned)).0 in
      ((fresh cfg false now c' ≡ some out) ↔ (
        (out ≡ owned)
        × (owned ≢ [])
        × (now -ℤ at <ℤ int64 (scale cfg.describe_ttl_seconds second))))
      × (fresh cfg true now c' ≡ none)
      × ((force : Bool) → fresh cfg force now (invalidate_cache c') ≡ none)
unfolding fresh store_fetch slice invalidate_cache
fresh-store_fetch cfg at now c [] out = ((λ e. cc, λ (a, b, d). absurd (b refl)), refl, λ f. refl)
fresh-store_fetch cfg at now c (i ∷ owned) out = (
  (λ e. (ground arith, λ z. cc z, ground arith), λ (a, b, d). ground (arith, a, d)),
  refl,
  λ f. ground arith,
)
