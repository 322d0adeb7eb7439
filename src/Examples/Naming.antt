-- ===== src/Examples/Naming.antt =====
-- Examples of provider ids, owners of names, and scrubbed texts.
use ens_provider.Prelude.{ℕ, arith, false, ◌||◌, ◌==◌, ◌≡◌, refl, ◌↔◌, true, ◌∷◌, ◌++◌, codes}
use ens_provider.Config.{
  provider_id, strict_edge_instance_id, is_ens_instance_id, group_for_instance_name,
}
use ens_provider.Config.Ids.{strict-exact}
use ens_provider.Errors.{sanitize_err}
use ens_provider.Errors.Scrub.{IsUrlByte, sanitize_err-independent}
use ens_provider.Inventory.{region_owner}
use ens_provider.Inventory.Owner.{owner_id, region_owner-group_for_instance_name}
use ens_provider.Examples.Data.{cfg}

strict-exact_example : (strict_edge_instance_id cfg (codes "cn-1.i-1") ≡ codes "i-1") ↔ (
    (codes "cn-1.i-1" ≡ provider_id cfg (codes "i-1")) × (is_ens_instance_id (codes "i-1") ≡ true))
strict-exact_example = strict-exact cfg (codes "cn-1.i-1") (codes "i-1") (λ e. cc e)

region_owner-group_for_instance_name_example :
    region_owner cfg (codes "as-web-7") ≡ owner_id (group_for_instance_name cfg (codes "as-web-7"))
region_owner-group_for_instance_name_example =
    region_owner-group_for_instance_name cfg (codes "as-web-7")

url_byte :
    (c : ℕ) → (c == 34 || c == 32 || c == 9 || c == 10 || c == 12 || c == 13) ≡ false → IsUrlByte c
url_byte c h = (ground arith, ground arith, ground arith, ground arith, ground arith, ground arith)

sanitize_err-independent_example :
    sanitize_err (codes "Post x" ++ b'?' ∷ (codes "k=1" ++ codes " failed"))
    ≡ sanitize_err (codes "Post x" ++ b'?' ∷ (codes "q" ++ codes " failed"))
sanitize_err-independent_example =
    sanitize_err-independent (codes "Post x") (codes "k=1") (codes "q") (codes " failed")
      (url_byte 107 refl, (url_byte 61 refl, (url_byte 49 refl, tt))) (url_byte 113 refl, tt)
