-- ===== src/Inventory/Owner.antt =====
-- The group that the inventory attributes an instance to, and the one `GroupForInstanceName` finds.
use ens_provider.Prelude.{
  ◌≡◌, refl, Option, none, some, List, [], ◌∷◌, Str, length, ℤ, pos, negsuc, arith,
}
use ens_provider.Config.{Config, Group, is_better_owner, owner_loop, group_for_instance_name}
use ens_provider.Inventory.{region_owner_loop, region_owner}

-- The id of the owner so far, and the length of its prefix, as describeRegion keeps them.
abbrev pub owner_id : Option Group → Str
owner_id none = []
owner_id (some g) = g.id

abbrev owner_length : Option Group → ℤ
owner_length none = negsuc 0
owner_length (some g) = pos (length g.name_prefix)

region_owner_loop-eq :
    (name : Str) (o : Option Group) (gs : List Group)
    → region_owner_loop name (owner_id o) (owner_length o) gs ≡ owner_id (owner_loop name o gs)
unfolding region_owner_loop owner_loop is_better_owner
region_owner_loop-eq name o [] = refl
region_owner_loop-eq name none (c ∷ gs) =
    ground (arith, region_owner_loop-eq name (some c) gs, region_owner_loop-eq name none gs)
region_owner_loop-eq name (some o) (c ∷ gs) =
    ground (arith, region_owner_loop-eq name (some c) gs, region_owner_loop-eq name (some o) gs)

-- The read path (describeRegion) and the delete path (GroupForInstanceName) agree on the owner of
-- every instance name, whatever the groups; no owner is the empty id.
pub region_owner-group_for_instance_name :
    (c : Config) (name : Str) → region_owner c name ≡ owner_id (group_for_instance_name c name)
unfolding region_owner group_for_instance_name
region_owner-group_for_instance_name c name = region_owner_loop-eq name none c.groups
