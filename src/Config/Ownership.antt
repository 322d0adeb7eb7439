-- ===== src/Config/Ownership.antt =====
-- Which group owns an instance name (`GroupForInstanceName`).
use ens_provider.Prelude.{
  ◌≤◌, ◌≡◌, ◌≢◌, ◌⊎◌, inl, inr, true, false, Option, none, some, List, [], ◌∷◌, Str, length, In,
  has_prefix, arith, if◌then◌else◌,
}
use ens_provider.Config.{Config, Group, is_better_owner, owner_loop, group_for_instance_name}

-- A group of the list whose prefix fits, and is the longest that fits.
pub record IsOwner (groups : List Group) (name : Str) (g : Group) : Type 0 where
  pub listed : In g groups
  pub prefixed : has_prefix name g.name_prefix ≡ true
  pub longest :
      (h : Group)
      → In h groups
      → has_prefix name h.name_prefix ≡ true
      → length h.name_prefix ≤ length g.name_prefix

-- The owner found is the one given, or a listed group with a fitting prefix.
owner_loop_sound :
    (name : Str) (o : Option Group) (gs : List Group) (g : Group)
    → owner_loop name o gs ≡ some g
    → (o ≡ some g) ⊎ (In g gs × (has_prefix name g.name_prefix ≡ true))
unfolding owner_loop is_better_owner
owner_loop_sound name o [] g e = inl e
owner_loop_sound name o (c ∷ gs) g e =
    ground (arith, owner_loop_sound name (if is_better_owner name o c then some c else o) gs g)

-- The owner found is no shorter than the one given.
owner_loop_grows :
    (name : Str) (o : Group) (gs : List Group) (g : Group)
    → owner_loop name (some o) gs ≡ some g
    → length o.name_prefix ≤ length g.name_prefix
unfolding owner_loop is_better_owner
owner_loop_grows name o [] g e = ground arith
owner_loop_grows name o (c ∷ gs) g e =
    ground (arith, owner_loop_grows name o gs g, owner_loop_grows name c gs g)

owner_loop-ne-none : (name : Str) (o : Group) (gs : List Group) → owner_loop name (some o) gs ≢ none
unfolding owner_loop is_better_owner
owner_loop-ne-none name o [] = cc
owner_loop-ne-none name o (c ∷ gs) =
    ground (arith, owner_loop-ne-none name o gs, owner_loop-ne-none name c gs)

-- The owner found is no shorter than the first candidate that fits.
owner_loop_first :
    (name : Str) (o : Option Group) (c : Group) (gs : List Group) (g : Group)
    → owner_loop name o (c ∷ gs) ≡ some g
    → has_prefix name c.name_prefix ≡ true
    → length c.name_prefix ≤ length g.name_prefix
unfolding owner_loop is_better_owner
owner_loop_first name none c gs g e fits = ground (arith, owner_loop_grows name c gs g)
owner_loop_first name (some o) c gs g e fits =
    ground (arith, owner_loop_grows name c gs g, owner_loop_grows name o gs g)

owner_loop_longest :
    (name : Str) (o : Option Group) (gs : List Group) (g h : Group)
    → owner_loop name o gs ≡ some g
    → In h gs
    → has_prefix name h.name_prefix ≡ true
    → length h.name_prefix ≤ length g.name_prefix
unfolding owner_loop is_better_owner
owner_loop_longest name o [] g h e m fits = absurd m
owner_loop_longest name o (c ∷ gs) g h e (inl p) fits =
    rw p (owner_loop_first name o c gs g e (rw p at fits))
owner_loop_longest name o (c ∷ gs) g h e (inr later) fits =
    owner_loop_longest name (if is_better_owner name o c then some c else o) gs g h e later fits

owner_loop-none :
    (name : Str) (o : Option Group) (gs : List Group) (h : Group)
    → owner_loop name o gs ≡ none
    → In h gs
    → has_prefix name h.name_prefix ≡ false
unfolding owner_loop is_better_owner
owner_loop-none name o [] h e m = absurd m
owner_loop-none name o (c ∷ gs) h e (inr later) =
    owner_loop-none name (if is_better_owner name o c then some c else o) gs h e later
owner_loop-none name none (c ∷ gs) h e (inl p) = rw p (ground (arith, owner_loop-ne-none name c gs))
owner_loop-none name (some o) (c ∷ gs) h e (inl p) = absurd (owner_loop-ne-none name o (c ∷ gs) e)

-- The group found owns the name: it is listed, its prefix fits, and no listed prefix that fits is
-- longer. Where no group is found, no listed prefix fits.
pub group_for_instance_name-IsOwner :
    (c : Config) (name : Str)
    → ((g : Group) → group_for_instance_name c name ≡ some g → IsOwner c.groups name g)
      × (group_for_instance_name c name ≡ none
          → (h : Group) → In h c.groups
          → has_prefix name h.name_prefix ≡ false)
unfolding group_for_instance_name
group_for_instance_name-IsOwner c name = (
  λ g e. record {
    listed = ground (arith, owner_loop_sound name none c.groups g);
    prefixed = ground (arith, owner_loop_sound name none c.groups g);
    longest = λ h. owner_loop_longest name none c.groups g h e;
  },
  λ e h. owner_loop-none name none c.groups h e,
)
