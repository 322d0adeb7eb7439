-- ===== src/Kube/Correlation.antt =====
-- Which provider ids the reconciliation writes, and what they make of the instances.
use ens_provider.Prelude.{
  ℕ, ◌≡◌, refl, ◌⊎◌, inl, inr, Bool, true, Option, none, some, List, [], ◌∷◌, Str, codes, is_empty,
  sym, subst, ◌∙◌, ◌≢◌, false, not, ◌&&◌, ◌||◌, str_eq, str_eq→eq, filter_by, In, arith, Bool-cases,
  Option-cases,
}
use ens_provider.Config.{Config, provider_id}
use ens_provider.Inventory.{Instance, ok}
use ens_provider.Janitor.{Address, Node}
use ens_provider.Kube.{
  by_ip, by_name, address_of, or_empty, or_else, instance_of_node, Patch, one_more, patch_found,
  patch_loop, patch_needed, reconcile_provider_ids,
}

is_full : (s : Str) → is_empty s ≡ false → s ≢ []
unfolding is_empty
is_full [] h = ground arith
is_full (c ∷ s) h = λ z. cc z

by_ip-In : (ip : Str) (owned : List Instance) (i : Instance) → by_ip ip owned ≡ some i → In i owned
unfolding by_ip
by_ip-In ip [] i h = cc
by_ip-In ip (o ∷ owned) i h = elim (Option-cases (by_ip ip owned)) [
  | inr (j, p) ↦ (let e = rw p at h in inr (by_ip-In ip owned i (ground (arith, p, e))))
  | inl p ↦ (let e = rw p at h in inl (ground arith))
]

by_name-In :
    (name : Str) (owned : List Instance) (i : Instance) → by_name name owned ≡ some i → In i owned
unfolding by_name
by_name-In name [] i h = cc
by_name-In name (o ∷ owned) i h = elim (Option-cases (by_name name owned)) [
  | inr (j, p) ↦ (let e = rw p at h in inr (by_name-In name owned i (ground (arith, p, e))))
  | inl p ↦ (let e = rw p at h in inl (ground arith))
]

-- The instance has an address of the Node of this kind, which is not empty.
abbrev pub SharesAddress : Str → Node → Instance → Type 0
SharesAddress kind n i =
    (a : Address) × In a n.addresses
    × (a.kind ≡ kind)
    × (a.address ≢ [])
    × ((i.private_ip ≡ a.address) ⊎ (i.public_ip ≡ a.address))

-- They are the same machine, by an address or by the name.
abbrev pub Correlates : Node → Instance → Type 0
Correlates n i =
    SharesAddress (codes "InternalIP") n i
    ⊎ (SharesAddress (codes "ExternalIP") n i ⊎ (i.name ≡ n.name))

has_address :
    (ip s t : Str)
    → ((not (is_empty s) && str_eq s ip) || (not (is_empty t) && str_eq t ip)) ≡ true
    → (ip ≢ []) × ((s ≡ ip) ⊎ (t ≡ ip))
has_address ip s t h = elim (Bool-cases (not (is_empty s) && str_eq s ip)) [
  | inl p ↦
      (let e = str_eq→eq s ip (ground (arith, p)) in
        let full : is_empty s ≡ false = ground (arith, p) in (λ z. is_full s full (e ∙ z), inl e))
  | inr p ↦
      (let q : (not (is_empty t) && str_eq t ip) ≡ true = ground (arith, p, h) in
        let e = str_eq→eq t ip (ground (arith, q)) in
        let full : is_empty t ≡ false = ground (arith, q) in (λ z. is_full t full (e ∙ z), inr e))
]

by_ip-address :
    (ip : Str) (owned : List Instance) (i : Instance)
    → by_ip ip owned ≡ some i
    → (ip ≢ []) × ((i.private_ip ≡ ip) ⊎ (i.public_ip ≡ ip))
unfolding by_ip
by_ip-address ip [] i h = cc
by_ip-address ip (o ∷ owned) i h = elim (Option-cases (by_ip ip owned)) [
  | inr (j, p) ↦ (let e = rw p at h in by_ip-address ip owned i (ground (arith, p, e)))
  | inl p ↦
      (let e = rw p at h in
        elim (Bool-cases (
          (not (is_empty o.private_ip) && str_eq o.private_ip ip)
          || (not (is_empty o.public_ip) && str_eq o.public_ip ip))) [
            | inl t ↦
                (let same : o ≡ i = ground (arith, e, t) in
                  subst (λ (k : Instance). (ip ≢ []) × ((k.private_ip ≡ ip) ⊎ (k.public_ip ≡ ip)))
                    same (has_address ip o.private_ip o.public_ip t))
            | inr f ↦ cc (rw f at e)
          ])
]

by_name-name :
    (name : Str) (owned : List Instance) (i : Instance)
    → by_name name owned ≡ some i
    → i.name ≡ name
unfolding by_name
by_name-name name [] i h = cc
by_name-name name (o ∷ owned) i h = elim (Option-cases (by_name name owned)) [
  | inr (j, p) ↦ (let e = rw p at h in by_name-name name owned i (ground (arith, p, e)))
  | inl p ↦
      (let e = rw p at h in
        elim (Bool-cases (str_eq o.name name)) [
          | inl t ↦
              (let same : o ≡ i = ground (arith, e, t) in
                subst (λ (k : Instance). k.name ≡ name) same (str_eq→eq o.name name t))
          | inr f ↦ cc (rw f at e)
        ])
]

address_of-In :
    (kind s : Str) (l : List Address)
    → address_of kind l ≡ some s
    → (a : Address) × In a l × (a.kind ≡ kind) × (a.address ≡ s)
unfolding address_of
address_of-In kind s [] h = cc
address_of-In kind s (a ∷ l) h = elim (Option-cases (address_of kind l)) [
  | inr (t, p) ↦
      (let e = rw p at h in
        let (b, listed, k, same) = address_of-In kind s l (ground (arith, p, e)) in
        (b, inr listed, k, same))
  | inl p ↦
      (let e = rw p at h in
        elim (Bool-cases (str_eq a.kind kind)) [
          | inl t ↦ (a, inl refl, str_eq→eq a.kind kind t, ground (arith, e, t))
          | inr f ↦ cc (rw f at e)
        ])
]

by_ip-SharesAddress :
    (kind : Str) (n : Node) (owned : List Instance) (i : Instance)
    → by_ip (or_empty (address_of kind n.addresses)) owned ≡ some i
    → SharesAddress kind n i
by_ip-SharesAddress kind n owned i h =
    let (full, shared) = by_ip-address (or_empty (address_of kind n.addresses)) owned i h in
    elim (Option-cases (address_of kind n.addresses)) [
      | inl p ↦ absurd (full (rw p refl))
      | inr (s, p) ↦
          (let (a, listed, k, same) = address_of-In kind s n.addresses p in
            let ip : or_empty (address_of kind n.addresses) ≡ a.address = rw p (sym same) in
            (
              a,
              listed,
              k,
              subst (λ t. t ≢ []) ip full,
              subst (λ t. (i.private_ip ≡ t) ⊎ (i.public_ip ≡ t)) ip shared,
            ))
    ]

or_else-cases :
    {A : Type 0} (a b : Option A) (x : A) → or_else a b ≡ some x → (a ≡ some x) ⊎ (b ≡ some x)
or_else-cases none b x h = inr h
or_else-cases (some a) b x h = inl h

instance_of_node-In :
    (owned : List Instance) (n : Node) (i : Instance)
    → instance_of_node owned n ≡ some i
    → In i owned
unfolding instance_of_node
instance_of_node-In owned n i h =
    let inner = or_empty (address_of (codes "InternalIP") n.addresses) in
    let outer = or_empty (address_of (codes "ExternalIP") n.addresses) in
    elim (or_else-cases (by_ip inner owned) (or_else (by_ip outer owned) (by_name n.name owned)) i
      h) [
        | inl a ↦ by_ip-In inner owned i a
        | inr b ↦ elim (or_else-cases (by_ip outer owned) (by_name n.name owned) i b) [
          | inl a ↦ by_ip-In outer owned i a
          | inr c ↦ by_name-In n.name owned i c
        ]
      ]

instance_of_node-Correlates :
    (owned : List Instance) (n : Node) (i : Instance)
    → instance_of_node owned n ≡ some i
    → Correlates n i
unfolding instance_of_node
instance_of_node-Correlates owned n i h =
    let inner = or_empty (address_of (codes "InternalIP") n.addresses) in
    let outer = or_empty (address_of (codes "ExternalIP") n.addresses) in
    elim (or_else-cases (by_ip inner owned) (or_else (by_ip outer owned) (by_name n.name owned)) i
      h) [
        | inl a ↦ inl (by_ip-SharesAddress (codes "InternalIP") n owned i a)
        | inr b ↦ elim (or_else-cases (by_ip outer owned) (by_name n.name owned) i b) [
          | inl a ↦ inr (inl (by_ip-SharesAddress (codes "ExternalIP") n owned i a))
          | inr c ↦ inr (inr (by_name-name n.name owned i c))
        ]
      ]

module _ (api : List Patch → Str → Bool) (cfg : Config) (nodes : List Node)
    (owned : List Instance) where
  -- A patch of a managed Node without an id, to the id of the owned instance that it correlates with.
  abbrev pub IsPatch : Patch → Type 0
  IsPatch p =
      (n : Node) × In n nodes
      × (n.name ≡ p.node)
      × (is_empty n.provider_id ≡ true)
      × (i : Instance) × In i owned
      × Correlates n i
      × (instance_of_node owned n ≡ some i)
      × (p.provider_id ≡ provider_id cfg i.id)

  abbrev pub AllPatches : List Patch → Type 0
  AllPatches [] = Unit
  AllPatches (p ∷ log) = IsPatch p × AllPatches log

  -- How many patches the API took.
  abbrev pub taken_count : List Patch → ℕ
  taken_count [] = 0
  taken_count (p ∷ log) = one_more p.taken (taken_count log)

  -- The Nodes still to come need an id.
  abbrev AllNeed : List Node → Type 0
  AllNeed [] = Unit
  AllNeed (n ∷ need) = (In n nodes × (is_empty n.provider_id ≡ true)) × AllNeed need

  patch_found-AllPatches :
      (n : Node) (log : List Patch) (patched : ℕ) (o : Option Instance)
      → instance_of_node owned n ≡ o
      → In n nodes × (is_empty n.provider_id ≡ true)
      → AllPatches log × (patched ≡ taken_count log)
      → let r = patch_found api cfg n log patched o in AllPatches r.0 × (r.1 ≡ taken_count r.0)
  unfolding patch_found
  patch_found-AllPatches n log patched none e need h = h
  patch_found-AllPatches n log patched (some i) e (listed, bare) (all, count) = (
    (
      (
        n,
        listed,
        refl,
        bare,
        i,
        instance_of_node-In owned n i e,
        instance_of_node-Correlates owned n i e,
        e,
        refl,
      ),
      all,
    ),
    rw count refl,
  )

  patch_loop-AllPatches :
      (need : List Node) (log : List Patch) (patched : ℕ)
      → AllNeed need
      → AllPatches log × (patched ≡ taken_count log)
      → let r = patch_loop api cfg owned need log patched in
        AllPatches r.0 × (r.1 ≡ taken_count r.0)
  unfolding patch_loop
  patch_loop-AllPatches [] log patched a h = h
  patch_loop-AllPatches (n ∷ need) log patched (here, a) h =
      let r = patch_found api cfg n log patched (instance_of_node owned n) in
      patch_loop-AllPatches need r.0 r.1 a
        (patch_found-AllPatches n log patched (instance_of_node owned n) refl here h)

AllNeed-map :
    (api : List Patch → Str → Bool) (cfg : Config) (x : Node) (nodes : List Node)
    (owned : List Instance) (need : List Node)
    → AllNeed api cfg nodes owned need
    → AllNeed api cfg (x ∷ nodes) owned need
AllNeed-map api cfg x nodes owned [] a = tt
AllNeed-map api cfg x nodes owned (n ∷ need) ((listed, bare), a) =
    ((inr listed, bare), AllNeed-map api cfg x nodes owned need a)

filter_by-AllNeed :
    (api : List Patch → Str → Bool) (cfg : Config) (nodes : List Node) (owned : List Instance)
    → AllNeed api cfg nodes owned (filter_by (λ (n : Node). is_empty n.provider_id) nodes)
filter_by-AllNeed api cfg [] owned = tt
filter_by-AllNeed api cfg (n ∷ nodes) owned =
    let later = AllNeed-map api cfg n nodes owned _ (filter_by-AllNeed api cfg nodes owned) in
    elim (Bool-cases (is_empty n.provider_id)) [
      | inl p ↦ rw p ((inl refl, p), later)
      | inr p ↦ rw p later
    ]

patch_needed-AllPatches :
    (api : List Patch → Str → Bool) (cfg : Config) (nodes : List Node) (owned : List Instance)
    (need : List Node)
    → AllNeed api cfg nodes owned need
    → let r = patch_needed api cfg need (ok owned) in
      AllPatches api cfg nodes owned r.0 × (r.1 ≡ ok (taken_count api cfg nodes owned r.0))
unfolding patch_needed
patch_needed-AllPatches api cfg nodes owned [] a = (tt, refl)
patch_needed-AllPatches api cfg nodes owned (n ∷ need) a =
    let h = patch_loop-AllPatches api cfg nodes owned (n ∷ need) [] 0 a (tt, refl) in
    (h.0, rw h.1 refl)

-- The reconciliation writes a provider id only to a managed Node that has none, and only the id of an
-- owned instance that the Node correlates with: one that has the Node's internal or external address,
-- which is not empty, or the Node's name; and it reports as many Nodes as the API took patches.
pub reconcile_provider_ids-AllPatches :
    (api : List Patch → Str → Bool) (cfg : Config) (nodes : List Node) (owned : List Instance)
    → let r = reconcile_provider_ids api cfg (ok nodes) (ok owned) in
      AllPatches api cfg nodes owned r.0 × (r.1 ≡ ok (taken_count api cfg nodes owned r.0))
unfolding reconcile_provider_ids
reconcile_provider_ids-AllPatches api cfg nodes owned =
    patch_needed-AllPatches api cfg nodes owned (filter_by (λ n. is_empty n.provider_id) nodes)
      (filter_by-AllNeed api cfg nodes owned)
