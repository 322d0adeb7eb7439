-- ===== src/Kube/Keys.antt =====
-- The identities that the janitor asks for.
use ens_provider.Prelude.{
  ◌≡◌, ◌≢◌, refl, sym, ap, ◌∙◌, inl, inr, false, none, List, [], ◌∷◌, Str, is_empty, index_byte, In,
  Bool-cases,
}
use ens_provider.Config.{Config, provider_id, instance_id_from_provider_id}
use ens_provider.Config.Ids.{lenient-provider_id}
use ens_provider.Janitor.{Node, Address}
use ens_provider.Kube.{joined_ids, node_keys, address_keys, unless_empty}

In-unless_empty-rest : (s t : Str) (rest : List Str) → In s rest → In s (unless_empty t rest)
In-unless_empty-rest s t rest h = elim (Bool-cases (is_empty t)) [
  | inl p ↦ rw p h
  | inr p ↦ rw p (inr h)
]

In-unless_empty-here :
    (s t : Str) (rest : List Str) → s ≡ t → is_empty t ≡ false → In s (unless_empty t rest)
In-unless_empty-here s t rest e p = rw p (inl e)

In-address_keys :
    (s : Str) (addresses : List Address) (rest : List Str)
    → In s rest
    → In s (address_keys addresses rest)
unfolding address_keys
In-address_keys s [] rest h = h
In-address_keys s (a ∷ addresses) rest h =
    In-unless_empty-rest s a.address _ (In-address_keys s addresses rest h)

joined_ids_keys : (nodes : List Node) (s : Str) → In s (joined_ids nodes) → In s (node_keys nodes)
unfolding joined_ids node_keys
joined_ids_keys [] s h = absurd h
joined_ids_keys (n ∷ nodes) s h =
    let id = instance_id_from_provider_id n.provider_id in
    elim (Bool-cases (is_empty id)) [
      | inl p ↦
          (let later = joined_ids_keys nodes s (rw p at h) in
            inr (In-unless_empty-rest s id _ (In-address_keys s n.addresses _ later)))
      | inr p ↦
          (let h' = rw p at h in
            elim h' [
              | inl e ↦ inr (In-unless_empty-here s id _ e p)
              | inr k ↦ inr (
                  In-unless_empty-rest s id _
                    (In-address_keys s n.addresses _ (joined_ids_keys nodes s k)))
            ])
    ]

patched_joined :
    (cfg : Config) (nodes : List Node) (n : Node) (id : Str)
    → In n nodes
    → n.provider_id ≡ provider_id cfg id
    → cfg.ens_region ≢ []
    → index_byte b'.' cfg.ens_region ≡ none
    → is_empty id ≡ false
    → In id (joined_ids nodes)
unfolding joined_ids
patched_joined cfg [] n id h e r d f = absurd h
patched_joined cfg (m ∷ nodes) n id (inl p) e r d f =
    let same = ap (λ (k : Node). k.provider_id) (sym p) ∙ e in
    rw (same, lenient-provider_id cfg id r d) (In-unless_empty-here id id (joined_ids nodes) refl f)
patched_joined cfg (m ∷ nodes) n id (inr h) e r d f =
    In-unless_empty-rest id (instance_id_from_provider_id m.provider_id) (joined_ids nodes)
      (patched_joined cfg nodes n id h e r d f)

-- Every instance id that counts as joined is among the identities that block a release; and once a
-- managed Node has the provider id of an instance, in a region whose name holds no dot, that instance
-- counts as joined.
pub joined_ids-node_keys :
    (cfg : Config) (nodes : List Node)
    → ((s : Str) → In s (joined_ids nodes) → In s (node_keys nodes))
      × ((n : Node) (id : Str)
          → In n nodes
          → n.provider_id ≡ provider_id cfg id
          → cfg.ens_region ≢ []
          → index_byte b'.' cfg.ens_region ≡ none
          → is_empty id ≡ false
          → In id (joined_ids nodes))
joined_ids-node_keys cfg nodes = (joined_ids_keys nodes, patched_joined cfg nodes)
