-- ===== src/Examples/Serving.antt =====
-- Examples of the service's handlers.
use ens_provider.Prelude.{
  ℕ, ◌+◌, ◌≤◌, ◌<◌, ◌≡◌, refl, ◌⊎◌, inl, ◌↔◌, true, false, Option, none, some, List, [], ◌∷◌, Str,
  codes, In, length, ℤ, pos, int32, arith,
}
use ens_provider.Server.{reply, fail, out_of_range, node_group_increase_size, listed_owned}
use ens_provider.Server.Nodes.{IsFull, increase_size-exact}
use ens_provider.Server.Delete.{node_group_delete_nodes}
use ens_provider.Server.Delete.Safety.{AllAllowed, delete_nodes-AllAllowed}
use ens_provider.Server.Delete.Complete.{IsDone, delete_nodes-IsDone}
use ens_provider.Examples.Data.{cfg, web, web1, web2, env, node1}

increase_size-exact_example :
    let r = (node_group_increase_size env cfg (codes "web") (pos 2) []).1 in
    let order = env.run_instances (listed_owned web.id ∷ []) web (pos 2) in
    ((r ≡ reply tt) ↔ ((length (web1 ∷ []) + 2 ≤ 3) × (order ≡ none)))
    × ((r ≡ fail out_of_range)
        ↔ ((3 < length (web1 ∷ []) + 2) ⊎ ((length (web1 ∷ []) + 2 ≤ 3) × IsFull order)))
unfolding ens_provider.Config.group_by_id ens_provider.Prelude.str_eq
increase_size-exact_example =
    increase_size-exact env cfg (codes "web") web 2 3 [] (web1 ∷ []) refl refl refl (omega arith)

delete_nodes-AllAllowed_example :
    AllAllowed cfg web
      (web1 ∷ web2 ∷ [])
      (node1 ∷ [])
      (node_group_delete_nodes env cfg (codes "web") (node1 ∷ []) []).0
unfolding ens_provider.Config.group_by_id ens_provider.Prelude.str_eq
delete_nodes-AllAllowed_example =
    delete_nodes-AllAllowed env cfg (codes "web") (node1 ∷ []) web (web1 ∷ web2 ∷ []) refl refl

delete_nodes-IsDone_example :
    IsDone cfg node1 (node_group_delete_nodes env cfg (codes "web") (node1 ∷ []) []).0
unfolding node_group_delete_nodes ens_provider.Config.group_by_id ens_provider.Prelude.str_eq
    ens_provider.Prelude.is_empty ens_provider.Config.label_value
    ens_provider.Config.strict_edge_instance_id ens_provider.Prelude.has_prefix
    ens_provider.Config.is_ens_instance_id ens_provider.Prelude.trim_prefix
delete_nodes-IsDone_example =
    delete_nodes-IsDone env cfg (codes "web") (node1 ∷ []) [] refl node1 (inl refl)
