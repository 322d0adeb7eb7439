-- ===== src/Examples/Cleaning.antt =====
-- Examples of the janitor's passes.
use ens_provider.Prelude.{
  ◌+◌, ◌≤◌, ◌≡◌, refl, inl, inr, true, false, Option, none, some, List, [], ◌∷◌, Str, codes, In, ℤ,
  pos, arith,
}
use ens_provider.Janitor.{JanitorAction, Node, janitor_scan, run_janitor, run_node_cleanup}
use ens_provider.Janitor.Scan.{janitor_scan_complete}
use ens_provider.Janitor.Confirmed.{AllConfirmed, run_node_cleanup-AllConfirmed}
use ens_provider.Examples.Data.{cfg, web1, web2, env, stale_node}

abbrev parse : Str → Option ℤ
parse [] = none
parse (c ∷ s) = some (pos 0)

janitor_scan_complete_example :
    (a : JanitorAction) × In a
      (janitor_scan parse (pos 5) cfg (web1 ∷ web2 ∷ []) (codes "i-1" ∷ []) [])
    × (a.instance_id ≡ codes "i-2")
unfolding ens_provider.Server.one_of ens_provider.Prelude.str_eq ens_provider.Janitor.dead_status
janitor_scan_complete_example =
    janitor_scan_complete parse (pos 5) cfg (codes "i-1" ∷ []) [] (web1 ∷ web2 ∷ []) web2 refl
      (inr (inl refl)) refl (inl refl)

run_node_cleanup-AllConfirmed_example :
    AllConfirmed
      (pos 700)
      cfg
      (stale_node ∷ [])
      (run_node_cleanup env (pos 700) cfg (stale_node ∷ []) [])
    × (cfg.janitor_node_cleanup ≡ false
        → run_node_cleanup env (pos 700) cfg (stale_node ∷ []) [] ≡ [])
run_node_cleanup-AllConfirmed_example =
    run_node_cleanup-AllConfirmed env (pos 700) cfg (stale_node ∷ [])
