-- ===== src/Kube/Managed.antt =====
-- kube.go: `ListManagedNodes`, which asks for the Nodes of all nodepools at once.
pub mod Selects
use ens_provider.Prelude.{Bool, true, false, List, [], ◌∷◌, ◌++◌, Str, codes, str_eq, if◌then◌else◌}
use ens_provider.Config.{Config, Group, nodepool_label}
use ens_provider.Inventory.{Answer}
use ens_provider.Janitor.{Node}
use ens_provider.Userdata.Json.{str_ltb}

-- A text among the sorted ones, unless it is there.
unfoldable pub insert_text : Str → List Str → List Str
unfolding str_ltb
insert_text s [] = s ∷ []
insert_text s (t ∷ ts) =
    if str_eq s t then t ∷ ts else if str_ltb s t then s ∷ t ∷ ts else t ∷ insert_text s ts

-- The sorted members of the set of the nodepool ids.
unfoldable pub nodepool_ids : List Group → List Str
unfolding insert_text
nodepool_ids [] = []
nodepool_ids (g ∷ gs) = insert_text g.nodepool_id (nodepool_ids gs)

-- strings.Join(list, ",")
unfoldable pub join_commas : List Str → Str
join_commas [] = []
join_commas (s ∷ []) = s
join_commas (s ∷ t ∷ ts) = s ++ (b',' ∷ join_commas (t ∷ ts))

unfoldable pub managed_selector : Config → Str
unfolding nodepool_ids join_commas
managed_selector cfg =
    nodepool_label ++ (codes " in (" ++ (join_commas (nodepool_ids cfg.groups) ++ codes ")"))

-- The cluster answers a list with a label selector.
unfoldable pub list_managed_nodes : Config → (Str → Answer (List Node)) → Answer (List Node)
unfolding managed_selector
list_managed_nodes cfg list_nodes = list_nodes (managed_selector cfg)
