-- ===== src/Server/Delete.antt =====
-- NodeGroupDeleteNodes: node by node, the release of the instance before the deletion of the Node.
pub mod Safety
pub mod Complete
use ens_provider.Prelude.{
  ℕ, Bool, true, false, ◌&&◌, not, Option, none, some, List, [], ◌∷◌, ◌++◌, Str, codes, str_eq,
  is_empty, length, if◌then◌else◌,
}
use ens_provider.Config.{
  Config, Group, Labels, nodepool_label, label_value, group_by_id, group_for_instance_name,
  strict_edge_instance_id,
}
use ens_provider.Inventory.{Instance, Answer, ok, err}
use ens_provider.Server.{
  Call, listed_all, looked_up, released, deleted_node, Environment, Status, not_found, internal,
  Response, reply, fail,
}

-- A node of the request.
pub record NodeRef : Type 0 where
  pub name : Str
  pub provider_id : Str
  pub labels : Labels

-- Why a node was not deleted.
pub data NodeError : Type 0 where
  label_mismatch : NodeError
  foreign_provider_id : NodeError
  wrong_group : NodeError
  lookup_failed : Str → NodeError
  unowned : NodeError
  foreign_owner : NodeError
  release_failed : Str → NodeError
  node_delete_failed : Str → NodeError

-- The map `byID`: of instances with one id, the last is kept.
unfoldable pub by_id : Str → List Instance → Option Instance
by_id id [] = none
by_id id (o ∷ rest) = elim (by_id id rest) [
  | some i ↦ some i
  | none ↦ if str_eq o.id id then some o else none
]

abbrev pub succeeded : Option Str → Bool
succeeded none = true
succeeded (some e) = false

abbrev deletion_error : Option Str → Option NodeError
deletion_error none = none
deletion_error (some e) = some (node_delete_failed e)

-- The Node object is deleted, if the request names it.
unfoldable pub delete_object : Environment → NodeRef → List Call → List Call × Option NodeError
delete_object env node log =
    if is_empty node.name
    then (log, none)
    else (let e = env.delete_node_object log node.name in
        (deleted_node node.name (succeeded e) ∷ log, deletion_error e))

-- The release, and the deletion once the release was accepted.
unfoldable pub release_and_delete :
    Environment → NodeRef → Str → List Call → List Call × Option NodeError
unfolding delete_object
release_and_delete env node iid log = elim (env.release_instance log iid) [
  | some e ↦ (released iid false ∷ log, some (release_failed e))
  | none ↦ delete_object env node (released iid true ∷ log)
]

-- What follows the uncached lookup of an instance that the inventory does not list.
unfoldable pub after_lookup :
    Environment
    → Config
    → Group
    → NodeRef
    → Str
    → List Call
    → Answer (Option Instance)
    → List Call × Option NodeError
unfolding delete_object release_and_delete
after_lookup env cfg g node iid log (err e) = (log, some (lookup_failed e))
after_lookup env cfg g node iid log (ok none) = delete_object env node log
after_lookup env cfg g node iid log (ok (some i)) = elim (group_for_instance_name cfg i.name) [
  | none ↦ (log, some unowned)
  | some owner ↦
      if str_eq owner.id g.id
      then release_and_delete env node iid log
      else (log, some foreign_owner)
]

unfoldable pub with_instance :
    Environment
    → Config
    → Group
    → NodeRef
    → Str
    → List Call
    → Option Instance
    → List Call × Option NodeError
unfolding after_lookup
with_instance env cfg g node iid log (some i) =
    if str_eq i.group_id g.id then release_and_delete env node iid log else (log, some wrong_group)
with_instance env cfg g node iid log none =
    let answer = env.instance_by_id log iid in
    after_lookup env cfg g node iid (looked_up iid answer ∷ log) answer

-- The node names another nodepool than the group's.
unfoldable pub has_other_label : Group → NodeRef → Bool
has_other_label g node =
    let nodepool_id = label_value node.labels nodepool_label in
    not (is_empty nodepool_id) && not (str_eq nodepool_id g.nodepool_id)

-- One turn of the loop; a node adds one error at most.
unfoldable pub delete_step :
    Environment
    → Config
    → Group
    → List Instance
    → NodeRef
    → List Call
    → List Call × Option NodeError
unfolding with_instance by_id has_other_label
delete_step env cfg g owned node log =
    let iid = strict_edge_instance_id cfg node.provider_id in
    if has_other_label g node
    then (log, some label_mismatch)
    else if is_empty iid
    then (log, some foreign_provider_id)
    else with_instance env cfg g node iid log (by_id iid owned)

abbrev pub add_error : Option NodeError → List NodeError → List NodeError
add_error none errs = errs
add_error (some e) errs = errs ++ e ∷ []

unfoldable pub delete_loop :
    Environment
    → Config
    → Group
    → List Instance
    → List NodeRef
    → List Call
    → List NodeError
    → List Call × List NodeError
unfolding delete_step
delete_loop env cfg g owned [] log errs = (log, errs)
delete_loop env cfg g owned (node ∷ rest) log errs =
    let (log', e) = delete_step env cfg g owned node log in
    delete_loop env cfg g owned rest log' (add_error e errs)

abbrev pub delete_response : List NodeError → Response (Unit {0})
delete_response [] = reply tt
delete_response (e ∷ errs) = fail internal

unfoldable pub delete_owned :
    Environment
    → Config
    → Group
    → List NodeRef
    → List Call
    → Answer (List Instance)
    → List Call × Response (Unit {0})
unfolding delete_loop
delete_owned env cfg g nodes log (err e) = (log, fail internal)
delete_owned env cfg g nodes log (ok owned) =
    let (log', errs) = delete_loop env cfg g owned nodes log [] in (log', delete_response errs)

unfoldable pub node_group_delete_nodes :
    Environment → Config → Str → List NodeRef → List Call → List Call × Response (Unit {0})
unfolding delete_owned
node_group_delete_nodes env cfg id nodes log = elim (group_by_id cfg id) [
  | none ↦ (log, fail (not_found id))
  | some g ↦ delete_owned env cfg g nodes (listed_all false ∷ log) (env.all_owned_instances log)
]
