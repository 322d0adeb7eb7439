-- ===== src/Server.antt =====
-- server.go: the externalgrpc service over the interfaces CloudAPI and KubeAPI. These are an
-- `Environment`: what each call answers after the calls made so far. A handler returns the calls with
-- its own in front, and the response.
pub mod Delete
pub mod Nodes
pub mod TemplateNode
use ens_provider.Prelude.{
  ℕ, Bool, true, false, ◌||◌, Option, none, some, List, [], ◌∷◌, Str, codes, str_eq, is_empty,
  length, map, if◌then◌else◌, ℤ, pos, ◌+ℤ◌, ltb_ℤ, int32,
}
use ens_provider.Config.{Config, Group, Labels, group_by_id, group_for_node_labels, provider_id}
use ens_provider.Inventory.{Instance, Answer, ok, err}
use ens_provider.Order.{OrderError, exceeds_max}

-- A call of an interface, with what the proofs need of its answer.
pub data Call : Type 0 where
  listed_owned : Str → Call
  listed_all : Bool → Call
  looked_up : Str → Answer (Option Instance) → Call
  ordered : Str → ℤ → Call
  released : Str → Bool → Call
  invalidated : Call
  listed_joined : Call
  deleted_node : Str → Bool → Call
  reconciled : Call

pub record Environment : Type 0 where
  pub owned_instances : List Call → Group → Answer (List Instance)
  pub all_owned_instances : List Call → Answer (List Instance)
  pub instance_by_id : List Call → Str → Answer (Option Instance)
  pub run_instances : List Call → Group → ℤ → Option OrderError
  pub release_instance : List Call → Str → Option Str
  pub joined_instance_ids : List Call → Answer (List Str)
  pub delete_node_object : List Call → Str → Option Str

-- The gRPC status of an error, by its code.
pub data Status : Type 0 where
  not_found : Str → Status
  internal : Status
  out_of_range : Status
  failed_precondition : Status

pub data Response (A : Type 0) : Type 0 where
  reply : A → Response A
  fail : Status → Response A

-- The entry of `Server.ngs` for a group, without its debug text.
pub record NodeGroup : Type 0 where
  pub id : Str
  pub min_size : ℤ
  pub max_size : ℤ

unfoldable pub node_group : Group → NodeGroup
node_group g = record { id = g.id; min_size = g.min; max_size = g.max }

unfoldable pub node_groups : Config → List NodeGroup
unfolding node_group
node_groups cfg = map node_group cfg.groups

-- NodeGroupForNode; the empty id is a node that is not ours.
unfoldable pub node_group_for_node : Config → Option Labels → Option Group
node_group_for_node cfg none = none
node_group_for_node cfg (some labels) = group_for_node_labels cfg labels

unfoldable pub target_size_of : Answer (List Instance) → Response ℤ
target_size_of (err e) = fail internal
target_size_of (ok owned) = reply (int32 (pos (length owned)))

unfoldable pub node_group_target_size :
    Environment → Config → Str → List Call → List Call × Response ℤ
unfolding target_size_of
node_group_target_size env cfg id log = elim (group_by_id cfg id) [
  | none ↦ (log, fail (not_found id))
  | some g ↦ (listed_owned g.id ∷ log, target_size_of (env.owned_instances log g))
]

-- `errors.Is(err, ErrExceedsMax)` decides the code.
unfoldable pub order_response : Option OrderError → Response (Unit {0})
order_response none = reply tt
order_response (some (exceeds_max gid count owned max)) = fail out_of_range
order_response (some e) = fail internal

unfoldable pub increase_owned :
    Environment → Group → ℤ → List Call → Answer (List Instance) → List Call × Response (Unit {0})
unfolding order_response
increase_owned env g delta log (err e) = (log, fail internal)
increase_owned env g delta log (ok owned) =
    if ltb_ℤ g.max (int32 (int32 (pos (length owned)) +ℤ delta))
    then (log, fail out_of_range)
    else (ordered g.id delta ∷ log, order_response (env.run_instances log g delta))

unfoldable pub node_group_increase_size :
    Environment → Config → Str → ℤ → List Call → List Call × Response (Unit {0})
unfolding increase_owned
node_group_increase_size env cfg id delta log = elim (group_by_id cfg id) [
  | none ↦ (log, fail (not_found id))
  | some g ↦ increase_owned env g delta (listed_owned g.id ∷ log) (env.owned_instances log g)
]

-- Nothing is ever cancelled here.
unfoldable pub node_group_decrease_target_size :
    Config → Str → ℤ → List Call → List Call × Response (Unit {0})
node_group_decrease_target_size cfg id delta log = elim (group_by_id cfg id) [
  | none ↦ (log, fail (not_found id))
  | some g ↦ (log, fail failed_precondition)
]

-- GPULabel, GetAvailableGPUTypes and Cleanup reply the same always.
abbrev pub gpu_label : Response Str
gpu_label = reply (codes "nvidia.com/gpu")

abbrev pub available_gpu_types : Response (List Str)
available_gpu_types = reply []

abbrev pub cleanup : Response (Unit {0})
cleanup = reply tt

-- Refresh: an error of the reconciliation is only logged.
unfoldable pub refresh : List Call → List Call × Response (Unit {0})
refresh log = (reconciled ∷ invalidated ∷ log, reply tt)

pub data InstanceState : Type 0 where
  running creating deleting : InstanceState

unfoldable pub one_of : Str → List Str → Bool
one_of s [] = false
one_of s (t ∷ rest) = str_eq s t || one_of s rest

unfoldable pub state_for : Str → InstanceState
unfolding one_of
state_for status =
    if str_eq status (codes "Running")
    then running
    else if one_of status (
        codes "Pending"
        ∷ codes "Starting"
        ∷ codes "Creating"
        ∷ codes "Building"
        ∷ codes "Preparing"
        ∷ [])
    then creating
    else if one_of status (
        codes "Stopping"
        ∷ codes "Releasing"
        ∷ codes "Deleting"
        ∷ codes "Stopped"
        ∷ codes "Expired"
        ∷ [])
    then deleting
    else creating

-- A booted instance with no correlated node is still coming up.
unfoldable pub unless_joined : Bool → InstanceState → InstanceState
unless_joined joined running = if joined then running else creating
unless_joined joined creating = creating
unless_joined joined deleting = deleting

pub record ReportedInstance : Type 0 where
  pub id : Str
  pub state : InstanceState

unfoldable pub report_instance : Config → List Str → Instance → ReportedInstance
unfolding state_for unless_joined one_of
report_instance cfg joined o = record {
  id = provider_id cfg o.id;
  state = unless_joined (one_of o.id joined) (state_for o.status);
}

unfoldable pub nodes_joined :
    Config → List Instance → Answer (List Str) → Response (List ReportedInstance)
unfolding report_instance
nodes_joined cfg owned (err e) = fail internal
nodes_joined cfg owned (ok joined) = reply (map (report_instance cfg joined) owned)

unfoldable pub nodes_owned :
    Environment
    → Config
    → List Call
    → Answer (List Instance)
    → List Call × Response (List ReportedInstance)
unfolding nodes_joined
nodes_owned env cfg log (err e) = (log, fail internal)
nodes_owned env cfg log (ok owned) =
    (listed_joined ∷ log, nodes_joined cfg owned (env.joined_instance_ids log))

unfoldable pub node_group_nodes :
    Environment → Config → Str → List Call → List Call × Response (List ReportedInstance)
unfolding nodes_owned
node_group_nodes env cfg id log = elim (group_by_id cfg id) [
  | none ↦ (log, fail (not_found id))
  | some g ↦ nodes_owned env cfg (listed_owned g.id ∷ log) (env.owned_instances log g)
]
