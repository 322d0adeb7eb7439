-- ===== src/Janitor.antt =====
-- janitor.go: the scan for instances that bill without serving, the releases that it may make, and
-- the deletion of Node objects whose instance is gone. The RFC 3339 reader of package `time` is the
-- argument `parse_time`.
pub mod Scan
pub mod Cleanup
pub mod Confirmed
pub mod Drain
use ens_provider.Prelude.{
  ℕ, zero, suc, ◌+◌, Bool, true, false, ◌&&◌, ◌||◌, not, Option, none, some, List, [], ◌∷◌, ◌++◌,
  Str, codes, str_eq, is_empty, has_prefix, length, leb, if◌then◌else◌, ℤ, ◌-ℤ◌, ltb_ℤ, leb_ℤ,
}
use ens_provider.Config.{Config, instance_id_from_provider_id}
use ens_provider.Inventory.{Instance, Answer, ok, err}
use ens_provider.Metrics.{Metrics, set_gauges}
use ens_provider.Server.{Call, looked_up, deleted_node, released, Environment, one_of}

pub data Reason : Type 0 where
  dead_state : Str → Reason
  unjoined_for : ℤ → Reason

pub record JanitorAction : Type 0 where
  pub instance_id : Str
  pub reason : Reason
  pub release : Bool

unfoldable pub dead_status : Str → Bool
dead_status s = str_eq s (codes "Stopped") || str_eq s (codes "Expired")

-- A managed Node exposes an identity of the instance.
unfoldable pub node_exists : List Str → Instance → Bool
node_exists node_keys i =
    one_of i.id node_keys
    || one_of i.name node_keys
    || (not (is_empty i.private_ip) && one_of i.private_ip node_keys)
    || (not (is_empty i.public_ip) && one_of i.public_ip node_keys)

-- An instance that runs since `created`: an action, unless it is inside the join budget.
unfoldable pub scan_running : ℤ → Config → Str → Bool → Option ℤ → Option JanitorAction
scan_running now cfg id release none = none
scan_running now cfg id release (some created) =
    if leb_ℤ (now -ℤ created) cfg.join_timeout
    then none
    else some
        (record { instance_id = id; reason = unjoined_for (now -ℤ created); release = release })

-- One turn of the scan's loop.
unfoldable pub scan_instance :
    (Str → Option ℤ) → ℤ → Config → List Str → List Str → Instance → Option JanitorAction
unfolding dead_status node_exists scan_running
scan_instance parse_time now cfg joined node_keys i =
    let release = cfg.janitor_release && not (node_exists node_keys i) in
    if one_of i.id joined
    then none
    else if dead_status i.status
    then some (record { instance_id = i.id; reason = dead_state i.status; release = release })
    else if str_eq i.status (codes "Running")
    then (if is_empty i.creation_time
        then none
        else scan_running now cfg i.id release (parse_time i.creation_time))
    else none

abbrev cons_some : Option JanitorAction → List JanitorAction → List JanitorAction
cons_some none out = out
cons_some (some a) out = a ∷ out

unfoldable pub janitor_scan :
    (Str → Option ℤ) → ℤ → Config → List Instance → List Str → List Str → List JanitorAction
unfolding scan_instance
janitor_scan parse_time now cfg [] joined node_keys = []
janitor_scan parse_time now cfg (i ∷ owned) joined node_keys =
    cons_some (scan_instance parse_time now cfg joined node_keys i)
      (janitor_scan parse_time now cfg owned joined node_keys)

unfoldable pub unjoined_count : List Str → List Instance → ℕ
unjoined_count joined [] = 0
unjoined_count joined (i ∷ owned) =
    (if not (one_of i.id joined) && str_eq i.status (codes "Running") then 1 else 0)
    + unjoined_count joined owned

-- The instances that are released; a release that fails is only logged.
unfoldable pub releases : List JanitorAction → List Str
releases [] = []
releases (a ∷ rest) = if a.release then a.instance_id ∷ releases rest else releases rest

-- runJanitor: the gauges, and the ids that are handed to ReleaseInstance, in order.
unfoldable pub run_janitor :
    (Str → Option ℤ)
    → ℤ
    → Config
    → Answer (List Instance)
    → List Str
    → List Str
    → Metrics
    → Metrics × List Str
unfolding janitor_scan unjoined_count releases
run_janitor parse_time now cfg (err e) joined node_keys m = (m, [])
run_janitor parse_time now cfg (ok owned) joined node_keys m = (
  set_gauges m (length owned) (unjoined_count joined owned),
  releases (janitor_scan parse_time now cfg owned joined node_keys),
)

-- What the program reads of a condition of a Node, and of a Node.
pub record Condition : Type 0 where
  pub kind : Str
  pub status : Str
  pub since : ℤ

pub record Address : Type 0 where
  pub kind : Str
  pub address : Str

pub record Node : Type 0 where
  pub name : Str
  pub provider_id : Str
  pub conditions : List Condition
  pub addresses : List Address

pub record StaleNode : Type 0 where
  pub node_name : Str
  pub instance_id : Str
  pub not_ready_for : ℤ

abbrev pub max_node_cleanup_per_tick : ℕ
max_node_cleanup_per_tick = 2

-- The last condition of type "Ready".
unfoldable pub ready_condition : List Condition → Option Condition
ready_condition [] = none
ready_condition (c ∷ rest) = elim (ready_condition rest) [
  | some r ↦ some r
  | none ↦ if str_eq c.kind (codes "Ready") then some c else none
]

-- The instance id by the provider id, or by a name of the form of one.
unfoldable pub derived_instance_id : Node → Str
derived_instance_id n =
    let id = instance_id_from_provider_id n.provider_id in
    if is_empty id && has_prefix n.name (codes "i-") then n.name else id

unfoldable pub stale_by_condition : ℤ → Config → Node → Option Condition → Option StaleNode
unfolding derived_instance_id
stale_by_condition now cfg n none = none
stale_by_condition now cfg n (some ready) =
    let id = derived_instance_id n in
    if str_eq ready.status (codes "True")
    then none
    else if ltb_ℤ (now -ℤ ready.since) cfg.node_cleanup_grace
    then none
    else if is_empty id
    then none
    else some (record { node_name = n.name; instance_id = id; not_ready_for = now -ℤ ready.since })

abbrev cons_stale : Option StaleNode → List StaleNode → List StaleNode
cons_stale none out = out
cons_stale (some a) out = a ∷ out

unfoldable pub stale_node_candidates : ℤ → Config → List Node → List StaleNode
unfolding ready_condition stale_by_condition
stale_node_candidates now cfg [] = []
stale_node_candidates now cfg (n ∷ nodes) =
    cons_stale (stale_by_condition now cfg n (ready_condition n.conditions))
      (stale_node_candidates now cfg nodes)

-- What one candidate adds: its calls, and whether a Node was deleted.
unfoldable pub clean_confirmed : Environment → StaleNode → List Call → List Call × Bool
clean_confirmed env c log = elim (env.delete_node_object log c.node_name) [
  | some e ↦ (deleted_node c.node_name false ∷ log, false)
  | none ↦ (deleted_node c.node_name true ∷ log, true)
]

unfoldable pub clean_answered :
    Environment → StaleNode → List Call → Answer (Option Instance) → List Call × Bool
unfolding clean_confirmed
clean_answered env c log (err e) = (log, false)
clean_answered env c log (ok (some i)) = (log, false)
clean_answered env c log (ok none) = clean_confirmed env c log

unfoldable pub clean_candidate : Environment → StaleNode → List Call → List Call × Bool
unfolding clean_answered
clean_candidate env c log =
    let answer = env.instance_by_id log c.instance_id in
    clean_answered env c (looked_up c.instance_id answer ∷ log) answer

-- The loop, which returns once the cap is reached.
unfoldable pub cleanup_loop : Environment → List StaleNode → ℕ → List Call → List Call
unfolding clean_candidate
cleanup_loop env [] deleted log = log
cleanup_loop env (c ∷ rest) deleted log =
    let (log', gone) = clean_candidate env c log in
    let later = cleanup_loop env rest (if gone then deleted + 1 else deleted) log' in
    if leb max_node_cleanup_per_tick deleted then log else later

unfoldable pub run_node_cleanup : Environment → ℤ → Config → List Node → List Call → List Call
unfolding cleanup_loop stale_node_candidates
run_node_cleanup env now cfg nodes log =
    if cfg.janitor_node_cleanup
    then cleanup_loop env (stale_node_candidates now cfg nodes) 0 log
    else log
