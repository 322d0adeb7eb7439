-- ===== src/Kube.antt =====
-- kube.go: what the provider reads of the managed Nodes, the reconciliation of provider ids, the
-- deletion of a Node object and the owner-checked release of the lease. The API of the cluster is a
-- function of the writes made so far.
pub mod Correlation
pub mod Keys
pub mod Managed
use ens_provider.Prelude.{
  ℕ, ◌+◌, Bool, true, false, ◌&&◌, ◌||◌, not, Option, none, some, List, [], ◌∷◌, ◌++◌, Str, codes,
  str_eq, is_empty, filter_by, if◌then◌else◌,
}
use ens_provider.Config.{Config, Labels, label_value, instance_id_from_provider_id, provider_id}
use ens_provider.Inventory.{Instance, Answer, ok, err}
use ens_provider.Janitor.{Address, Node}

-- JoinedInstanceIDs and ManagedNodeKeys, as lists of the members of the sets.
abbrev pub unless_empty : Str → List Str → List Str
unless_empty s rest = if is_empty s then rest else s ∷ rest

unfoldable pub joined_ids : List Node → List Str
joined_ids [] = []
joined_ids (n ∷ nodes) =
    unless_empty (instance_id_from_provider_id n.provider_id) (joined_ids nodes)

unfoldable pub joined_instance_ids : Answer (List Node) → Answer (List Str)
unfolding joined_ids
joined_instance_ids (err e) = err e
joined_instance_ids (ok nodes) = ok (joined_ids nodes)

unfoldable pub address_keys : List Address → List Str → List Str
address_keys [] rest = rest
address_keys (a ∷ addresses) rest = unless_empty a.address (address_keys addresses rest)

unfoldable pub node_keys : List Node → List Str
unfolding address_keys
node_keys [] = []
node_keys (n ∷ nodes) =
    n.name
    ∷ unless_empty (instance_id_from_provider_id n.provider_id)
        (address_keys n.addresses (node_keys nodes))

unfoldable pub managed_node_keys : Answer (List Node) → Answer (List Str)
unfolding node_keys
managed_node_keys (err e) = err e
managed_node_keys (ok nodes) = ok (node_keys nodes)

-- The answer of the API to a delete: nothing, not found, or another error.
pub data ApiAnswer : Type 0 where
  accepted : ApiAnswer
  absent : ApiAnswer
  failing : Str → ApiAnswer

unfoldable pub delete_node_object : ApiAnswer → Option Str
delete_node_object accepted = none
delete_node_object absent = none
delete_node_object (failing e) = some e

unfoldable pub remove_pod_label : ApiAnswer → Option Str
remove_pod_label accepted = none
remove_pod_label absent = none
remove_pod_label (failing e) = some e

-- The maps `byIP` and `byName`: the last instance that sets a key is kept, and the private address is
-- set after the public one.
unfoldable pub by_ip : Str → List Instance → Option Instance
by_ip ip [] = none
by_ip ip (o ∷ rest) = elim (by_ip ip rest) [
  | some i ↦ some i
  | none ↦
      if (not (is_empty o.private_ip) && str_eq o.private_ip ip)
        || (not (is_empty o.public_ip) && str_eq o.public_ip ip)
      then some o
      else none
]

unfoldable pub by_name : Str → List Instance → Option Instance
by_name name [] = none
by_name name (o ∷ rest) = elim (by_name name rest) [
  | some i ↦ some i
  | none ↦ if str_eq o.name name then some o else none
]

-- `addrs[kind]`: the last address of the type, or the empty text.
unfoldable pub address_of : Str → List Address → Option Str
address_of kind [] = none
address_of kind (a ∷ rest) = elim (address_of kind rest) [
  | some s ↦ some s
  | none ↦ if str_eq a.kind kind then some a.address else none
]

abbrev pub or_empty : Option Str → Str
or_empty none = []
or_empty (some s) = s

abbrev pub or_else {ℓ} : {A : Type ℓ} → Option A → Option A → Option A
or_else none b = b
or_else (some a) b = some a

-- The instance of a Node: by its internal address, then its external one, then its name.
unfoldable pub instance_of_node : List Instance → Node → Option Instance
unfolding by_ip by_name address_of
instance_of_node owned n =
    or_else (by_ip (or_empty (address_of (codes "InternalIP") n.addresses)) owned) (
      or_else (by_ip (or_empty (address_of (codes "ExternalIP") n.addresses)) owned)
        (by_name n.name owned))

-- A patch of a Node's provider id, and whether the API took it.
pub record Patch : Type 0 where
  pub node : Str
  pub provider_id : Str
  pub taken : Bool

-- The loop over the Nodes that need an id: the patches so far, the newest first, and their number.
abbrev pub one_more : Bool → ℕ → ℕ
one_more true n = n + 1
one_more false n = n

unfoldable pub patch_found :
    (List Patch → Str → Bool) → Config → Node → List Patch → ℕ → Option Instance → List Patch × ℕ
patch_found api cfg n log patched none = (log, patched)
patch_found api cfg n log patched (some i) =
    let taken = api log n.name in
    (
      record { node = n.name; provider_id = provider_id cfg i.id; taken = taken } ∷ log,
      one_more taken patched,
    )

unfoldable pub patch_loop :
    (List Patch → Str → Bool) → Config → List Instance → List Node → List Patch → ℕ → List Patch × ℕ
unfolding patch_found instance_of_node
patch_loop api cfg owned [] log patched = (log, patched)
patch_loop api cfg owned (n ∷ need) log patched =
    let (log', patched') = patch_found api cfg n log patched (instance_of_node owned n) in
    patch_loop api cfg owned need log' patched'

-- The inventory is asked only where a Node needs an id.
unfoldable pub patch_needed :
    (List Patch → Str → Bool) → Config → List Node → Answer (List Instance) → List Patch × Answer ℕ
unfolding patch_loop
patch_needed api cfg [] owned = ([], ok 0)
patch_needed api cfg (n ∷ need) (err e) = ([], err e)
patch_needed api cfg (n ∷ need) (ok owned) =
    let (log, patched) = patch_loop api cfg owned (n ∷ need) [] 0 in (log, ok patched)

-- ReconcileProviderIDs, without the autonomy annotation.
unfoldable pub reconcile_provider_ids :
    (List Patch → Str → Bool)
    → Config
    → Answer (List Node)
    → Answer (List Instance)
    → List Patch × Answer ℕ
unfolding patch_needed
reconcile_provider_ids api cfg (err e) owned = ([], err e)
reconcile_provider_ids api cfg (ok nodes) owned =
    patch_needed api cfg (filter_by (λ n. is_empty n.provider_id) nodes) owned

-- ensureAutonomy, of the trimmed setting, with the case-insensitive comparison as an argument: the
-- annotation that every managed Node gets, if any, and the Nodes that lack it.
abbrev pub autonomy_duration_anno : Str
autonomy_duration_anno = codes "node.alibabacloud.com/autonomy-duration"

abbrev pub autonomy_legacy_anno : Str
autonomy_legacy_anno = codes "node.beta.openyurt.io/autonomy"

unfoldable pub autonomy_annotation : (Str → Str → Bool) → Str → Option (Str × Str)
autonomy_annotation equal_fold mode =
    if is_empty mode || equal_fold mode (codes "off")
    then none
    else if equal_fold mode (codes "unbounded") || equal_fold mode (codes "true")
    then some (autonomy_legacy_anno, codes "true")
    else some (autonomy_duration_anno, mode)

-- A Node by its name, with its annotations.
unfoldable pub lacking_autonomy : Str → Str → List (Str × Labels) → List Str
lacking_autonomy anno value [] = []
lacking_autonomy anno value ((name, annotations) ∷ nodes) =
    if str_eq (label_value annotations anno) value
    then lacking_autonomy anno value nodes
    else name ∷ lacking_autonomy anno value nodes

unfoldable pub ensure_autonomy : (Str → Str → Bool) → Str → List (Str × Labels) → List Str
unfolding autonomy_annotation lacking_autonomy
ensure_autonomy equal_fold mode nodes = elim (autonomy_annotation equal_fold mode) [
  | none ↦ []
  | some (anno, value) ↦ lacking_autonomy anno value nodes
]

-- ClearLeaseHolder, on the lease that was read: the update that it makes, if it makes one.
pub record Lease : Type 0 where
  pub holder : Option Str
  pub version : ℕ

unfoldable pub clear_lease_holder : Str → Answer Lease → Answer Lease
clear_lease_holder identity (err e) = err e
clear_lease_holder identity (ok lease) =
    if str_eq (or_empty lease.holder) identity
    then ok (record lease { holder = some [] })
    else err (codes "not the holder")
