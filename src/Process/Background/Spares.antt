-- ===== src/Process/Background/Spares.antt =====
-- Which instances a pass of the background loop may release.
use ens_provider.Prelude.{
  ◌≡◌, ◌≢◌, ◌⊎◌, refl, sym, inl, inr, true, false, Option, none, List, [], ◌∷◌, Str, str_eq_refl,
  In, is_empty, index_byte, ℤ, arith,
}
use ens_provider.Config.{Config, provider_id}
use ens_provider.Inventory.{Instance, Answer, ok, err}
use ens_provider.Metrics.{Metrics}
use ens_provider.Server.{one_of}
use ens_provider.Janitor.{Node, node_exists, run_janitor}
use ens_provider.Janitor.Scan.{IsReleasable, run_janitor-IsReleasable}
use ens_provider.Kube.{joined_ids, node_keys, joined_instance_ids, managed_node_keys}
use ens_provider.Kube.Keys.{joined_ids-node_keys}
use ens_provider.Process.Background.{PassInput, janitor_part, background_pass}

one_of-In : (s : Str) (l : List Str) → In s l → one_of s l ≡ true
unfolding one_of
one_of-In s [] h = absurd h
one_of-In s (t ∷ l) (inl e) = rw (sym e) (rw (str_eq_refl s) refl)
one_of-In s (t ∷ l) (inr h) = ground (arith, one_of-In s l h)

-- What a release of the pass shows: both lists of Nodes and the inventory were read, the instance is
-- listed and passes every gate of the janitor against them.
pub record IsAllowed (parse_time : Str → Option ℤ) (cfg : Config) (i : PassInput) (id : Str)
    : Type 0 where
  pub joined : List Node
  pub keyed : List Node
  pub owned : List Instance
  pub join_read : i.to_join ≡ ok joined
  pub key_read : i.to_key ≡ ok keyed
  pub owned_read : i.owned ≡ ok owned
  pub instance : Instance
  pub listed : In instance owned
  pub named : instance.id ≡ id
  pub releasable :
      IsReleasable parse_time i.janitor_time cfg (joined_ids joined) (node_keys keyed) instance

janitor_part-IsAllowed :
    (parse_time : Str → Option ℤ) (cfg : Config) (i : PassInput) (m : Metrics) (id : Str)
    (a b : Answer (List Node)) (c : Answer (List Instance))
    → i.to_join ≡ a
    → i.to_key ≡ b
    → i.owned ≡ c
    → In id
        (janitor_part parse_time i.janitor_time cfg c
          (joined_instance_ids a)
          (managed_node_keys b)
          m).1
    → IsAllowed parse_time cfg i id
unfolding janitor_part joined_instance_ids managed_node_keys run_janitor
janitor_part-IsAllowed parse_time cfg i m id (err e) b c p q r h = absurd h
janitor_part-IsAllowed parse_time cfg i m id (ok x) (err e) c p q r h = absurd h
janitor_part-IsAllowed parse_time cfg i m id (ok x) (ok y) (err e) p q r h = absurd h
janitor_part-IsAllowed parse_time cfg i m id (ok x) (ok y) (ok z) p q r h =
    let (instance, listed, named, releasable) =
      run_janitor-IsReleasable parse_time i.janitor_time cfg (joined_ids x) (node_keys y) z m id
        h in
    record {
      joined = x;
      keyed = y;
      owned = z;
      join_read = p;
      key_read = q;
      owned_read = r;
      instance = instance;
      listed = listed;
      named = named;
      releasable = releasable;
    }

key_blocks : (keys : List Str) (i : Instance) → one_of i.id keys ≡ true → node_exists keys i ≡ true
unfolding node_exists
key_blocks keys i h = rw h refl

spared :
    (parse_time : Str → Option ℤ) (cfg : Config) (i : PassInput) (id : Str) (n : Node)
    (a : IsAllowed parse_time cfg i id)
    → cfg.ens_region ≢ []
    → index_byte b'.' cfg.ens_region ≡ none
    → is_empty id ≡ false
    → In n a.joined ⊎ In n a.keyed
    → n.provider_id ≢ provider_id cfg id
spared parse_time cfg i id n a r d f (inl there) e =
    let joined = (joined_ids-node_keys cfg a.joined).1 n id there e r d f in
    let known : one_of a.instance.id (joined_ids a.joined) ≡ true =
      rw a.named (one_of-In id (joined_ids a.joined) joined) in
    let unjoined = a.releasable.unjoined in cc (known, unjoined)
spared parse_time cfg i id n a r d f (inr there) e =
    let facts = joined_ids-node_keys cfg a.keyed in
    let keyed = facts.0 id (facts.1 n id there e r d f) in
    let known : one_of a.instance.id (node_keys a.keyed) ≡ true =
      rw a.named (one_of-In id (node_keys a.keyed) keyed) in
    let blocked = key_blocks (node_keys a.keyed) a.instance known in
    let free = a.releasable.no_node in cc (blocked, free)

-- A pass of the background loop hands an instance to ReleaseInstance only where both lists of Nodes
-- and the inventory were read and the instance, listed in that inventory, passes every gate of the
-- janitor; and, where the region's name is not empty and holds no dot and the id is not empty, no Node
-- of either list has the provider id of the instance.
pub background_pass-spares :
    (parse_time : Str → Option ℤ) (cfg : Config) (i : PassInput) (m : Metrics) (id : Str)
    → In id (background_pass parse_time cfg i m).releases
    → (a : IsAllowed parse_time cfg i id) × (cfg.ens_region ≢ []
        → index_byte b'.' cfg.ens_region ≡ none
        → is_empty id ≡ false
        → (n : Node) → In n a.joined ⊎ In n a.keyed
        → n.provider_id ≢ provider_id cfg id)
unfolding background_pass
background_pass-spares parse_time cfg i m id h =
    let a =
      janitor_part-IsAllowed parse_time cfg i m id i.to_join i.to_key i.owned refl refl refl h in
    (a, λ r d f n there e. spared parse_time cfg i id n a r d f there e)
