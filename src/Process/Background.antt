-- ===== src/Process/Background.antt =====
-- main.go: `backgroundLoop`, one pass after the other. What the cluster and ENS answer in a pass is a
-- record; failures are only logged.
pub mod Spares
pub mod Ticker
use ens_provider.Prelude.{
  ℕ, Bool, true, false, Option, none, some, List, [], ◌∷◌, Str, if◌then◌else◌, ℤ, pos, int64, scale,
  leb_ℤ,
}
use ens_provider.Config.{Config}
use ens_provider.Inventory.{Instance, Answer, ok, err}
use ens_provider.Metrics.{Metrics}
use ens_provider.Server.{Call, Environment}
use ens_provider.Janitor.{Node, run_janitor, run_node_cleanup}
use ens_provider.Kube.{Patch, reconcile_provider_ids, joined_instance_ids, managed_node_keys}

-- time.Duration(cfg.ReconcileLoopSeconds) * time.Second
unfoldable pub reconcile_period : Config → ℤ
unfolding int64
reconcile_period cfg = int64 (scale cfg.reconcile_loop_seconds 1000000000)

-- What a pass meets: the answers to its four lists of Nodes and to its two readings of the inventory,
-- which patches the cluster takes, its two times, and the environment of the cleanup.
pub record PassInput : Type 0 where
  pub to_reconcile : Answer (List Node)
  pub owned_to_reconcile : Answer (List Instance)
  pub patch_api : List Patch → Str → Bool
  pub to_join : Answer (List Node)
  pub to_key : Answer (List Node)
  pub owned : Answer (List Instance)
  pub janitor_time : ℤ
  pub to_clean : Answer (List Node)
  pub cleanup_time : ℤ
  pub environment : Environment

-- What a pass does: the patches of provider ids, the gauges, the ids that are handed to
-- ReleaseInstance, and the calls of the cleanup.
pub record PassOutput : Type 0 where
  pub patches : List Patch
  pub metrics : Metrics
  pub releases : List Str
  pub cleanup : List Call

-- The janitor runs only with both sets of ids.
unfoldable pub janitor_part :
    (Str → Option ℤ)
    → ℤ
    → Config
    → Answer (List Instance)
    → Answer (List Str)
    → Answer (List Str)
    → Metrics
    → Metrics × List Str
unfolding run_janitor
janitor_part parse_time now cfg owned (err e) keys m = (m, [])
janitor_part parse_time now cfg owned (ok joined) (err e) m = (m, [])
janitor_part parse_time now cfg owned (ok joined) (ok keys) m =
    run_janitor parse_time now cfg owned joined keys m

unfoldable pub cleanup_part : Environment → ℤ → Config → Answer (List Node) → List Call
unfolding run_node_cleanup
cleanup_part env now cfg (err e) = []
cleanup_part env now cfg (ok nodes) = run_node_cleanup env now cfg nodes []

unfoldable pub background_pass : (Str → Option ℤ) → Config → PassInput → Metrics → PassOutput
unfolding reconcile_provider_ids joined_instance_ids managed_node_keys janitor_part cleanup_part
background_pass parse_time cfg i m =
    let (m', released) =
      janitor_part parse_time i.janitor_time cfg i.owned (joined_instance_ids i.to_join)
        (managed_node_keys i.to_key) m in
    record {
      patches = (reconcile_provider_ids i.patch_api cfg i.to_reconcile i.owned_to_reconcile).0;
      metrics = m';
      releases = released;
      cleanup = cleanup_part i.environment i.cleanup_time cfg i.to_clean;
    }

-- The passes that follow one another: `none` where the context is done.
unfoldable pub further_passes :
    (Str → Option ℤ) → Config → List (Option PassInput) → Metrics → List PassOutput
unfolding background_pass
further_passes parse_time cfg [] m = []
further_passes parse_time cfg (none ∷ events) m = []
further_passes parse_time cfg (some i ∷ events) m =
    let out = background_pass parse_time cfg i m in
    out ∷ further_passes parse_time cfg events out.metrics

-- backgroundLoop: time.NewTicker panics for a period that is not positive, which is `none`; otherwise
-- the first pass is made at once, and one for every tick.
unfoldable pub background_loop :
    (Str → Option ℤ)
    → Config
    → PassInput
    → List (Option PassInput)
    → Metrics
    → Option (List PassOutput)
unfolding reconcile_period further_passes
background_loop parse_time cfg first events m =
    if leb_ℤ (reconcile_period cfg) (pos 0)
    then none
    else some (further_passes parse_time cfg (some first ∷ events) m)
