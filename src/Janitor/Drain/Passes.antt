-- ===== src/Janitor/Drain/Passes.antt =====
-- The cleanup over several passes: when a stale Node object is gone.
use ens_provider.Prelude.{
  ◌+◌, ◌*◌, ◌≤◌, ◌≡◌, refl, sym, subst, inl, inr, true, false, not, Option, none, some, List, [],
  ◌∷◌, Str, In, All, length, count_if, filter_by, arith, Bool-cases, Option-cases, ℤ, ◌≤ℤ◌, ◌-ℤ◌,
  -ℤ_parts,
}
use ens_provider.Config.{Config}
use ens_provider.Server.{Call, Environment, one_of}
use ens_provider.Janitor.{
  Node, StaleNode, Condition, ready_condition, derived_instance_id, stale_by_condition,
  stale_node_candidates, cleanup_loop, run_node_cleanup, cons_stale,
}
use ens_provider.Janitor.Drain.{deleted_names, Confirms, loop-count, loop-reaches}

-- The Node objects that are left after a list of calls.
unfoldable pub surviving : List Call → List Node → List Node
surviving log = filter_by (λ n. not (one_of n.name (deleted_names log)))

-- The cleanup of one pass after the other: each lists the Node objects that are left, at its time and
-- in its environment.
unfoldable pub cleanup_passes : Config → List (ℤ × Environment) → List Node → List Node
unfolding surviving
cleanup_passes cfg [] nodes = nodes
cleanup_passes cfg ((now, env) ∷ passes) nodes =
    cleanup_passes cfg passes (surviving (run_node_cleanup env now cfg nodes []) nodes)

stale_by_condition-name :
    (now : ℤ) (cfg : Config) (n : Node) (o : Option Condition) (c : StaleNode)
    → stale_by_condition now cfg n o ≡ some c
    → (c.node_name ≡ n.name) × (c.instance_id ≡ derived_instance_id n)
unfolding stale_by_condition
stale_by_condition-name now cfg n none c h = cc
stale_by_condition-name now cfg n (some ready) c h = ground arith

-- A Node that is stale is so later.
stale_by_condition-later :
    (t now : ℤ) (cfg : Config) (n : Node) (o : Option Condition) (c : StaleNode)
    → t ≤ℤ now
    → stale_by_condition t cfg n o ≡ some c
    → (k : StaleNode) × (stale_by_condition now cfg n o ≡ some k)
unfolding stale_by_condition
stale_by_condition-later t now cfg n none c le h = cc
stale_by_condition-later t now cfg n (some ready) c le h = (
  record {
    node_name = n.name;
    instance_id = derived_instance_id n;
    not_ready_for = now -ℤ ready.since;
  },
  ground (arith, -ℤ_parts t ready.since, -ℤ_parts now ready.since),
)

candidates-count :
    (now : ℤ) (cfg : Config) (nodes : List Node) (names : List Str)
    → count_if (λ c. one_of c.node_name names) (stale_node_candidates now cfg nodes)
      ≤ count_if (λ (n : Node). one_of n.name names) nodes
unfolding stale_node_candidates
candidates-count now cfg [] names = omega arith
candidates-count now cfg (n ∷ nodes) names =
    let later = candidates-count now cfg nodes names in
    elim (Option-cases (stale_by_condition now cfg n (ready_condition n.conditions))) [
      | inl p ↦ rw (p, cons_stale) (omega arith)
      | inr (c, p) ↦
          (let (e, _) = stale_by_condition-name now cfg n (ready_condition n.conditions) c p in
            rw (p, cons_stale) (rw e (omega arith)))
    ]

candidates-In :
    (now : ℤ) (cfg : Config) (nodes : List Node) (n : Node) (c : StaleNode)
    → In n nodes
    → stale_by_condition now cfg n (ready_condition n.conditions) ≡ some c
    → In c (stale_node_candidates now cfg nodes)
unfolding stale_node_candidates
candidates-In now cfg [] n c h e = absurd h
candidates-In now cfg (x ∷ nodes) n c (inl same) e = rw (sym same) (rw (e, cons_stale) (inl refl))
candidates-In now cfg (x ∷ nodes) n c (inr h) e =
    let later = candidates-In now cfg nodes n c h e in
    elim (Option-cases (stale_by_condition now cfg x (ready_condition x.conditions))) [
      | inl p ↦ rw (p, cons_stale) later
      | inr (k, p) ↦ rw (p, cons_stale) (inr later)
    ]

surviving-length :
    (log : List Call) (nodes : List Node)
    → length (surviving log nodes)
        + count_if (λ (n : Node). one_of n.name (deleted_names log)) nodes
      ≡ length nodes
unfolding surviving
surviving-length log [] = refl
surviving-length log (n ∷ nodes) = ground (arith, surviving-length log nodes)

surviving-In :
    (log : List Call) (nodes : List Node) (n : Node)
    → In n (surviving log nodes)
    → In n nodes × (one_of n.name (deleted_names log) ≡ false)
unfolding surviving
surviving-In log [] n h = absurd h
surviving-In log (x ∷ nodes) n h = elim (Bool-cases (one_of x.name (deleted_names log))) [
  | inl p ↦ (let (k, e) = surviving-In log nodes n (rw p at h) in (inr k, e))
  | inr p ↦ (elim (rw p at h) [
    | inl same ↦ (inl same, rw same p)
    | inr later ↦ (let (k, e) = surviving-In log nodes n later in (inr k, e))
  ])
]

passes-In :
    (cfg : Config) (passes : List (ℤ × Environment)) (nodes : List Node) (n : Node)
    → In n (cleanup_passes cfg passes nodes)
    → In n nodes
unfolding cleanup_passes
passes-In cfg [] nodes n h = h
passes-In cfg ((now, env) ∷ passes) nodes n h =
    (surviving-In (run_node_cleanup env now cfg nodes []) nodes n (passes-In cfg passes _ n h)).0

no_names : length (deleted_names []) ≡ 0
unfolding deleted_names
no_names = refl

-- One pass over a list with a confirmed stale Node: the Node is deleted, or two others are.
pass-progress :
    (env : Environment) (now : ℤ) (cfg : Config) (nodes : List Node) (n : Node) (k : StaleNode)
    → cfg.janitor_node_cleanup ≡ true
    → stale_by_condition now cfg n (ready_condition n.conditions) ≡ some k
    → Confirms env k.instance_id k.node_name
    → In n (surviving (run_node_cleanup env now cfg nodes []) nodes)
    → length (surviving (run_node_cleanup env now cfg nodes []) nodes) + 2 ≤ length nodes
unfolding run_node_cleanup
pass-progress env now cfg nodes n k on stale conf left =
    let log = cleanup_loop env (stale_node_candidates now cfg nodes) 0 [] in
    let run : run_node_cleanup env now cfg nodes [] ≡ log = rw (on, run_node_cleanup) refl in
    let left' : In n (surviving log nodes) = subst (λ l. In n (surviving l nodes)) run left in
    let (listed, kept) = surviving-In log nodes n left' in
    let (name, _) = stale_by_condition-name now cfg n (ready_condition n.conditions) k stale in
    let counted = loop-count env (stale_node_candidates now cfg nodes) 0 [] in
    let fewer = candidates-count now cfg nodes (deleted_names log) in
    let total = surviving-length log nodes in
    subst (λ l. length (surviving l nodes) + 2 ≤ length nodes) (sym run)
      (elim (loop-reaches env k (stale_node_candidates now cfg nodes) 0 [] conf
        (candidates-In now cfg nodes n k listed stale) no_names) [
          | inl gone ↦ (let there = rw name at gone in cc)
          | inr two ↦ omega (arith, no_names)
        ])

-- A Node object that was not ready for the grace period by time `t`, whose instance ENS denies and
-- that the cluster deletes whenever it is asked, does not outlive half as many passes of the enabled
-- cleanup as there are Node objects, from `t` on: whatever ENS and the cluster answer on the others,
-- and where no Node object appears meanwhile.
pub cleanup_passes-drains :
    (cfg : Config) (passes : List (ℤ × Environment)) (nodes : List Node) (n : Node) (t : ℤ)
    (c : StaleNode)
    → cfg.janitor_node_cleanup ≡ true
    → stale_by_condition t cfg n (ready_condition n.conditions) ≡ some c
    → All (λ p. (t ≤ℤ p.0) × Confirms p.1 (derived_instance_id n) n.name) passes
    → length nodes ≤ 2 * length passes
    → ¬ In n (cleanup_passes cfg passes nodes)
unfolding cleanup_passes
cleanup_passes-drains cfg [] [] n t c on stale conf few left = left
cleanup_passes-drains cfg [] (x ∷ nodes) n t c on stale conf few left = absurd (omega arith)
cleanup_passes-drains cfg ((now, env) ∷ passes) nodes n t c on stale conf few left =
    let (k, stale') =
      stale_by_condition-later t now cfg n (ready_condition n.conditions) c conf.0.0 stale in
    let (name, id) = stale_by_condition-name now cfg n (ready_condition n.conditions) k stale' in
    let confirmed : Confirms env k.instance_id k.node_name = rw (name, id) conf.0.1 in
    let nodes' = surviving (run_node_cleanup env now cfg nodes []) nodes in
    let progress =
      pass-progress env now cfg nodes n k on stale' confirmed
        (passes-In cfg passes nodes' n left) in
    cleanup_passes-drains cfg passes nodes' n t c on stale conf.1 (omega (arith, few, progress))
      left
