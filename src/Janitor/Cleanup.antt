-- ===== src/Janitor/Cleanup.antt =====
-- Which Node objects the cleanup deletes, and how many.
use ens_provider.Prelude.{
  ℕ, ◌+◌, ◌≤◌, ◌≡◌, inl, inr, Bool, true, false, Option, none, some, List, [], ◌∷◌, ℤ, leb, arith,
  Bool-cases, Option-cases, if◌then◌else◌,
}
use ens_provider.Config.{Config}
use ens_provider.Inventory.{Instance, Answer, ok, err}
use ens_provider.Server.{Call, looked_up, deleted_node, Environment}
use ens_provider.Janitor.{
  Node, StaleNode, stale_node_candidates, clean_confirmed, clean_answered, clean_candidate,
  cleanup_loop, run_node_cleanup, max_node_cleanup_per_tick,
}

-- How many Node objects were deleted.
abbrev pub deletions : List Call → ℕ
deletions [] = 0
deletions (deleted_node name true ∷ rest) = 1 + deletions rest
deletions (_ ∷ rest) = deletions rest

abbrev one_if : Bool → ℕ
one_if true = 1
one_if false = 0

clean_confirmed-deletions :
    (env : Environment) (c : StaleNode) (log : List Call)
    → deletions (clean_confirmed env c log).0 ≡ deletions log + one_if (clean_confirmed env c log).1
unfolding clean_confirmed
clean_confirmed-deletions env c log = elim (Option-cases (env.delete_node_object log c.node_name)) [
  | inl p ↦ rw (p, clean_confirmed) (omega arith)
  | inr (x, p) ↦ rw (p, clean_confirmed) (omega arith)
]

clean_answered-deletions :
    (env : Environment) (c : StaleNode) (log : List Call) (a : Answer (Option Instance))
    → deletions (clean_answered env c log a).0
      ≡ deletions log + one_if (clean_answered env c log a).1
unfolding clean_answered
clean_answered-deletions env c log (err e) = omega arith
clean_answered-deletions env c log (ok (some i)) = omega arith
clean_answered-deletions env c log (ok none) = clean_confirmed-deletions env c log

clean_candidate-deletions :
    (env : Environment) (c : StaleNode) (log : List Call)
    → deletions (clean_candidate env c log).0 ≡ deletions log + one_if (clean_candidate env c log).1
unfolding clean_candidate
clean_candidate-deletions env c log =
    let answer = env.instance_by_id log c.instance_id in
    clean_answered-deletions env c (looked_up c.instance_id answer ∷ log) answer

count_step :
    (b : Bool) (x y l d m : ℕ)
    → x ≡ l + one_if b
    → y + (if b then d + 1 else d) ≤ x + m
    → y + d ≤ l + m
count_step true x y l d m p h = omega arith
count_step false x y l d m p h = omega arith

next_le : (b : Bool) (d m : ℕ) → leb m d ≡ false → d ≤ m → (if b then d + 1 else d) ≤ m
next_le true d m p h = ground arith
next_le false d m p h = h

cleanup_loop-deletions :
    (env : Environment) (cs : List StaleNode) (d : ℕ) (log : List Call)
    → d ≤ max_node_cleanup_per_tick
    → deletions (cleanup_loop env cs d log) + d ≤ deletions log + max_node_cleanup_per_tick
unfolding cleanup_loop
cleanup_loop-deletions env [] d log h = omega arith
cleanup_loop-deletions env (c ∷ rest) d log h =
    elim (Bool-cases (leb max_node_cleanup_per_tick d)) [
      | inl p ↦ rw (p) (omega arith)
      | inr p ↦
          let (log', gone) = clean_candidate env c log in
          let d' = if gone then d + 1 else d in
          rw (p) (
            count_step gone (deletions log') (deletions (cleanup_loop env rest d' log'))
              (deletions log) d max_node_cleanup_per_tick (clean_candidate-deletions env c log)
              (cleanup_loop-deletions env rest d' log'
                (next_le gone d max_node_cleanup_per_tick p h)))
    ]

-- One pass of the cleanup deletes at most two Node objects, whatever the number of candidates and
-- the answers of the cluster and of ENS are.
pub run_node_cleanup-deletions :
    (env : Environment) (now : ℤ) (cfg : Config) (nodes : List Node) (log : List Call)
    → deletions (run_node_cleanup env now cfg nodes log) ≤ deletions log + 2
unfolding run_node_cleanup
run_node_cleanup-deletions env now cfg nodes log = elim (Bool-cases cfg.janitor_node_cleanup) [
  | inl p ↦
      let bound =
        cleanup_loop-deletions env (stale_node_candidates now cfg nodes) 0 log (omega arith) in
      rw (p) (omega arith)
  | inr p ↦ rw (p) (omega arith)
]
