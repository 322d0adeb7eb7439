-- ===== src/Janitor/Drain.antt =====
-- What one pass of the cleanup deletes, as names of Node objects.
pub mod Passes
use ens_provider.Prelude.{
  ℕ, ◌+◌, ◌*◌, ◌≤◌, suc, ◌≡◌, refl, sym, ap, subst, inl, inr, ◌⊎◌, Bool, true, false, not, Option,
  none, some, List, [], ◌∷◌, Str, str_eq, str_eq_refl, In, All, length, count_if, filter_by, leb,
  leb→le, arith, Bool-cases, Option-cases, if◌then◌else◌, ℤ, ◌≤ℤ◌, ◌-ℤ◌, ltb_ℤ, -ℤ_parts, is_empty,
}
use ens_provider.Config.{Config}
use ens_provider.Inventory.{Instance, Answer, ok, err}
use ens_provider.Server.{Call, looked_up, deleted_node, released, Environment, one_of}
use ens_provider.Janitor.{
  Node, StaleNode, Condition, ready_condition, derived_instance_id, stale_by_condition,
  stale_node_candidates, clean_confirmed, clean_answered, clean_candidate, cleanup_loop,
  run_node_cleanup, max_node_cleanup_per_tick, cons_stale,
}

-- The names of the Node objects that a list of calls has deleted.
unfoldable pub deleted_names : List Call → List Str
deleted_names [] = []
deleted_names (deleted_node name true ∷ log) = name ∷ deleted_names log
deleted_names (_ ∷ log) = deleted_names log

confirmed-cases :
    (env : Environment) (c : StaleNode) (log : List Call)
    → (((clean_confirmed env c log).1 ≡ true)
        × (deleted_names (clean_confirmed env c log).0 ≡ c.node_name ∷ deleted_names log))
      ⊎ (((clean_confirmed env c log).1 ≡ false)
          × (deleted_names (clean_confirmed env c log).0 ≡ deleted_names log))
unfolding clean_confirmed deleted_names
confirmed-cases env c log = elim (Option-cases (env.delete_node_object log c.node_name)) [
  | inl p ↦ rw (p, clean_confirmed) (inl (refl, refl))
  | inr (x, p) ↦ rw (p, clean_confirmed) (inr (refl, refl))
]

answered-cases :
    (env : Environment) (c : StaleNode) (log : List Call) (a : Answer (Option Instance))
    → (((clean_answered env c log a).1 ≡ true)
        × (deleted_names (clean_answered env c log a).0 ≡ c.node_name ∷ deleted_names log))
      ⊎ (((clean_answered env c log a).1 ≡ false)
          × (deleted_names (clean_answered env c log a).0 ≡ deleted_names log))
unfolding clean_answered
answered-cases env c log (err e) = inr (refl, refl)
answered-cases env c log (ok (some i)) = inr (refl, refl)
answered-cases env c log (ok none) = confirmed-cases env c log

-- A candidate is deleted, or nothing is.
candidate-cases :
    (env : Environment) (c : StaleNode) (log : List Call)
    → (((clean_candidate env c log).1 ≡ true)
        × (deleted_names (clean_candidate env c log).0 ≡ c.node_name ∷ deleted_names log))
      ⊎ (((clean_candidate env c log).1 ≡ false)
          × (deleted_names (clean_candidate env c log).0 ≡ deleted_names log))
unfolding clean_candidate deleted_names
candidate-cases env c log =
    let answer = env.instance_by_id log c.instance_id in
    answered-cases env c (looked_up c.instance_id answer ∷ log) answer

-- ENS denies the instance whenever it is asked, and the cluster deletes the Node.
pub record Confirms (env : Environment) (id name : Str) : Type 0 where
  pub denied : (log : List Call) → env.instance_by_id log id ≡ ok none
  pub deletes : (log : List Call) → env.delete_node_object log name ≡ none

answered-confirmed :
    (env : Environment) (c : StaleNode) (log : List Call) (a : Answer (Option Instance))
    → a ≡ ok none
    → env.delete_node_object log c.node_name ≡ none
    → ((clean_answered env c log a).1 ≡ true)
      × (deleted_names (clean_answered env c log a).0 ≡ c.node_name ∷ deleted_names log)
unfolding clean_answered clean_confirmed deleted_names
answered-confirmed env c log a e h = rw e (rw (h, clean_confirmed) (refl, refl))

candidate-confirmed :
    (env : Environment) (c : StaleNode) (log : List Call)
    → Confirms env c.instance_id c.node_name
    → ((clean_candidate env c log).1 ≡ true)
      × (deleted_names (clean_candidate env c log).0 ≡ c.node_name ∷ deleted_names log)
unfolding clean_candidate deleted_names
candidate-confirmed env c log h =
    let answer = env.instance_by_id log c.instance_id in
    let log' = looked_up c.instance_id answer ∷ log in
    answered-confirmed env c log' answer (h.denied log) (h.deletes log')

first_one_of : (s : Str) (names : List Str) → one_of s (s ∷ names) ≡ true
unfolding one_of
first_one_of s names = rw (str_eq_refl s) refl

module _ (env : Environment) where
  abbrev advance : StaleNode → ℕ → List Call → ℕ
  advance c d log = if (clean_candidate env c log).1 then d + 1 else d

  -- The three things that a turn of the loop may do.
  loop_end : (d : ℕ) (log : List Call) → cleanup_loop env [] d log ≡ log
  unfolding cleanup_loop
  loop_end d log = refl

  loop_full :
      (c : StaleNode) (rest : List StaleNode) (d : ℕ) (log : List Call)
      → leb max_node_cleanup_per_tick d ≡ true
      → cleanup_loop env (c ∷ rest) d log ≡ log
  unfolding cleanup_loop
  loop_full c rest d log p = rw (p) refl

  loop_next :
      (c : StaleNode) (rest : List StaleNode) (d : ℕ) (log : List Call)
      → leb max_node_cleanup_per_tick d ≡ false
      → cleanup_loop env (c ∷ rest) d log
        ≡ cleanup_loop env rest (advance c d log) (clean_candidate env c log).0
  unfolding cleanup_loop
  loop_next c rest d log p = rw (p) refl

  one_of_step :
      (s : Str) (c : StaleNode) (log : List Call)
      → one_of s (deleted_names log) ≡ true
      → one_of s (deleted_names (clean_candidate env c log).0) ≡ true
  unfolding one_of
  one_of_step s c log h = elim (candidate-cases env c log) [
    | inl (g, e) ↦ rw e (ground (arith, h))
    | inr (g, e) ↦ rw e h
  ]

  -- What is deleted stays deleted.
  loop-one_of :
      (s : Str) (cs : List StaleNode) (d : ℕ) (log : List Call)
      → one_of s (deleted_names log) ≡ true
      → one_of s (deleted_names (cleanup_loop env cs d log)) ≡ true
  loop-one_of s [] d log h = rw (loop_end d log) h
  loop-one_of s (c ∷ rest) d log h = elim (Bool-cases (leb max_node_cleanup_per_tick d)) [
    | inl p ↦ rw (loop_full c rest d log p) h
    | inr p ↦
        rw (loop_next c rest d log p) (
          loop-one_of s rest (advance c d log) (clean_candidate env c log).0
            (one_of_step s c log h))
  ]

  abbrev pub among_deleted : List Call → StaleNode → Bool
  among_deleted log c = one_of c.node_name (deleted_names log)

  -- Every deletion that `result` has beyond `log` is that of a candidate.
  abbrev pub AreCounted : List StaleNode → List Call → List Call → Type 0
  AreCounted cs log result =
      length (deleted_names result)
      ≤ length (deleted_names log) + count_if (among_deleted result) cs

  counted_next :
      (c : StaleNode) (rest : List StaleNode) (log result : List Call)
      → (deleted_names (clean_candidate env c log).0 ≡ c.node_name ∷ deleted_names log
          → among_deleted result c ≡ true)
      → AreCounted rest (clean_candidate env c log).0 result
      → AreCounted (c ∷ rest) log result
  counted_next c rest log result kept later = elim (candidate-cases env c log) [
    | inl (g, e) ↦ rw (kept e) (omega (arith, ap length e))
    | inr (g, e) ↦ omega (arith, ap length e)
  ]

  pub loop-count :
      (cs : List StaleNode) (d : ℕ) (log : List Call)
      → AreCounted cs log (cleanup_loop env cs d log)
  loop-count [] d log = rw (loop_end d log) (omega arith)
  loop-count (c ∷ rest) d log = elim (Bool-cases (leb max_node_cleanup_per_tick d)) [
    | inl p ↦ subst (AreCounted (c ∷ rest) log) (sym (loop_full c rest d log p)) (omega arith)
    | inr p ↦
        (let log' = (clean_candidate env c log).0 in
          subst (AreCounted (c ∷ rest) log) (sym (loop_next c rest d log p)) (
            counted_next c rest log (cleanup_loop env rest (advance c d log) log')
              (λ e.
                loop-one_of c.node_name rest (advance c d log) log'
                  (rw e (first_one_of c.node_name (deleted_names log))))
              (loop-count rest (advance c d log) log')))
  ]

  -- A candidate that is confirmed is deleted, unless the pass reaches its cap.
  pub loop-reaches :
      (c : StaleNode) (cs : List StaleNode) (d : ℕ) (log : List Call)
      → Confirms env c.instance_id c.node_name
      → In c cs
      → length (deleted_names log) ≡ d
      → (one_of c.node_name (deleted_names (cleanup_loop env cs d log)) ≡ true)
        ⊎ (2 ≤ length (deleted_names (cleanup_loop env cs d log)))
  loop-reaches c [] d log h k e = absurd k
  loop-reaches c (x ∷ rest) d log h k e = elim (Bool-cases (leb max_node_cleanup_per_tick d)) [
    | inl p ↦
        rw (loop_full x rest d log p) (inr (omega (arith, leb→le max_node_cleanup_per_tick d p)))
    | inr p ↦
        (let log' = (clean_candidate env x log).0 in
          rw (loop_next x rest d log p) (elim k [
            | inl same ↦
                (let (_, gone) = candidate-confirmed env c log h in
                  let there : one_of c.node_name (deleted_names log') ≡ true =
                    rw (sym same) (rw gone (first_one_of c.node_name (deleted_names log))) in
                  inl (loop-one_of c.node_name rest (advance x d log) log' there))
            | inr later ↦
                loop-reaches c rest (advance x d log) log' h later
                  (elim (candidate-cases env x log) [
                    | inl (g, f) ↦ rw g (omega (arith, ap length f))
                    | inr (g, f) ↦ rw g (omega (arith, ap length f))
                  ])
          ]))
  ]
