-- ===== src/Janitor/Confirmed.antt =====
-- Which Node objects the cleanup may delete.
use ens_provider.Prelude.{
  ℕ, ◌+◌, ◌≡◌, refl, sym, inl, inr, Bool, true, false, Option, none, some, List, [], ◌∷◌, Str,
  codes, str_eq, is_empty, In, ℤ, ◌-ℤ◌, ltb_ℤ, arith, Bool-cases, Option-cases, if◌then◌else◌, leb,
}
use ens_provider.Config.{Config}
use ens_provider.Inventory.{Instance, Answer, ok, err}
use ens_provider.Server.{Call, looked_up, deleted_node, Environment}
use ens_provider.Janitor.{
  Condition, Node, StaleNode, ready_condition, derived_instance_id, stale_by_condition,
  stale_node_candidates, clean_confirmed, clean_answered, clean_candidate, cleanup_loop,
  run_node_cleanup, max_node_cleanup_per_tick,
}

-- The Node `n` has been other than ready for the grace period, and stands for an instance.
pub record IsStale (now : ℤ) (cfg : Config) (n : Node) (c : StaleNode) : Type 0 where
  pub ready : Condition
  pub is_ready : ready_condition n.conditions ≡ some ready
  pub not_true : str_eq ready.status (codes "True") ≡ false
  pub over_grace : ltb_ℤ (now -ℤ ready.since) cfg.node_cleanup_grace ≡ false
  pub has_id : is_empty c.instance_id ≡ false
  pub same_name : c.node_name ≡ n.name
  pub same_id : c.instance_id ≡ derived_instance_id n

abbrev pub IsCandidate : ℤ → Config → List Node → StaleNode → Type 0
IsCandidate now cfg nodes c = (n : Node) × In n nodes × IsStale now cfg n c

stale_by_condition-IsStale :
    (now : ℤ) (cfg : Config) (n : Node) (c : StaleNode) (o : Option Condition)
    → ready_condition n.conditions ≡ o
    → stale_by_condition now cfg n o ≡ some c
    → IsStale now cfg n c
unfolding stale_by_condition
stale_by_condition-IsStale now cfg n c none q h = ground arith
stale_by_condition-IsStale now cfg n c (some ready) q h =
    elim (Bool-cases (str_eq ready.status (codes "True"))) [
      | inl good ↦ cc (rw good at h)
      | inr not_true ↦
          (let h₁ = rw not_true at h in
            elim (Bool-cases (ltb_ℤ (now -ℤ ready.since) cfg.node_cleanup_grace)) [
              | inl short ↦ cc (rw short at h₁)
              | inr long ↦
                  (let h₂ = rw long at h₁ in
                    elim (Bool-cases (is_empty (derived_instance_id n))) [
                      | inl blank ↦ cc (rw blank at h₂)
                      | inr known ↦
                          (let e = rw known at h₂ in
                            record {
                              ready = ready;
                              is_ready = q;
                              not_true = not_true;
                              over_grace = long;
                              has_id =
                                  let same : derived_instance_id n ≡ c.instance_id = ground arith in
                                  rw (sym same) known;
                              same_name = ground arith;
                              same_id = ground arith;
                            })
                    ])
            ])
    ]

abbrev AllCandidate : (now : ℤ) (cfg : Config) (nodes : List Node) → List StaleNode → Type 0
AllCandidate now cfg nodes [] = Unit
AllCandidate now cfg nodes (c ∷ cs) = IsCandidate now cfg nodes c × AllCandidate now cfg nodes cs

AllCandidate-map :
    (now : ℤ) (cfg : Config) (n : Node) (nodes : List Node) (cs : List StaleNode)
    → AllCandidate now cfg nodes cs
    → AllCandidate now cfg (n ∷ nodes) cs
AllCandidate-map now cfg n nodes [] h = tt
AllCandidate-map now cfg n nodes (c ∷ cs) ((m, listed, s), h) =
    ((m, inr listed, s), AllCandidate-map now cfg n nodes cs h)

stale_node_candidates-AllCandidate :
    (now : ℤ) (cfg : Config) (nodes : List Node)
    → AllCandidate now cfg nodes (stale_node_candidates now cfg nodes)
unfolding stale_node_candidates
stale_node_candidates-AllCandidate now cfg [] = tt
stale_node_candidates-AllCandidate now cfg (n ∷ nodes) =
    let later =
      AllCandidate-map now cfg n nodes (stale_node_candidates now cfg nodes)
        (stale_node_candidates-AllCandidate now cfg nodes) in
    elim (Option-cases (stale_by_condition now cfg n (ready_condition n.conditions))) [
      | inl p ↦ rw (p) later
      | inr (c, p) ↦ rw (p) (
        (n, inl refl, stale_by_condition-IsStale now cfg n c (ready_condition n.conditions) refl p),
        later,
      )
    ]

module _ (now : ℤ) (cfg : Config) (nodes : List Node) where
  -- The deletion follows the lookup that found no such instance.
  abbrev Denies : Str → List Call → Type 0
  Denies name (looked_up id (ok none) ∷ rest) =
      (c : StaleNode) × IsCandidate now cfg nodes c × (c.node_name ≡ name) × (c.instance_id ≡ id)
  Denies name _ = ⊥

  abbrev pub AllConfirmed : List Call → Type 0
  AllConfirmed [] = Unit
  AllConfirmed (deleted_node name done ∷ rest) = Denies name rest × AllConfirmed rest
  AllConfirmed (_ ∷ rest) = AllConfirmed rest

  module _ (env : Environment) where
    clean_answered-AllConfirmed :
        (c : StaleNode) (log : List Call) (a : Answer (Option Instance))
        → IsCandidate now cfg nodes c
        → AllConfirmed log
        → AllConfirmed (clean_answered env c (looked_up c.instance_id a ∷ log) a).0
    unfolding clean_answered clean_confirmed
    clean_answered-AllConfirmed c log (err e) s h = h
    clean_answered-AllConfirmed c log (ok (some i)) s h = h
    clean_answered-AllConfirmed c log (ok none) s h =
        elim (Option-cases
          (env.delete_node_object (looked_up c.instance_id (ok none) ∷ log) c.node_name)) [
            | inl p ↦ rw (p, clean_confirmed) ((c, s, refl, refl), h)
            | inr (e, p) ↦ rw (p, clean_confirmed) ((c, s, refl, refl), h)
          ]

    cleanup_loop-AllConfirmed :
        (cs : List StaleNode) (d : ℕ) (log : List Call)
        → AllCandidate now cfg nodes cs
        → AllConfirmed log
        → AllConfirmed (cleanup_loop env cs d log)
    unfolding cleanup_loop clean_candidate
    cleanup_loop-AllConfirmed [] d log s h = h
    cleanup_loop-AllConfirmed (c ∷ rest) d log (s, ss) h =
        elim (Bool-cases (leb max_node_cleanup_per_tick d)) [
          | inl p ↦ rw (p) h
          | inr p ↦
              let (log', gone) = clean_candidate env c log in
              rw (p) (
                cleanup_loop-AllConfirmed rest (if gone then d + 1 else d) log' ss
                  (clean_answered-AllConfirmed c log (env.instance_by_id log c.instance_id) s h))
        ]

-- Every Node object that a pass of the cleanup asks to delete is a candidate of this pass: by its
-- Ready condition it has been other than "True" for at least the grace period, and the instance that
-- it stands for was looked up immediately before and found absent. With the cleanup disabled no call
-- is made.
pub run_node_cleanup-AllConfirmed :
    (env : Environment) (now : ℤ) (cfg : Config) (nodes : List Node)
    → AllConfirmed now cfg nodes (run_node_cleanup env now cfg nodes [])
      × (cfg.janitor_node_cleanup ≡ false → run_node_cleanup env now cfg nodes [] ≡ [])
unfolding run_node_cleanup
run_node_cleanup-AllConfirmed env now cfg nodes =
    (enabled_only cfg.janitor_node_cleanup, λ p. rw (p) refl)
  where
    enabled_only :
        (b : Bool)
        → AllConfirmed now cfg nodes
            (if b then cleanup_loop env (stale_node_candidates now cfg nodes) 0 [] else [])
    enabled_only true =
        cleanup_loop-AllConfirmed now cfg nodes env (stale_node_candidates now cfg nodes) 0 []
          (stale_node_candidates-AllCandidate now cfg nodes) tt
    enabled_only false = tt
