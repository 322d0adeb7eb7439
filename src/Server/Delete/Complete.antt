-- ===== src/Server/Delete/Complete.antt =====
-- What a success of DeleteNodes says of the nodes of the request.
use ens_provider.Prelude.{
  ◌≡◌, refl, ◌⊎◌, inl, inr, true, false, Option, none, some, List, [], ◌∷◌, Str, str_eq, is_empty,
  In, Bool-cases, Option-cases,
}
use ens_provider.Config.{
  Config, Group, group_by_id, group_for_instance_name, strict_edge_instance_id,
}
use ens_provider.Inventory.{Instance, Answer, ok, err}
use ens_provider.Server.{Call, listed_all, looked_up, released, deleted_node, Environment, reply}
use ens_provider.Server.Delete.{
  NodeRef, NodeError, by_id, has_other_label, succeeded, delete_object, release_and_delete,
  after_lookup, with_instance, delete_step, add_error, delete_loop, delete_response, delete_owned,
  node_group_delete_nodes,
}

-- The instance of the node was released or was not there, and its Node object, if it has a name, was
-- deleted.
abbrev pub IsDone : Config → NodeRef → List Call → Type 0
IsDone cfg node log =
    (In (released (strict_edge_instance_id cfg node.provider_id) true) log
      ⊎ In (looked_up (strict_edge_instance_id cfg node.provider_id) (ok none)) log)
    × (is_empty node.name ≡ false → In (deleted_node node.name true) log)

module _ (env : Environment) (cfg : Config) (g : Group) (owned : List Instance) where
  delete_object_grows :
      (node : NodeRef) (c : Call) (log : List Call) → In c log → In c (delete_object env node log).0
  unfolding delete_object
  delete_object_grows node c log h = elim (Bool-cases (is_empty node.name)) [
    | inl unnamed ↦ rw unnamed h
    | inr named ↦ rw named (inr h)
  ]

  delete_object_done :
      (node : NodeRef) (log : List Call)
      → (delete_object env node log).1 ≡ none
      → is_empty node.name ≡ false
      → In (deleted_node node.name true) (delete_object env node log).0
  unfolding delete_object
  delete_object_done node log e named = rw named (go (env.delete_node_object log node.name) refl)
    where
      go :
          (o : Option Str)
          → env.delete_node_object log node.name ≡ o
          → In
              (deleted_node node.name true)
              (deleted_node node.name (succeeded (env.delete_node_object log node.name)) ∷ log)
      go none p = rw p (inl refl)
      go (some x) p = cc (rw (named, p) at e)

  release_and_delete_done :
      (node : NodeRef) (iid : Str) (log : List Call)
      → (release_and_delete env node iid log).1 ≡ none
      → In (released iid true) (release_and_delete env node iid log).0
        × (is_empty node.name ≡ false
            → In (deleted_node node.name true) (release_and_delete env node iid log).0)
  unfolding release_and_delete
  release_and_delete_done node iid log e = elim (Option-cases (env.release_instance log iid)) [
    | inl p ↦
        (let e' = rw (p, release_and_delete) at e in
          rw (p, release_and_delete)
            (
              delete_object_grows node (released iid true) (released iid true ∷ log) (inl refl),
              delete_object_done node (released iid true ∷ log) e',
            ))
    | inr (x, p) ↦ cc (rw (p, release_and_delete) at e)
  ]

  release_and_delete_grows :
      (node : NodeRef) (iid : Str) (c : Call) (log : List Call)
      → In c log
      → In c (release_and_delete env node iid log).0
  unfolding release_and_delete
  release_and_delete_grows node iid c log h = elim (Option-cases (env.release_instance log iid)) [
    | inl p ↦
        rw (p, release_and_delete) (delete_object_grows node c (released iid true ∷ log) (inr h))
    | inr (x, p) ↦ rw (p, release_and_delete) (inr h)
  ]

  -- What one node's calls leave: the earlier calls, and the node gone where there is no error.
  abbrev Leaves : NodeRef → List Call → List Call × Option NodeError → Type 0
  Leaves node log r = ((c : Call) → In c log → In c r.0) × (r.1 ≡ none → IsDone cfg node r.0)

  release_and_delete-Leaves :
      (node : NodeRef) (log : List Call)
      → Leaves node log
          (release_and_delete env node (strict_edge_instance_id cfg node.provider_id) log)
  release_and_delete-Leaves node log = (
    λ c h. release_and_delete_grows node (strict_edge_instance_id cfg node.provider_id) c log h,
    λ e.
        let done =
          release_and_delete_done node (strict_edge_instance_id cfg node.provider_id) log e in
        (inl done.0, done.1),
  )

  after_lookup-Leaves :
      (node : NodeRef) (log : List Call) (answer : Answer (Option Instance))
      → let iid = strict_edge_instance_id cfg node.provider_id in
        Leaves node log (after_lookup env cfg g node iid (looked_up iid answer ∷ log) answer)
  unfolding after_lookup
  after_lookup-Leaves node log (err x) = (λ c h. inr h, λ e. cc e)
  after_lookup-Leaves node log (ok none) =
      let iid = strict_edge_instance_id cfg node.provider_id in
      let log' = looked_up iid (ok none) ∷ log in
      (
        λ c h. delete_object_grows node c log' (inr h),
        λ e. (
          inr (delete_object_grows node (looked_up iid (ok none)) log' (inl refl)),
          delete_object_done node log' e,
        ),
      )
  after_lookup-Leaves node log (ok (some i)) =
      elim (Option-cases (group_for_instance_name cfg i.name)) [
        | inl p ↦ rw (p, after_lookup) (λ c h. inr h, λ e. cc e)
        | inr (owner, p) ↦ elim (Bool-cases (str_eq owner.id g.id)) [
          | inr other ↦ rw (p, after_lookup) (rw other (λ c h. inr h, λ e. cc e))
          | inl same ↦
              let l =
                release_and_delete-Leaves node
                  (looked_up (strict_edge_instance_id cfg node.provider_id) (ok (some i)) ∷ log) in
              rw (p, after_lookup) (rw same (λ c h. l.0 c (inr h), l.1))
        ]
      ]

  with_instance-Leaves :
      (node : NodeRef) (log : List Call) (o : Option Instance)
      → Leaves node log
          (with_instance env cfg g node (strict_edge_instance_id cfg node.provider_id) log o)
  unfolding with_instance
  with_instance-Leaves node log none =
      after_lookup-Leaves node log
        (env.instance_by_id log (strict_edge_instance_id cfg node.provider_id))
  with_instance-Leaves node log (some i) = elim (Bool-cases (str_eq i.group_id g.id)) [
    | inl same ↦ rw same (release_and_delete-Leaves node log)
    | inr other ↦ rw other (λ c h. h, λ e. cc e)
  ]

  delete_step-Leaves :
      (node : NodeRef) (log : List Call) → Leaves node log (delete_step env cfg g owned node log)
  unfolding delete_step
  delete_step-Leaves node log = elim (Bool-cases (has_other_label g node)) [
    | inl other ↦ rw other (λ c h. h, λ e. cc e)
    | inr same ↦
        rw same (elim (Bool-cases (is_empty (strict_edge_instance_id cfg node.provider_id))) [
          | inl foreign ↦ rw foreign (λ c h. h, λ e. cc e)
          | inr ours ↦ rw ours (
              with_instance-Leaves node log
                (by_id (strict_edge_instance_id cfg node.provider_id) owned))
        ])
  ]

  delete_loop_grows :
      (todo : List NodeRef) (log : List Call) (errs : List NodeError) (c : Call)
      → In c log
      → In c (delete_loop env cfg g owned todo log errs).0
  unfolding delete_loop
  delete_loop_grows [] log errs c h = h
  delete_loop_grows (node ∷ rest) log errs c h =
      let r = delete_step env cfg g owned node log in
      delete_loop_grows rest r.0 (add_error r.1 errs) c ((delete_step-Leaves node log).0 c h)

  add_error_nil :
      (e : Option NodeError) (errs : List NodeError)
      → add_error e errs ≡ []
      → (e ≡ none) × (errs ≡ [])
  add_error_nil none errs h = (refl, h)
  add_error_nil (some e) [] h = cc
  add_error_nil (some e) (x ∷ errs) h = cc

  delete_loop_nil :
      (todo : List NodeRef) (log : List Call) (errs : List NodeError)
      → (delete_loop env cfg g owned todo log errs).1 ≡ []
      → errs ≡ []
  unfolding delete_loop
  delete_loop_nil [] log errs h = h
  delete_loop_nil (node ∷ rest) log errs h =
      let r = delete_step env cfg g owned node log in
      (add_error_nil r.1 errs (delete_loop_nil rest r.0 (add_error r.1 errs) h)).1

  IsDone-grows :
      (node : NodeRef) (log log' : List Call)
      → ((c : Call) → In c log → In c log')
      → IsDone cfg node log
      → IsDone cfg node log'
  IsDone-grows node log log' sub (inl r, d) = (inl (sub _ r), λ n. sub _ (d n))
  IsDone-grows node log log' sub (inr l, d) = (inr (sub _ l), λ n. sub _ (d n))

  delete_loop-IsDone :
      (todo : List NodeRef) (log : List Call) (errs : List NodeError)
      → (delete_loop env cfg g owned todo log errs).1 ≡ []
      → (node : NodeRef) → In node todo
      → IsDone cfg node (delete_loop env cfg g owned todo log errs).0
  unfolding delete_loop
  delete_loop-IsDone [] log errs h node p = absurd p
  delete_loop-IsDone (n ∷ rest) log errs h node (inl e) =
      let r = delete_step env cfg g owned n log in
      let none_here =
        (add_error_nil r.1 errs (delete_loop_nil rest r.0 (add_error r.1 errs) h)).0 in
      rw e (
        IsDone-grows n r.0 (delete_loop env cfg g owned rest r.0 (add_error r.1 errs)).0
          (λ c q. delete_loop_grows rest r.0 (add_error r.1 errs) c q)
          ((delete_step-Leaves n log).1 none_here))
  delete_loop-IsDone (n ∷ rest) log errs h node (inr p) =
      let r = delete_step env cfg g owned n log in
      delete_loop-IsDone rest r.0 (add_error r.1 errs) h node p

delete_response_nil : (errs : List NodeError) → delete_response errs ≡ reply tt → errs ≡ []
delete_response_nil [] h = refl
delete_response_nil (e ∷ errs) h = cc

delete_owned-IsDone :
    (env : Environment) (cfg : Config) (g : Group) (nodes : List NodeRef) (log : List Call)
    (answer : Answer (List Instance))
    → (delete_owned env cfg g nodes log answer).1 ≡ reply tt
    → (node : NodeRef) → In node nodes
    → IsDone cfg node (delete_owned env cfg g nodes log answer).0
unfolding delete_owned
delete_owned-IsDone env cfg g nodes log (err x) h node p = cc
delete_owned-IsDone env cfg g nodes log (ok owned) h node p =
    delete_loop-IsDone env cfg g owned nodes log []
      (delete_response_nil (delete_loop env cfg g owned nodes log []).1 h) node p

-- Where DeleteNodes replies without an error, every node of the request is done: the release of its
-- instance was accepted or a lookup did not find it, and its Node object, if named, was deleted.
pub delete_nodes-IsDone :
    (env : Environment) (cfg : Config) (id : Str) (nodes : List NodeRef) (log : List Call)
    → (node_group_delete_nodes env cfg id nodes log).1 ≡ reply tt
    → (node : NodeRef) → In node nodes
    → IsDone cfg node (node_group_delete_nodes env cfg id nodes log).0
unfolding node_group_delete_nodes
delete_nodes-IsDone env cfg id nodes log h node p = elim (Option-cases (group_by_id cfg id)) [
  | inl missing ↦ cc (rw (missing, node_group_delete_nodes) at h)
  | inr (g, found) ↦
      rw (found, node_group_delete_nodes)
        (delete_owned-IsDone env cfg g nodes (listed_all false ∷ log) (env.all_owned_instances log)
          (rw (found, node_group_delete_nodes) at h) node p)
]
