-- ===== src/Server/Delete/Safety.antt =====
-- What DeleteNodes may do to the cloud and to the cluster, and when it reports success.
use ens_provider.Prelude.{
  ◌≡◌, refl, ◌⊎◌, inl, inr, true, false, Option, none, some, List, [], ◌∷◌, Str, str_eq, str_eq→eq,
  is_empty, In, Bool-cases,
}
use ens_provider.Config.{
  Config, Group, group_by_id, group_for_instance_name, strict_edge_instance_id,
}
use ens_provider.Inventory.{Instance, Answer, ok, err}
use ens_provider.Server.{Call, listed_all, looked_up, released, deleted_node, Environment}
use ens_provider.Server.Delete.{
  NodeRef, NodeError, by_id, has_other_label, delete_object, release_and_delete, after_lookup,
  with_instance, delete_step, add_error, delete_loop, node_group_delete_nodes,
}

module _ (cfg : Config) (g : Group) (owned : List Instance) (nodes : List NodeRef) where
  -- The call before was the accepted release of the instance, or a lookup that did not find it.
  abbrev Clears : Str → List Call → Type 0
  Clears iid (released j true ∷ rest) = j ≡ iid
  Clears iid (looked_up j (ok none) ∷ rest) = j ≡ iid
  Clears iid _ = ⊥

  -- The call before was a lookup that found the instance under a name that the group owns.
  abbrev Proves : Str → List Call → Type 0
  Proves iid (looked_up j (ok (some i)) ∷ rest) =
      (j ≡ iid)
      × (owner : Group) × (group_for_instance_name cfg i.name ≡ some owner)
      × (owner.id ≡ g.id)
  Proves iid _ = ⊥

  -- What every call must satisfy, given the calls before it: a Node is deleted only right after its
  -- own instance was cleared, and an instance is released only for a node of the request and if the
  -- group owns it.
  abbrev pub IsAllowed : Call → List Call → Type 0
  IsAllowed (deleted_node name done) rest =
      (node : NodeRef) × In node nodes
      × (node.name ≡ name)
      × Clears (strict_edge_instance_id cfg node.provider_id) rest
  IsAllowed (released iid done) rest =
      ((node : NodeRef) × In node nodes × (strict_edge_instance_id cfg node.provider_id ≡ iid))
      × (((i : Instance) × (by_id iid owned ≡ some i) × (i.group_id ≡ g.id)) ⊎ Proves iid rest)
  IsAllowed _ rest = Unit

  abbrev pub AllAllowed : List Call → Type 0
  AllAllowed [] = Unit
  AllAllowed (c ∷ rest) = IsAllowed c rest × AllAllowed rest

  module _ (env : Environment) (node : NodeRef) (listed : In node nodes) where
    abbrev iid_of : Str
    iid_of = strict_edge_instance_id cfg node.provider_id

    delete_object-AllAllowed :
        (log : List Call)
        → Clears iid_of log
        → AllAllowed log
        → AllAllowed (delete_object env node log).0
    unfolding delete_object
    delete_object-AllAllowed log clear h = elim (Bool-cases (is_empty node.name)) [
      | inl unnamed ↦ rw unnamed h
      | inr named ↦ rw named ((node, listed, refl, clear), h)
    ]

    release_and_delete-AllAllowed :
        (log : List Call)
        → (((i : Instance) × (by_id iid_of owned ≡ some i) × (i.group_id ≡ g.id))
            ⊎ Proves iid_of log)
        → AllAllowed log
        → AllAllowed (release_and_delete env node iid_of log).0
    unfolding release_and_delete
    release_and_delete-AllAllowed log owns h = go (env.release_instance log iid_of) refl
      where
        go :
            (o : Option Str)
            → env.release_instance log iid_of ≡ o
            → AllAllowed (release_and_delete env node iid_of log).0
        go (some e) p = rw (p, release_and_delete) (((node, listed, refl), owns), h)
        go none p =
            rw (p, release_and_delete)
              (delete_object-AllAllowed (released iid_of true ∷ log) refl
                (((node, listed, refl), owns), h))

    after_lookup-AllAllowed :
        (log : List Call) (answer : Answer (Option Instance))
        → AllAllowed log
        → AllAllowed (after_lookup env cfg g node iid_of (looked_up iid_of answer ∷ log) answer).0
    unfolding after_lookup
    after_lookup-AllAllowed log (err e) h = (tt, h)
    after_lookup-AllAllowed log (ok none) h =
        delete_object-AllAllowed (looked_up iid_of (ok none) ∷ log) refl (tt, h)
    after_lookup-AllAllowed log (ok (some i)) h = go (group_for_instance_name cfg i.name) refl
      where
        go :
            (o : Option Group)
            → group_for_instance_name cfg i.name ≡ o
            → AllAllowed
                (after_lookup env cfg g node iid_of
                  (looked_up iid_of (ok (some i)) ∷ log)
                  (ok (some i))).0
        go none p = rw (p, after_lookup) (tt, h)
        go (some owner) p = elim (Bool-cases (str_eq owner.id g.id)) [
          | inl same ↦
              rw (p, after_lookup)
                (rw same (
                  release_and_delete-AllAllowed (looked_up iid_of (ok (some i)) ∷ log)
                    (inr (refl, owner, p, str_eq→eq owner.id g.id same)) (tt, h)))
          | inr other ↦ rw (p, after_lookup) (rw other (tt, h))
        ]

    with_instance-AllAllowed :
        (log : List Call) (o : Option Instance)
        → by_id iid_of owned ≡ o
        → AllAllowed log
        → AllAllowed (with_instance env cfg g node iid_of log o).0
    unfolding with_instance
    with_instance-AllAllowed log none p h =
        after_lookup-AllAllowed log (env.instance_by_id log iid_of) h
    with_instance-AllAllowed log (some i) p h = elim (Bool-cases (str_eq i.group_id g.id)) [
      | inl same ↦
          rw same (release_and_delete-AllAllowed log (inl (i, p, str_eq→eq i.group_id g.id same)) h)
      | inr other ↦ rw other h
    ]

    delete_step-AllAllowed :
        (log : List Call) → AllAllowed log → AllAllowed (delete_step env cfg g owned node log).0
    unfolding delete_step
    delete_step-AllAllowed log h = elim (Bool-cases (has_other_label g node)) [
      | inl other ↦ rw other h
      | inr same ↦ rw same (elim (Bool-cases (is_empty iid_of)) [
        | inl foreign ↦ rw foreign h
        | inr ours ↦ rw ours (with_instance-AllAllowed log (by_id iid_of owned) refl h)
      ])
    ]

  delete_loop-AllAllowed :
      (env : Environment) (todo : List NodeRef) (log : List Call) (errs : List NodeError)
      → ((node : NodeRef) → In node todo → In node nodes)
      → AllAllowed log
      → AllAllowed (delete_loop env cfg g owned todo log errs).0
  unfolding delete_loop
  delete_loop-AllAllowed env [] log errs sub h = h
  delete_loop-AllAllowed env (node ∷ rest) log errs sub h =
      delete_loop-AllAllowed env rest (delete_step env cfg g owned node log).0
        (add_error (delete_step env cfg g owned node log).1 errs) (λ n p. sub n (inr p))
        (delete_step-AllAllowed env node (sub node (inl refl)) log h)

-- A whole DeleteNodes of a configured group whose inventory was read, from no calls on: a Node object is deleted only right
-- after the release of its own instance was accepted or a lookup did not find that instance; and an
-- instance is released only if a node of the request names it and the group owns it, by the inventory
-- or by a lookup right before.
pub delete_nodes-AllAllowed :
    (env : Environment) (cfg : Config) (id : Str) (nodes : List NodeRef) (g : Group)
    (owned : List Instance)
    → group_by_id cfg id ≡ some g
    → env.all_owned_instances [] ≡ ok owned
    → AllAllowed cfg g owned nodes (node_group_delete_nodes env cfg id nodes []).0
unfolding node_group_delete_nodes
delete_nodes-AllAllowed env cfg id nodes g owned found listed =
    rw (found, node_group_delete_nodes)
      (rw listed (
        delete_loop-AllAllowed cfg g owned nodes env nodes (listed_all false ∷ []) [] (λ n p. p)
          (tt, tt)))
