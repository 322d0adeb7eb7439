-- ===== src/Provider/Refines.antt =====
-- A run of the provider, as each group sees it.
use ens_provider.Prelude.{
  ℕ, ◌<◌, ◌≡◌, sym, ap, subst, ◌∙◌, inl, inr, ◌⊎◌, true, false, some, List, ◌++◌, Str, str_eq,
  str_eq→eq, str_eq_refl, pos, leb_ℤ, arith, Bool-cases, if◌then◌else◌,
}
use ens_provider.Config.{Config, Group, Labels, group_by_id}
use ens_provider.Inventory.{Instance, ok}
use ens_provider.Order.{Context, execute_guarded_order}
use ens_provider.Order.Ceiling.{Region, OrderCall, run_call, Reach, here, next}
use ens_provider.Order.Ceiling
use ens_provider.Submit.Run.{
  CloudState, Outside, order_state, op_name, prepare_query, run_instances,
}
use ens_provider.Submit.Isolation.{guarded, order_state-set_order_state}
use ens_provider.Provider.{
  World, view, call_of, Drift, Step, runs, rests, drifts, reads, Run, start, step,
}

-- The reservations of every group after a call of RunInstances that makes an order.
run_instances-orders :
    (cfg : Config) (ctx : Context) (g : Group) (count : ℕ) (o : Outside) (st : CloudState)
    (userdata op_id : Str) (query : Labels) (j : Str)
    → 0 < count
    → o.userdata ≡ ok userdata
    → o.op_id ≡ ok op_id
    → prepare_query cfg g (pos count) (op_name g op_id o.unix) userdata ≡ some query
    → order_state j (run_instances cfg ctx g (pos count) o st).0.orders ≡ (
        if str_eq g.id j
        then (guarded cfg ctx g (pos count) o st (op_name g op_id o.unix) query).reservations
        else order_state j st.orders)
unfolding run_instances
run_instances-orders cfg ctx g count o st userdata op_id query j more p q r =
    let some_count : leb_ℤ (pos count) (pos 0) ≡ false = ground arith in
    rw (some_count, p, q, r) (order_state-set_order_state g.id j _ st.orders)

Region-eq :
    (m n : Ceiling.Region)
    → m.reservations ≡ n.reservations
    → m.visible ≡ n.visible
    → m.hidden ≡ n.hidden
    → m ≡ n
Region-eq m n p q r = ground (arith, p, q, r)

-- The order of a call is an order of its group.
runs-Step :
    (Ok : Ceiling.Condition) (cfg : Config) (ctx : Context) (g : Group) (max count : ℕ)
    (o : Outside) (userdata op_id : Str) (query : Labels) (landed : List Instance) (s t : World)
    → g.max ≡ pos max
    → 0 < count
    → o.userdata ≡ ok userdata
    → o.op_id ≡ ok op_id
    → prepare_query cfg g (pos count) (op_name g op_id o.unix) userdata ≡ some query
    → Ok
        (view s g.id)
        (call_of ctx g count o s.state op_id query)
        (run_call g.id max
          (order_state g.id s.state.orders)
          (call_of ctx g count o s.state op_id query))
        landed
    → t.state ≡ (run_instances cfg ctx g (pos count) o s.state).0
    → t.visible g.id ≡ s.visible g.id
    → t.hidden g.id ≡ landed ++ s.hidden g.id
    → Ceiling.Step Ok g.id max (view s g.id) (view t g.id)
runs-Step Ok cfg ctx g max count o userdata op_id query landed s t b more p q r call st vis hid =
    let c = call_of ctx g count o s.state op_id query in
    let own : order_state g.id t.state.orders
        ≡ (run_call g.id max (order_state g.id s.state.orders) c).reservations =
      ap (λ (k : CloudState). order_state g.id k.orders) st
      ∙ run_instances-orders cfg ctx g count o s.state userdata op_id query g.id more p q r
      ∙ ap
          (λ same.
            if same
            then (guarded cfg ctx g (pos count) o s.state (op_name g op_id o.unix)
                query).reservations
            else order_state g.id s.state.orders)
          (str_eq_refl g.id)
      ∙ ap
          (λ m.
            (execute_guarded_order ctx (order_state g.id s.state.orders) g.id c.op (pos count) m
              o.now o.wall c.inventory c.submit).reservations)
          b in
    Ceiling.order c landed call (Region-eq _ _ own vis hid)

Drift-Step :
    (Ok : Ceiling.Condition) (gid : Str) (max : ℕ) {s t : Ceiling.Region}
    → Drift s t
    → Ceiling.Step Ok gid max s t
Drift-Step Ok gid max (Drift.reveal xs ys i p q) = Ceiling.reveal xs ys i p q
Drift-Step Ok gid max (Drift.vanish_visible xs ys i p q) = Ceiling.vanish_visible xs ys i p q
Drift-Step Ok gid max (Drift.vanish_hidden xs ys i p q) = Ceiling.vanish_hidden xs ys i p q

-- What a group of the configuration sees of a step: nothing, or a step of its own.
abbrev Seen : Ceiling.Condition → Group → ℕ → World → World → Type 0
Seen Ok g max s t =
    (view t g.id ≡ view s g.id) ⊎ Ceiling.Step Ok g.id max (view s g.id) (view t g.id)

module _ (Ok : Ceiling.Condition) (cfg : Config) (g : Group) (max : ℕ)
    (listed : group_by_id cfg g.id ≡ some g) (bound : g.max ≡ pos max) where
  -- The group of a call whose id is that of `g` is `g`.
  same_group : (k : Group) → group_by_id cfg k.id ≡ some k → str_eq k.id g.id ≡ true → k ≡ g
  same_group k f e =
      let same = str_eq→eq k.id g.id e in
      let two : some k ≡ some g = sym f ∙ ap (group_by_id cfg) same ∙ listed in ground (arith, two)

  Step-Seen : {s t : World} → Step Ok cfg s t → Seen Ok g max s t
  Step-Seen {s} {t}
        (runs ctx k m count o userdata op_id query landed f b more p q r call st vis hid others) =
      elim (Bool-cases (str_eq k.id g.id)) [
        | inl e ↦
            (let same = same_group k f e in
              let bounds : pos m ≡ pos max = sym b ∙ ap (λ (h : Group). h.max) same ∙ bound in
              let one : m ≡ max = ground (arith, bounds) in
              inr (
                subst (λ (h : Group). Ceiling.Step Ok h.id max (view s h.id) (view t h.id)) same
                  (subst (λ n. Ceiling.Step Ok k.id n (view s k.id) (view t k.id)) one
                    (runs-Step Ok cfg ctx k m count o userdata op_id query landed s t b more p q r
                      call st vis hid))))
        | inr e ↦
            (let kept = others g.id e in
              inl (
                Region-eq _ _
                  (ap (λ (c : CloudState). order_state g.id c.orders) st
                    ∙ run_instances-orders cfg ctx k count o s.state userdata op_id query g.id more
                        p q r
                    ∙ ap
                        (λ other.
                          if other
                          then (guarded cfg ctx k (pos count) o s.state (op_name k op_id o.unix)
                              query).reservations
                          else order_state g.id s.state.orders)
                        e)
                  kept.0 kept.1))
      ]
  Step-Seen {s} {t} (rests ctx k count o idle st keep) = inl (
      Region-eq _ _ (ap (λ (c : CloudState). order_state g.id c.orders) (st ∙ idle)) (keep g.id).0
        (keep g.id).1)
  Step-Seen {s} {t} (drifts id st d others) = elim (Bool-cases (str_eq id g.id)) [
    | inl e ↦
        inr (
          Drift-Step Ok g.id max (subst (λ j. Drift (view s j) (view t j)) (str_eq→eq id g.id e) d))
    | inr e ↦ inl (
        Region-eq _ _ (ap (λ (c : CloudState). order_state g.id c.orders) st) (others g.id e).0
          (others g.id e).1)
  ]
  Step-Seen {s} {t} (reads os keep) =
      inl (Region-eq _ _ (ap (order_state g.id) os) (keep g.id).0 (keep g.id).1)

  Run-Reach_at : {s t : World} → Run Ok cfg s t → Reach Ok g.id max (view s g.id) (view t g.id)
  Run-Reach_at start = here
  Run-Reach_at {s} (step {t} {u} r st) = elim (Step-Seen st) [
    | inl same ↦ subst (λ v. Reach Ok g.id max (view s g.id) v) (sym same) (Run-Reach_at r)
    | inr moved ↦ next (Run-Reach_at r) moved
  ]

-- Every run of the provider, with all its groups, calls of RunInstances and drifts of ENS in any
-- order, is for each group of the configuration with a maximum that is not negative a run of the
-- region of this group alone, as `Order/Ceiling` specifies it: a call for another group, one that
-- makes no order, and what the inventory does to other groups are no step of it. This holds for any
-- condition on the orders, the one without demands included: whatever the orders of the provider meet
-- is all that those of the region meet.
pub Run-Reach :
    (Ok : Ceiling.Condition) (cfg : Config) (g : Group) (max : ℕ) {s t : World}
    → group_by_id cfg g.id ≡ some g
    → g.max ≡ pos max
    → Run Ok cfg s t
    → Reach Ok g.id max (view s g.id) (view t g.id)
Run-Reach Ok cfg g max listed bound r = Run-Reach_at Ok cfg g max listed bound r
