-- ===== src/Submit/Isolation.antt =====
-- What RunInstances leaves alone, and how it names an operation.
use ens_provider.Prelude.{
  ℕ, ◌≡◌, refl, sym, ◌∙◌, ◌⊎◌, inl, inr, true, some, [], ◌∷◌, Str, str_eq, str_eq→eq, str_eq_refl,
  has_prefix, has_prefix-append, Bool-cases, Option-cases, ℤ, pos, leb_ℤ, if◌then◌else◌,
}
use ens_provider.Config.{Config, Group, Labels}
use ens_provider.Inventory.{Answer, ok, err, owned_instances}
use ens_provider.Reservation.{Reservations}
use ens_provider.Order.{
  Context, OrderError, userdata_failed, op_id_failed, no_public_ip, OrderResult,
  execute_guarded_order,
}
use ens_provider.Submit.{submit_order}
use ens_provider.Submit.Run.{
  Orders, order_state, set_order_state, CloudState, Outside, op_name, prepare_query, run_instances,
}

pub order_state-set_order_state :
    (id j : Str) (m : Reservations) (os : Orders)
    → order_state j (set_order_state id m os) ≡ (if str_eq id j then m else order_state j os)
unfolding order_state set_order_state
order_state-set_order_state id j m [] = refl
order_state-set_order_state id j m ((k, n) ∷ rest) = elim (Bool-cases (str_eq k id)) [
  | inl same ↦
      let e = str_eq→eq k id same in
      elim (Bool-cases (str_eq id j)) [
        | inl q ↦ rw (same, e, q) refl
        | inr q ↦ rw (same, e, q) refl
      ]
  | inr apart ↦ elim (Bool-cases (str_eq k j)) [
    | inr r ↦ rw (apart, r) (order_state-set_order_state id j m rest)
    | inl r ↦ elim (Bool-cases (str_eq id j)) [
      | inr q ↦ rw (apart, r, q) refl
      | inl q ↦
          (let e = str_eq→eq k j r ∙ sym (str_eq→eq id j q) in
            let t = str_eq_refl id in let f = rw e at apart in cc)
    ]
  ]
]

op_name-prefix :
    (g : Group) (op_id : Str) (unix : ℕ) → has_prefix (op_name g op_id unix) g.name_prefix ≡ true
unfolding op_name
op_name-prefix g op_id unix = has_prefix-append g.name_prefix _

pub Answer-cases : {A : Type 0} (a : Answer A) → ((x : Str) × (a ≡ err x)) ⊎ ((v : A) × (a ≡ ok v))
Answer-cases (err x) = inl (x, refl)
Answer-cases (ok v) = inr (v, refl)

module _ (cfg : Config) (ctx : Context) (g : Group) (count : ℤ) (o : Outside)
    (st : CloudState) where
  -- The guarded order of one name, on the reservations of the group.
  abbrev pub guarded : Str → Labels → OrderResult
  guarded name query =
      let s₁ = record (st.shared) { cache = o.inventory_cache st.shared.cache } in
      execute_guarded_order ctx (order_state g.id st.orders) g.id name count g.max o.now o.wall
        (owned_instances g o.inventory)
        (λ rt. (submit_order name count (o.rpc query rt) o.looks o.last_look s₁).1)

  -- The guarded order under a name of the group ran, and changed no other group's reservations.
  pub record IsGuarded (name : Str) (query : Labels) : Type 0 where
    pub prefixed : has_prefix name g.name_prefix ≡ true
    pub result :
        (run_instances cfg ctx g count o st).1
        ≡ ((guarded name query).ids, (guarded name query).error)
    pub reservations :
        (j : Str)
        → order_state j (run_instances cfg ctx g count o st).0.orders
          ≡ (if str_eq g.id j then (guarded name query).reservations else order_state j st.orders)

  -- Nothing changed and no order was made: there was nothing to order, or its preparation failed.
  pub record IsIdle : Type 0 where
    pub same : (run_instances cfg ctx g count o st).0 ≡ st
    pub no_ids : (run_instances cfg ctx g count o st).1.0 ≡ []
    pub why :
        (leb_ℤ count (pos 0) ≡ true)
        ⊎ ((x : OrderError) × ((run_instances cfg ctx g count o st).1.1 ≡ some x))

  -- RunInstances either does nothing, having nothing to order or reporting that its preparation
  -- failed, or it is the guarded order of a query under a name with the group's prefix: it returns what that
  -- returns, the reservations of the group are those that it left, and every other group's are as
  -- they were.
  pub run_instances_cases : ((name : Str) × (query : Labels) × IsGuarded name query) ⊎ IsIdle
  unfolding run_instances
  run_instances_cases = elim (Bool-cases (leb_ℤ count (pos 0))) [
    | inl few ↦ inr (record { same = rw few refl; no_ids = rw few refl; why = inl few })
    | inr more ↦ elim (Answer-cases o.userdata) [
      | inl (x, p) ↦ inr (record {
        same = rw (more, p) refl;
        no_ids = rw (more, p) refl;
        why = inr (userdata_failed x, rw (more, p) refl);
      })
      | inr (u, p) ↦ elim (Answer-cases o.op_id) [
        | inl (x, q) ↦ inr (record {
          same = rw (more, p, q) refl;
          no_ids = rw (more, p, q) refl;
          why = inr (op_id_failed x, rw (more, p, q) refl);
        })
        | inr (op_id, q) ↦
            elim (Option-cases (prepare_query cfg g count (op_name g op_id o.unix) u)) [
              | inl r ↦ inr (record {
                same = rw (more, p, q, r) refl;
                no_ids = rw (more, p, q, r) refl;
                why = inr (no_public_ip, rw (more, p, q, r) refl);
              })
              | inr (query, r) ↦ inl (
                op_name g op_id o.unix,
                query,
                record {
                  prefixed = op_name-prefix g op_id o.unix;
                  result = rw (more, p, q, r) refl;
                  reservations =
                      λ j. rw (more, p, q, r) (order_state-set_order_state g.id j _ st.orders);
                },
              )
            ]
      ]
    ]
  ]
