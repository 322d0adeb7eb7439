-- ===== src/Submit/Run.antt =====
-- RunInstances: the name of the operation, the order state of the group, and the guarded order.
use ens_provider.Prelude.{
  ℕ, ◌+◌, ◌/◌, ◌%◌, Option, none, some, List, [], decimal, ◌∷◌, ◌++◌, Str, codes, str_eq, ltb,
  if◌then◌else◌, ℤ, pos, pos_part, leb_ℤ,
}
use ens_provider.Config.{Config, Group, Labels}
use ens_provider.Inventory.{Instance, Answer, ok, err, Cache, owned_instances}
use ens_provider.Reservation.{Reservations}
use ens_provider.Order.{
  Context, RuntimeOptions, OrderError, userdata_failed, op_id_failed, no_public_ip,
  execute_guarded_order,
}
use ens_provider.Submit.Disk.{system_disk}
use ens_provider.Submit.Query.{order_query}
use ens_provider.Submit.{Reply, Look, Shared, submit_order}

hex_digit : ℕ → ℕ
hex_digit d = if ltb d 10 then 48 + d else 87 + d

-- hex.EncodeToString
unfoldable pub hex : Str → Str
unfolding hex_digit
hex [] = []
hex (b ∷ s) = hex_digit (b / 16) ∷ hex_digit (b % 16) ∷ hex s

-- fmt.Sprintf("%s-op%s-%d", ...)
unfoldable pub op_name : Group → Str → ℕ → Str
unfolding hex decimal
op_name g op_id unix = g.name_prefix ++ (codes "-op" ++ (hex op_id ++ (b'-' ∷ decimal unix)))

-- `Cloud.orders`: the reservations of each group that has ordered.
abbrev pub Orders : Type 0
Orders = List (Str × Reservations)

-- orderState: a group that has not ordered has no reservations.
unfoldable pub order_state : Str → Orders → Reservations
order_state id [] = []
order_state id ((j, m) ∷ rest) = if str_eq j id then m else order_state id rest

unfoldable pub set_order_state : Str → Reservations → Orders → Orders
set_order_state id m [] = (id, m) ∷ []
set_order_state id m ((j, n) ∷ rest) =
    if str_eq j id then (id, m) ∷ rest else (j, n) ∷ set_order_state id m rest

pub record CloudState : Type 0 where
  pub orders : Orders
  pub shared : Shared

-- The parameters of an order of `count` instances. `none` is the panic of a group whose `public_ip` is
-- not set, which LoadConfig sets.
unfoldable pub prepare_query : Config → Group → ℤ → Str → Str → Option Labels
unfolding system_disk order_query
prepare_query cfg g count name userdata =
    order_query cfg g (system_disk g) name (decimal (pos_part count)) userdata

-- What the outside decides during one call: the userdata, the random bytes and the time of the name,
-- the forced inventory of the region with what it does to the cache, the time of the guard and that
-- of the budget, and the reply to the submit of a query.
pub record Outside : Type 0 where
  pub userdata : Answer Str
  pub op_id : Answer Str
  pub unix : ℕ
  pub inventory : Answer (List Instance)
  pub inventory_cache : Cache → Cache
  pub now : ℤ
  pub wall : ℤ
  pub rpc : Labels → RuntimeOptions → Reply
  pub looks : List Look
  pub last_look : Look

abbrev count_expired : ℕ → Shared → Shared
count_expired n s = record s {
  metrics = record s.metrics { reservations_expired = s.metrics.reservations_expired + n };
}

abbrev after_submit : Str → ℤ → Labels → Outside → Option RuntimeOptions → Shared → Shared
after_submit name count query o none s = s
after_submit name count query o (some rt) s =
    (submit_order name count (o.rpc query rt) o.looks o.last_look s).0

-- The order proper, under its name, of a prepared query.
unfoldable pub run_named :
    Context
    → Group
    → ℤ
    → Str
    → Labels
    → Outside
    → CloudState
    → CloudState × (List Str × Option OrderError)
run_named ctx g count name query o st =
    let s₁ = record (st.shared) { cache = o.inventory_cache st.shared.cache } in
    let r =
      execute_guarded_order ctx (order_state g.id st.orders) g.id name count g.max o.now o.wall
        (owned_instances g o.inventory)
        (λ rt. (submit_order name count (o.rpc query rt) o.looks o.last_look s₁).1) in
    (
      record {
        orders = set_order_state g.id r.reservations st.orders;
        shared = after_submit name count query o r.submit_call (count_expired r.expired_count s₁);
      },
      (r.ids, r.error),
    )

unfoldable pub run_prepared :
    Context
    → Group
    → ℤ
    → Str
    → Option Labels
    → Outside
    → CloudState
    → CloudState × (List Str × Option OrderError)
unfolding run_named
run_prepared ctx g count name none o st = (st, ([], some no_public_ip))
run_prepared ctx g count name (some query) o st = run_named ctx g count name query o st

unfoldable pub run_with_id :
    Config
    → Context
    → Group
    → ℤ
    → Str
    → Answer Str
    → Outside
    → CloudState
    → CloudState × (List Str × Option OrderError)
unfolding run_prepared op_name prepare_query
run_with_id cfg ctx g count userdata (err x) o st = (st, ([], some (op_id_failed x)))
run_with_id cfg ctx g count userdata (ok op_id) o st =
    let name = op_name g op_id o.unix in
    run_prepared ctx g count name (prepare_query cfg g count name userdata) o st

unfoldable pub run_with_userdata :
    Config
    → Context
    → Group
    → ℤ
    → Answer Str
    → Outside
    → CloudState
    → CloudState × (List Str × Option OrderError)
unfolding run_with_id
run_with_userdata cfg ctx g count (err x) o st = (st, ([], some (userdata_failed x)))
run_with_userdata cfg ctx g count (ok userdata) o st =
    run_with_id cfg ctx g count userdata o.op_id o st

unfoldable pub run_instances :
    Config
    → Context
    → Group
    → ℤ
    → Outside
    → CloudState
    → CloudState × (List Str × Option OrderError)
unfolding run_with_userdata
run_instances cfg ctx g count o st =
    if leb_ℤ count (pos 0)
    then (st, ([], none))
    else run_with_userdata cfg ctx g count o.userdata o st
