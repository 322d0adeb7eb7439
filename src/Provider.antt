-- ===== src/Provider.antt =====
-- The whole provider and ENS: the state of `Cloud` with the reservations of all groups, and for each
-- group what the inventory lists of it and what exists beside that. The steps are whole calls of
-- RunInstances, and what ENS does by itself.
pub mod Refines
pub mod Calls
pub mod Ceiling
use ens_provider.Prelude.{
  ℕ, ◌<◌, ◌≡◌, ◌⊎◌, Bool, true, false, Option, none, some, List, [], ◌∷◌, ◌++◌, Str, str_eq, ℤ, pos,
}
use ens_provider.Config.{Config, Group, Labels, group_by_id}
use ens_provider.Inventory.{Instance, Answer, ok, err, owned_instances}
use ens_provider.Order.{Context, RuntimeOptions, OrderResult, Submitted}
use ens_provider.Order.Ceiling.{Region, OrderCall, run_call, Condition}
use ens_provider.Submit.{submit_order}
use ens_provider.Submit.Run.{
  CloudState, Outside, order_state, op_name, prepare_query, run_instances,
}

pub record World : Type 0 where
  pub state : CloudState
  pub visible : Str → List Instance
  pub hidden : Str → List Instance

-- What one group sees of it.
abbrev pub view : World → Str → Region
view w id = record {
  reservations = order_state id w.state.orders;
  visible = w.visible id;
  hidden = w.hidden id;
}

-- The guarded order that RunInstances makes of `count` instances under the random bytes `op_id`.
abbrev pub call_of : Context → Group → ℕ → Outside → CloudState → Str → Labels → OrderCall
call_of ctx g count o st op_id query = record {
  ctx = ctx;
  op = op_name g op_id o.unix;
  count = count;
  now = o.now;
  wall = o.wall;
  inventory = owned_instances g o.inventory;
  submit = λ rt.
      (submit_order (op_name g op_id o.unix) (pos count) (o.rpc query rt) o.looks o.last_look
        (record (st.shared) { cache = o.inventory_cache st.shared.cache })).1;
}

-- An instance becomes visible, or disappears.
pub data Drift (s t : Region) : Type 0 where
  reveal :
      (xs ys : List Instance) (i : Instance)
      → s.hidden ≡ xs ++ (i ∷ ys)
      → t ≡ record s { visible = i ∷ s.visible; hidden = xs ++ ys }
      → Drift s t
  vanish_visible :
      (xs ys : List Instance) (i : Instance)
      → s.visible ≡ xs ++ (i ∷ ys)
      → t ≡ record s { visible = xs ++ ys }
      → Drift s t
  vanish_hidden :
      (xs ys : List Instance) (i : Instance)
      → s.hidden ≡ xs ++ (i ∷ ys)
      → t ≡ record s { hidden = xs ++ ys }
      → Drift s t

-- Nothing happens to the instances of the other groups, or of any.
abbrev pub OthersKeep : Str → World → World → Type 0
OthersKeep id s t =
    (j : Str) → str_eq id j ≡ false → (t.visible j ≡ s.visible j) × (t.hidden j ≡ s.hidden j)

abbrev pub AllKeep : World → World → Type 0
AllKeep s t = (j : Str) → (t.visible j ≡ s.visible j) × (t.hidden j ≡ s.hidden j)

-- The steps, with orders that meet a condition. In `runs` ENS creates `landed`; in `rests` RunInstances has nothing to order or fails
-- before its order; in `reads` the rest of the program changes the cache and the metrics.
pub data Step (Ok : Condition) (cfg : Config) (s t : World) : Type 0 where
  runs :
      (ctx : Context) (g : Group) (max count : ℕ) (o : Outside) (userdata op_id : Str)
      (query : Labels) (landed : List Instance)
      → group_by_id cfg g.id ≡ some g
      → g.max ≡ pos max
      → 0 < count
      → o.userdata ≡ ok userdata
      → o.op_id ≡ ok op_id
      → prepare_query cfg g (pos count) (op_name g op_id o.unix) userdata ≡ some query
      → Ok
          (view s g.id)
          (call_of ctx g count o s.state op_id query)
          (run_call g.id max
            (order_state g.id s.state.orders)
            (call_of ctx g count o s.state op_id query))
          landed
      → t.state ≡ (run_instances cfg ctx g (pos count) o s.state).0
      → t.visible g.id ≡ s.visible g.id
      → t.hidden g.id ≡ landed ++ s.hidden g.id
      → OthersKeep g.id s t
      → Step Ok cfg s t
  rests :
      (ctx : Context) (g : Group) (count : ℤ) (o : Outside)
      → (run_instances cfg ctx g count o s.state).0 ≡ s.state
      → t.state ≡ (run_instances cfg ctx g count o s.state).0
      → AllKeep s t
      → Step Ok cfg s t
  drifts :
      (id : Str)
      → t.state ≡ s.state
      → Drift (view s id) (view t id)
      → OthersKeep id s t
      → Step Ok cfg s t
  reads : t.state.orders ≡ s.state.orders → AllKeep s t → Step Ok cfg s t

pub data Run (Ok : Condition) (cfg : Config) (s : World) : World → Type 0 where
  start : Run Ok cfg s s
  step : {t u : World} → Run Ok cfg s t → Step Ok cfg t u → Run Ok cfg s u
