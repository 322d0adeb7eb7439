-- ===== src/Examples/Providing.antt =====
-- An example of the whole provider: a call of RunInstances orders two instances, both land, and the
-- inventory shows the first.
use ens_provider.Prelude.{
  ℕ, ◌+◌, ◌≤◌, ◌≡◌, refl, inl, inr, Bool, true, false, Option, none, some, List, [], ◌∷◌, Str,
  codes, str_eq, length, decimal, pos, In, has_prefix, if◌then◌else◌, arith,
}
use ens_provider.Config.{Config, Group, Labels}
use ens_provider.Config.Load.{with_defaults}
use ens_provider.Inventory.{Instance, ok}
use ens_provider.Metrics.{zero_metrics}
use ens_provider.Order.{Context, accepted, rejected}
use ens_provider.Order.Ceiling.{OrderCall, run_call, IsOrder, HasLanded, IsLawful, Reach}
use ens_provider.Submit.{Shared, Look, replied, plain}
use ens_provider.Submit.Run.{CloudState, Outside, op_name, prepare_query, run_instances}
use ens_provider.Submit.Query.{query_parameters}
use ens_provider.Submit.Disk.{system_disk}
use ens_provider.Provider.{World, view, call_of, OthersKeep, reveal, runs, drifts, Run, start, step}
use ens_provider.Provider.Refines.{Run-Reach}
use ens_provider.Provider.Ceiling.{Run-ceiling}
use ens_provider.Examples.Data.{cfg, web, batch, instance_of}
use ens_provider.Examples.Joining.{quoteless, parse_duration, loaded_cfg, load_quoteless}

abbrev loaded_web : Group
loaded_web = with_defaults cfg web

abbrev pub ctx : Context
ctx = record { error = none; deadline = none }

abbrev look : Look
look = record { done = true; answer = ok []; cache = λ c. c }

abbrev pub outside : Outside
outside = record {
  userdata = ok (codes "script");
  op_id = ok (10 ∷ 11 ∷ []);
  unix = 5;
  inventory = ok [];
  inventory_cache = λ c. c;
  now = pos 5;
  wall = pos 0;
  rpc = λ q rt. replied (plain (some (codes "i-1") ∷ some (codes "i-2") ∷ []));
  looks = [];
  last_look = look;
}

abbrev pub empty_state : CloudState
empty_state = record {
  orders = [];
  shared = record { cache = record { cached = none; cache_at = none }; metrics = zero_metrics };
}

abbrev empty_world : World
empty_world = record { state = empty_state; visible = λ id. []; hidden = λ id. [] }

abbrev first : Instance
first = instance_of (codes "i-1") (codes "as-web--op0a0b-5-1") (codes "web") (codes "Running")

abbrev second_one : Instance
second_one = instance_of (codes "i-2") (codes "as-web--op0a0b-5-2") (codes "web") (codes "Running")

abbrev landed : List Instance
landed = first ∷ second_one ∷ []

-- What is sent for the order.
abbrev query : Labels
query =
    query_parameters loaded_cfg loaded_web false (system_disk loaded_web)
      (op_name loaded_web (10 ∷ 11 ∷ []) 5) (decimal 2) (codes "script")

abbrev call : OrderCall
call = call_of ctx loaded_web 2 outside empty_state (10 ∷ 11 ∷ []) query

abbrev ordered : World
ordered = record {
  state = (run_instances loaded_cfg ctx loaded_web (pos 2) outside empty_state).0;
  visible = λ id. [];
  hidden = λ id. if str_eq (codes "web") id then landed else [];
}

abbrev shown : World
shown = record ordered {
  visible = λ id. if str_eq (codes "web") id then first ∷ [] else [];
  hidden = λ id. if str_eq (codes "web") id then second_one ∷ [] else [];
}

named_after : (i : Instance) → In i landed → has_prefix i.name call.op ≡ true
unfolding has_prefix ens_provider.Submit.Run.op_name with_defaults
named_after i (inl e) = rw e refl
named_after i (inr (inl e)) = rw e refl
named_after i (inr (inr x)) = elim x [ ]

call-IsOrder : IsOrder (view empty_world (codes "web")) call landed
unfolding ens_provider.Inventory.owned_instances ens_provider.Submit.Run.order_state
    ens_provider.Reservation.effective_owned
call-IsOrder = record {
  looked = inl refl;
  accounted = tt;
  new_visible = refl;
  new_hidden = refl;
  apart = tt;
  fits = omega arith;
}

accepted_ne : accepted ≡ rejected → landed ≡ []
accepted_ne e = cc

call-HasLanded : HasLanded call (run_call (codes "web") 3 [] call) landed
unfolding ens_provider.Order.execute_guarded_order ens_provider.Order.order_with_guard
    ens_provider.Order.max_guard ens_provider.Order.order_budget ens_provider.Prelude.int32
    ens_provider.Prelude.◌+ℤ◌ ens_provider.Submit.submit_order
    ens_provider.Inventory.owned_instances ens_provider.Reservation.effective_owned
call-HasLanded = record {
  unsent = λ e. cc e;
  refused = λ rt h e. accepted_ne e;
  bounded = omega arith;
  named = named_after;
}

others : OthersKeep (codes "web") empty_world ordered
others j h = (refl, rw h refl)

others_later : OthersKeep (codes "web") ordered shown
others_later j h = (rw h refl, rw h refl)

provided : Run IsLawful loaded_cfg empty_world shown
unfolding ens_provider.Config.group_by_id str_eq with_defaults ens_provider.Submit.Run.order_state
    prepare_query
provided =
    step
      (step start (
        runs ctx loaded_web 3 2 outside (codes "script") (10 ∷ 11 ∷ []) query landed refl refl
          (omega arith) refl refl refl (call-IsOrder, call-HasLanded) refl refl refl others))
      (drifts (codes "web") refl (reveal [] (second_one ∷ []) first refl refl) others_later)

Run-Reach_example :
    Reach IsLawful (codes "web") 3 (view empty_world (codes "web")) (view shown (codes "web"))
unfolding ens_provider.Config.group_by_id str_eq with_defaults
Run-Reach_example = Run-Reach IsLawful loaded_cfg loaded_web 3 refl refl provided

Run-ceiling_example : length (shown.visible (codes "web")) + length (shown.hidden (codes "web")) ≤ 3
unfolding with_defaults
Run-ceiling_example =
    Run-ceiling quoteless (λ a b. true) parse_duration cfg loaded_cfg (codes "1h")
      (web ∷ batch ∷ []) loaded_web load_quoteless (inl refl) (omega arith) refl refl (omega arith)
      provided
