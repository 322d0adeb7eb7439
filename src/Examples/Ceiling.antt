-- ===== src/Examples/Ceiling.antt =====
-- An example of the ceiling: an order of two instances, of which one is still hidden.
use ens_provider.Prelude.{
  ℕ, true, Option, ◌+◌, ◌≤◌, ◌≡◌, refl, inl, none, some, List, [], ◌∷◌, codes, length, pos,
  has_prefix, In, arith, inr,
}
use ens_provider.Inventory.{Instance, ok}
use ens_provider.Order.{RuntimeOptions, Submitted, accepted, rejected}
use ens_provider.Order.Ceiling.{
  Region, OrderCall, run_call, HasLanded, IsLawful, order, reveal, Reach, here, next,
}
use ens_provider.Order.Ceiling.Keeps.{IsSafe}
use ens_provider.Examples.Data.{web1, web2}

abbrev start : Region
start = record { reservations = []; visible = []; hidden = [] }

abbrev submitted : RuntimeOptions → Submitted
submitted rt = record { ids = codes "i-1" ∷ codes "i-2" ∷ []; outcome = accepted; error = none }

abbrev two_ordered : OrderCall
two_ordered = record {
  ctx = record { error = none; deadline = none };
  op = codes "as-web-1";
  count = 2;
  now = pos 0;
  wall = pos 0;
  inventory = ok [];
  submit = submitted;
}

abbrev landed : List Instance
landed = web1 ∷ web2 ∷ []

abbrev after_order : Region
after_order = record start {
  reservations = (run_call (codes "web") 3 [] two_ordered).reservations;
  hidden = web1 ∷ web2 ∷ [];
}

abbrev half_visible : Region
half_visible = record after_order { visible = web1 ∷ []; hidden = web2 ∷ [] }

start-IsSafe : IsSafe 3 start
start-IsSafe = record { covering = tt; reserved = λ i h. absurd h; ceiling = omega arith }

named_after : (i : Instance) → In i landed → has_prefix i.name two_ordered.op ≡ true
unfolding has_prefix
named_after i (inl e) = rw e refl
named_after i (inr (inl e)) = rw e refl
named_after i (inr (inr x)) = elim x [ ]

sent : (rt : RuntimeOptions) → Option.some rt ≡ none → landed ≡ []
sent rt e = cc e

accepted_ne : accepted ≡ rejected → landed ≡ []
accepted_ne e = cc e

two_ordered-HasLanded : HasLanded two_ordered (run_call (codes "web") 3 [] two_ordered) landed
unfolding ens_provider.Order.execute_guarded_order ens_provider.Order.max_guard
    ens_provider.Order.order_budget ens_provider.Prelude.int32 ens_provider.Prelude.◌+ℤ◌
two_ordered-HasLanded = record {
  unsent = λ e. sent _ e;
  refused = λ rt h e. accepted_ne e;
  bounded = omega arith;
  named = named_after;
}

reached : Reach IsLawful (codes "web") 3 start half_visible
unfolding ens_provider.Reservation.effective_owned
reached =
    next
      (next here (
        order two_ordered landed
          (
            (record {
              looked = inl refl;
              accounted = tt;
              new_visible = refl;
              new_hidden = refl;
              apart = tt;
              fits = omega arith;
            }),
            two_ordered-HasLanded,
          )
          refl))
      (reveal [] (web2 ∷ []) web1 refl refl)
