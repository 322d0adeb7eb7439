-- ===== src/Leader/Stop/Timed/Waits.antt =====
-- When the waits of Shutdown end.
use ens_provider.Prelude.{
  ℕ, ◌+◌, ◌≤◌, ◌<◌, ◌≡◌, inl, inr, true, Option, none, some, arith, Bool-cases, pos, -ℤ_parts,
}
use ens_provider.Config.{Config}
use ens_provider.Leader.Stop.Timed.{
  time_left, wait_chan, stop_grpc, Clock, label_done, drain_term, leads, join_callback,
}

-- A wait that starts by the deadline ends by it, and one that starts later takes no time.
pub wait_chan-end :
    (budget now : ℕ) (closes : Option ℕ)
    → (now ≤ budget → (wait_chan closes (time_left budget now) now).1 ≤ budget)
      × (budget ≤ now → (wait_chan closes (time_left budget now) now).1 ≡ now)
unfolding wait_chan time_left
wait_chan-end budget now none = (
  λ h. ground (arith, -ℤ_parts (pos budget) (pos now)),
  λ h. ground (arith, -ℤ_parts (pos budget) (pos now)),
)
wait_chan-end budget now (some c) = (
  λ h. ground (arith, -ℤ_parts (pos budget) (pos now)),
  λ h. ground (arith, -ℤ_parts (pos budget) (pos now)),
)

pub stop_grpc-end :
    (budget now hard : ℕ) (drains : Option ℕ)
    → now ≤ budget
    → ((stop_grpc drains hard (time_left budget now) now).1 ≤ budget + hard)
      × ((stop_grpc drains hard (time_left budget now) now).0 ≡ true
          → (stop_grpc drains hard (time_left budget now) now).1 ≤ budget)
unfolding stop_grpc time_left
stop_grpc-end budget now hard none h = (
  ground (arith, -ℤ_parts (pos budget) (pos now)),
  λ e. ground (arith, -ℤ_parts (pos budget) (pos now)),
)
stop_grpc-end budget now hard (some c) h = (
  ground (arith, -ℤ_parts (pos budget) (pos now)),
  λ e. ground (arith, -ℤ_parts (pos budget) (pos now)),
)

pub wait_chan-in_time :
    (budget now c : ℕ)
    → now < budget
    → c < budget
    → ((wait_chan (some c) (time_left budget now) now).0 ≡ true)
      × ((wait_chan (some c) (time_left budget now) now).1 < budget)
unfolding wait_chan time_left
wait_chan-in_time budget now c h k = (
  ground (arith, -ℤ_parts (pos budget) (pos now)),
  ground (arith, -ℤ_parts (pos budget) (pos now)),
)

pub stop_grpc-in_time :
    (budget now hard c : ℕ)
    → now < budget
    → c < budget
    → ((stop_grpc (some c) hard (time_left budget now) now).0 ≡ true)
      × ((stop_grpc (some c) hard (time_left budget now) now).1 < budget)
unfolding stop_grpc time_left
stop_grpc-in_time budget now hard c h k = (
  ground (arith, -ℤ_parts (pos budget) (pos now)),
  ground (arith, -ℤ_parts (pos budget) (pos now)),
)

pub label_done-le :
    (cfg : Config) (takes budget : ℕ) → label_done cfg takes (time_left budget 0) 0 ≤ budget
unfolding label_done time_left
label_done-le cfg takes budget = ground (arith, -ℤ_parts (pos budget) (pos 0))

pub label_done-lt :
    (cfg : Config) (takes budget : ℕ)
    → takes < budget
    → label_done cfg takes (time_left budget 0) 0 < budget
unfolding label_done time_left
label_done-lt cfg takes budget h = ground (arith, -ℤ_parts (pos budget) (pos 0))

pub drain_term-end :
    (cfg : Config) (budget : ℕ) (k : Clock) (term : Option ℕ)
    → (drain_term cfg budget k term).1 ≤ budget
unfolding drain_term
drain_term-end cfg budget k none = omega arith
drain_term-end cfg budget k (some t) =
    let now = label_done cfg k.label_takes (time_left budget 0) 0 in
    (wait_chan-end budget now k.term_closes).0 (label_done-le cfg k.label_takes budget)

pub wait_chan-le :
    (budget bound now : ℕ) (closes : Option ℕ)
    → budget ≤ bound
    → now ≤ bound
    → (wait_chan closes (time_left budget now) now).1 ≤ bound
unfolding wait_chan time_left
wait_chan-le budget bound now none h k = ground (arith, -ℤ_parts (pos budget) (pos now))
wait_chan-le budget bound now (some c) h k = ground (arith, -ℤ_parts (pos budget) (pos now))

pub join_callback-le :
    (cfg : Config) (budget bound now : ℕ) (k : Clock)
    → budget ≤ bound
    → now ≤ bound
    → (join_callback cfg budget k now).1 ≤ bound
unfolding join_callback
join_callback-le cfg budget bound now k h p = elim (Bool-cases (leads cfg k)) [
  | inl e ↦ rw (e, join_callback) (wait_chan-le budget bound now k.callback_closes h p)
  | inr e ↦ rw (e, join_callback) p
]
