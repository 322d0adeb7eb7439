-- ===== src/Server/Nodes.antt =====
-- The sizes and states that the autoscaler is told, and when it is told that a group is full.
use ens_provider.Prelude.{
  ℕ, ◌+◌, ◌≤◌, ◌<◌, ◌≡◌, ◌↔◌, refl, ◌⊎◌, inl, inr, true, false, Option, none, some, List, ◌∷◌, Str,
  codes, str_eq, str_eq→eq, length, pos, int32_pos, ltb, lt→ltb, arith, Bool-cases,
}
use ens_provider.Config.{Config, Group, group_by_id}
use ens_provider.Inventory.{Instance, Answer, ok, err}
use ens_provider.Order.{OrderError, exceeds_max}
use ens_provider.Order.Guard.{int32-sum}
use ens_provider.Server.{
  Call, listed_owned, Environment, out_of_range, reply, fail, order_response, increase_owned,
  node_group_increase_size, running, one_of, state_for, report_instance,
}

state_for_booted : state_for (codes "Running") ≡ running
unfolding state_for str_eq
state_for_booted = refl

state_for-running : (s : Str) → (state_for s ≡ running) ↔ (s ≡ codes "Running")
unfolding state_for
state_for-running s = elim (Bool-cases (str_eq s (codes "Running"))) [
  | inl same ↦ (λ h. str_eq→eq s (codes "Running") same, λ h. rw same)
  | inr other ↦ (λ h. ground arith, λ h. rw h state_for_booted)
]

-- An instance is reported running exactly where ENS says "Running" and its node has joined; any
-- other status, known or not, is reported creating or deleting.
pub report_instance-running :
    (cfg : Config) (joined : List Str) (o : Instance)
    → ((report_instance cfg joined o).state ≡ running)
      ↔ ((o.status ≡ codes "Running") × (one_of o.id joined ≡ true))
unfolding report_instance
report_instance-running cfg joined o = (
  λ h. ground (arith, state_for-running o.status),
  λ h. ground (arith, state_for-running o.status),
)

-- The ceiling refused the order.
abbrev pub IsFull : Option OrderError → Type 0
IsFull (some (exceeds_max gid count owned max)) = Unit
IsFull _ = ⊥

order_response-IsFull : (o : Option OrderError) → (order_response o ≡ fail out_of_range) ↔ IsFull o
unfolding order_response
order_response-IsFull none = (λ h. cc, λ h. absurd h)
order_response-IsFull (some (exceeds_max gid count owned max)) = (λ h. tt, λ h. refl)
order_response-IsFull (some _) = (λ h. cc, λ h. absurd h)

order_response-reply : (o : Option OrderError) → (order_response o ≡ reply tt) ↔ (o ≡ none)
unfolding order_response
order_response-reply none = (λ h. refl, λ h. refl)
order_response-reply (some (exceeds_max gid count owned max)) = (λ h. cc, λ h. cc)
order_response-reply (some _) = (λ h. cc, λ h. cc)

increase_owned_lem :
    (env : Environment) (g : Group) (d max : ℕ) (log : List Call) (a : Answer (List Instance))
    (owned : List Instance)
    → a ≡ ok owned
    → g.max ≡ pos max
    → length owned + d < 2147483648
    → (((increase_owned env g (pos d) log a).1 ≡ reply tt)
        ↔ ((length owned + d ≤ max) × (env.run_instances log g (pos d) ≡ none)))
      × (((increase_owned env g (pos d) log a).1 ≡ fail out_of_range) ↔ (
          (max < length owned + d)
          ⊎ ((length owned + d ≤ max) × IsFull (env.run_instances log g (pos d)))))
unfolding increase_owned
increase_owned_lem env g d max log (err x) owned e m fits = cc
increase_owned_lem env g d max log (ok o) owned e m fits =
    let same : o ≡ owned = cc in
    rw (same, m)
      (rw (int32-sum (length owned) d (omega arith), int32_pos (length owned + d) fits)
        (
          (
            λ h. ground (
              arith,
              order_response-reply (env.run_instances log (record g { max = pos max }) (pos d)),
            ),
            λ h. ground (
              arith,
              order_response-reply (env.run_instances log (record g { max = pos max }) (pos d)),
            ),
          ),
          (
            λ h. elim (Bool-cases (ltb (max + 0) (length owned + d + 0))) [
              | inl over ↦ inl (ground arith)
              | inr under ↦ inr (
                ground arith,
                (order_response-IsFull
                      (env.run_instances log (record g { max = pos max }) (pos d))).0
                    (rw under at h),
              )
            ],
            λ h. elim h [
              | inl over ↦ rw (lt→ltb (max + 0) (length owned + d + 0) (omega arith)) refl
              | inr (under, full) ↦
                  (let no : ltb (max + 0) (length owned + d + 0) ≡ false = ground arith in
                    rw no (
                      (order_response-IsFull
                          (env.run_instances log (record g { max = pos max }) (pos d))).1
                        full))
            ],
          ),
        ))

-- Where the sum fits 31 bits, an increase succeeds exactly where the cached count and the delta fit
-- the maximum and the order does not fail; and the group is reported full (OutOfRange) exactly where
-- they do not fit, or where they do and the order itself was refused by the ceiling.
pub increase_size-exact :
    (env : Environment) (cfg : Config) (id : Str) (g : Group) (d max : ℕ) (log : List Call)
    (owned : List Instance)
    → group_by_id cfg id ≡ some g
    → env.owned_instances log g ≡ ok owned
    → g.max ≡ pos max
    → length owned + d < 2147483648
    → let r = (node_group_increase_size env cfg id (pos d) log).1 in
      let order = env.run_instances (listed_owned g.id ∷ log) g (pos d) in
      ((r ≡ reply tt) ↔ ((length owned + d ≤ max) × (order ≡ none)))
      × ((r ≡ fail out_of_range)
          ↔ ((max < length owned + d) ⊎ ((length owned + d ≤ max) × IsFull order)))
unfolding node_group_increase_size
increase_size-exact env cfg id g d max log owned found listed m fits =
    rw (found, node_group_increase_size)
      (increase_owned_lem env g d max (listed_owned g.id ∷ log) (env.owned_instances log g) owned
        listed m fits)
