-- ===== src/Order/Ceiling.antt =====
-- The group and the cloud together: what the inventory lists, what exists and is not listed yet, and
-- the reservations of one provider process. The steps are the orders, the landing of what ENS
-- accepted, and the inventory catching up; `Safety` is about the number that exists.
pub mod Keeps
mod Landed
pub mod Safety
use ens_provider.Prelude.{
  ℕ, ◌+◌, ◌≤◌, ◌<◌, ◌≡◌, ◌⊎◌, Bool, true, false, Option, none, some, List, [], ◌∷◌, ◌++◌, Str,
  has_prefix, length, All, In, ℤ, pos, pos_part,
}
use ens_provider.Inventory.{Instance, Answer, ok, err}
use ens_provider.Reservation.{OrderReservation, Reservations, effective_owned}
use ens_provider.Reservation.Effective.{matching, IsAccounted}
use ens_provider.Order.{
  Context, RuntimeOptions, OrderOutcome, rejected, Submitted, OrderResult, execute_guarded_order,
}

-- `visible` is what a fresh inventory of the group lists, `hidden` what exists beside it.
pub record Region : Type 0 where
  pub reservations : Reservations
  pub visible : List Instance
  pub hidden : List Instance

-- One call of executeGuardedOrder, with what the outside decides during it.
pub record OrderCall : Type 0 where
  pub ctx : Context
  pub op : Str
  pub count : ℕ
  pub now : ℤ
  pub wall : ℤ
  pub inventory : Answer (List Instance)
  pub submit : RuntimeOptions → Submitted

abbrev pub run_call : Str → ℕ → Reservations → OrderCall → OrderResult
run_call gid max m o =
    execute_guarded_order o.ctx m gid o.op (pos o.count) (pos max) o.now o.wall o.inventory o.submit

-- What ENS may have created for an order: nothing without a submit or after a rejection, and no more
-- than was ordered, each named after the operation.
pub record HasLanded (o : OrderCall) (r : OrderResult) (landed : List Instance) : Type 0 where
  pub unsent : r.submit_call ≡ none → landed ≡ []
  pub refused :
      (rt : RuntimeOptions)
      → r.submit_call ≡ some rt
      → (o.submit rt).outcome ≡ rejected
      → landed ≡ []
  pub bounded : length landed ≤ o.count
  pub named : (i : Instance) → In i landed → has_prefix i.name o.op ≡ true

-- When an order is inside the guarantee: the inventory lists what is visible or fails, each
-- reservation is young or has no instance hidden, the operation's name is new, and the guard's sum
-- fits 31 bits.
pub record IsOrder (s : Region) (o : OrderCall) (landed : List Instance) : Type 0 where
  pub looked : (o.inventory ≡ ok s.visible) ⊎ ((x : Str) × (o.inventory ≡ err x))
  pub accounted : All (IsAccounted (λ op. matching op s.hidden) o.now) s.reservations
  pub new_visible : matching o.op s.visible ≡ 0
  pub new_hidden : matching o.op s.hidden ≡ 0
  pub apart : All (λ p. matching p.0 landed ≡ 0) s.reservations
  pub fits : pos_part (effective_owned s.reservations s.visible o.now).count + o.count < 2147483648

-- What is asked of an order, given its result and what ENS creates for it.
abbrev pub Condition : Type 1
Condition = Region → OrderCall → OrderResult → List Instance → Type 0

-- The condition of the guarantee, and none.
abbrev pub IsLawful : Condition
IsLawful s o r landed = IsOrder s o landed × HasLanded o r landed

abbrev pub IsAny : Condition
IsAny s o r landed = Unit

-- The steps, with orders that meet a condition. Any instance may become visible or disappear at any time.
pub data Step (Ok : Condition) (gid : Str) (max : ℕ) (s t : Region) : Type 0 where
  reveal :
      (xs ys : List Instance) (i : Instance)
      → s.hidden ≡ xs ++ (i ∷ ys)
      → t ≡ record s { visible = i ∷ s.visible; hidden = xs ++ ys }
      → Step Ok gid max s t
  vanish_visible :
      (xs ys : List Instance) (i : Instance)
      → s.visible ≡ xs ++ (i ∷ ys)
      → t ≡ record s { visible = xs ++ ys }
      → Step Ok gid max s t
  vanish_hidden :
      (xs ys : List Instance) (i : Instance)
      → s.hidden ≡ xs ++ (i ∷ ys)
      → t ≡ record s { hidden = xs ++ ys }
      → Step Ok gid max s t
  order :
      (o : OrderCall) (landed : List Instance)
      → Ok s o (run_call gid max s.reservations o) landed
      → t ≡ record s {
        reservations = (run_call gid max s.reservations o).reservations;
        hidden = landed ++ s.hidden;
      }
      → Step Ok gid max s t

pub data Reach (Ok : Condition) (gid : Str) (max : ℕ) (s : Region) : Region → Type 0 where
  here : Reach Ok gid max s s
  next : {t u : Region} → Reach Ok gid max s t → Step Ok gid max t u → Reach Ok gid max s u
