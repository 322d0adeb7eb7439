-- ===== src/Leader/Stop/Timed.antt =====
-- leader.go: the clock of Shutdown. Times are nanoseconds since Shutdown took its deadline. The
-- channels are given by the time at which each is closed, if it ever is.
mod Waits
pub mod Budget
use ens_provider.Prelude.{
  ℕ, ◌+◌, Bool, true, false, ◌&&◌, not, Option, none, some, leb, ltb, if◌then◌else◌, ℤ, pos,
  pos_part, ◌-ℤ◌, leb_ℤ, ltb_ℤ,
}
use ens_provider.Config.{Config}
use ens_provider.Leader.Stop.{Outcomes, three_seconds, elector_leads}

-- remaining()
unfoldable pub time_left : ℕ → ℕ → ℤ
time_left budget now = pos budget -ℤ pos now

abbrev pub later : ℕ → ℕ → ℕ
later a b = if ltb a b then b else a

abbrev pub closed_by : Option ℕ → ℕ → Bool
closed_by none t = false
closed_by (some c) t = leb c t

abbrev pub close_time : Option ℕ → ℕ → ℕ
close_time none t = t
close_time (some c) t = c

-- waitChan: whether the channel was closed in time, and when the wait ends. A channel that is closed
-- at the very end of the wait counts as closed.
unfoldable pub wait_chan : Option ℕ → ℤ → ℕ → Bool × ℕ
wait_chan closes d now =
    if leb_ℤ d (pos 0)
    then (closed_by closes now, now)
    else if closed_by closes (now + pos_part d)
    then (true, later now (close_time closes now))
    else (false, now + pos_part d)

-- The callback that runServer hands to Shutdown: GracefulStop drains by `drains`, if it ever does, and
-- a hard Stop takes `hard`.
unfoldable pub stop_grpc : Option ℕ → ℕ → ℤ → ℕ → Bool × ℕ
stop_grpc drains hard remaining now =
    if leb_ℤ remaining (pos 0)
    then (false, now + hard)
    else if closed_by drains (now + pos_part remaining)
    then (true, later now (close_time drains now))
    else (false, now + pos_part remaining + hard)

-- What the clock of one Shutdown meets.
pub record Clock : Type 0 where
  pub elector : Option Bool
  pub has_cancel : Bool
  pub has_lease : Bool
  pub label_takes : ℕ
  pub term_closes : Option ℕ
  pub drains : Option ℕ
  pub hard_stop : ℕ
  pub run_closes : Option ℕ
  pub callback_closes : Option ℕ

abbrev pub shorter : ℕ → ℕ → ℕ
shorter a b = if ltb b a then b else a

-- removeLabelBestEffort: its call ends within its limit, which is 3 s at most.
unfoldable pub label_done : Config → ℕ → ℤ → ℕ → ℕ
label_done cfg takes limit now =
    let short = if ltb_ℤ three_seconds limit then three_seconds else limit in
    if not cfg.leader_elect
    then now
    else if leb_ℤ short (pos 0)
    then now
    else now + shorter takes (pos_part short)

-- The term is drained: whether it was quiet in time, and when that is over.
unfoldable pub drain_term : Config → ℕ → Clock → Option ℕ → Bool × ℕ
unfolding label_done wait_chan time_left
drain_term cfg budget k none = (true, 0)
drain_term cfg budget k (some t) =
    let now = label_done cfg k.label_takes (time_left budget 0) 0 in
    wait_chan k.term_closes (time_left budget now) now

abbrev pub leads : Config → Clock → Bool
leads cfg k = cfg.leader_elect && elector_leads k.elector

-- The join of the acquisition callback, where the replica leads.
unfoldable pub join_callback : Config → ℕ → Clock → ℕ → Bool × ℕ
unfolding wait_chan time_left
join_callback cfg budget k now =
    if leads cfg k then wait_chan k.callback_closes (time_left budget now) now else (true, now)

-- Shutdown after the lock, up to the release of the lease: what its waits return, and the time at
-- which it gets there.
unfoldable pub timed_shutdown : Config → ℕ → Clock → Option ℕ → Outcomes × ℕ
unfolding drain_term stop_grpc wait_chan join_callback time_left
timed_shutdown cfg budget k term =
    let (term_done, t₁) = drain_term cfg budget k term in
    let (drained, t₂) = stop_grpc k.drains k.hard_stop (time_left budget t₁) t₁ in
    let (run_done, t₃) = wait_chan k.run_closes (time_left budget t₂) t₂ in
    let (callback_done, t₄) = join_callback cfg budget k t₃ in
    (
      record {
        elector = k.elector;
        has_cancel = k.has_cancel;
        has_lease = k.has_lease;
        remaining = time_left budget 0;
        term_done = term_done;
        grpc_drained = drained;
        run_done = run_done;
        callback_done = callback_done;
      },
      t₄,
    )
