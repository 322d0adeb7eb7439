-- ===== src/Leader/Stop.antt =====
-- leader.go: demotion and shutdown. What follows the lock is a list of calls, the oldest first, given
-- the outcomes of the waits.
mod Calls
pub mod Timed
pub mod Release
use ens_provider.Prelude.{
  ℕ, Bool, true, false, ◌&&◌, ◌||◌, not, Option, none, some, List, [], ◌∷◌, ◌++◌, if◌then◌else◌, ℤ,
  pos, leb_ℤ, ltb_ℤ,
}
use ens_provider.Config.{Config}
use ens_provider.Leader.{Leadership, publish}

pub data LifecycleCall : Type 0 where
  cancelled_election : LifecycleCall
  removed_label : ℤ → LifecycleCall
  cancelled_term : ℕ → LifecycleCall
  waited_term : ℕ → Bool → LifecycleCall
  stopped_grpc : Bool → LifecycleCall
  joined_election : Bool → LifecycleCall
  joined_callback : Bool → LifecycleCall
  cleared_lease : LifecycleCall
  exited : ℕ → LifecycleCall

abbrev pub when : Bool → LifecycleCall → List LifecycleCall
when true c = c ∷ []
when false c = []

-- demote while it holds the lock: whether it goes on.
unfoldable pub demote_locked : Leadership → Leadership × Bool
unfolding publish
demote_locked s = if s.shutting_down then (s, false) else (
  publish (record s {
    shutting_down = true;
    leader = false;
    metrics = record s.metrics { is_leader = 0 };
  }),
  true,
)

unfoldable pub demote_calls : Option ℕ → Bool → Bool → List LifecycleCall
demote_calls none has_cancel waited = when has_cancel cancelled_election ++ (exited 1 ∷ [])
demote_calls (some t) has_cancel waited =
    cancelled_term t
    ∷ waited_term t waited
    ∷ (when has_cancel cancelled_election ++ (exited 1 ∷ []))

-- onStoppedLeading: the state is read under the lock, and a demotion may follow.
pub data Stopped : Type 0 where
  normal_shutdown : Stopped
  never_led : Stopped
  demoting : Option ℕ → Stopped

unfoldable pub on_stopped_leading : Leadership → Stopped
on_stopped_leading s =
    if s.shutting_down then normal_shutdown else if s.ever_led then demoting s.term else never_led

-- Shutdown while it holds the lock: the term that it drains, if it goes on.
unfoldable pub shutdown_locked : Leadership → Leadership × Option (Option ℕ)
unfolding publish
shutdown_locked s =
    if s.shutting_down
    then (s, none)
    else (publish (record s { shutting_down = true }), some s.term)

-- What the rest of Shutdown meets: whether there is an elector and it leads, whether the election can
-- be cancelled, whether there is a lease to clear, the time left for the label, and what each wait
-- returned.
pub record Outcomes : Type 0 where
  pub elector : Option Bool
  pub has_cancel : Bool
  pub has_lease : Bool
  pub remaining : ℤ
  pub term_done : Bool
  pub grpc_drained : Bool
  pub run_done : Bool
  pub callback_done : Bool

abbrev pub three_seconds : ℤ
three_seconds = pos 3_000_000_000

-- removeLabelBestEffort
unfoldable pub remove_label_best_effort : Config → ℤ → List LifecycleCall
remove_label_best_effort cfg limit =
    let short = if ltb_ℤ three_seconds limit then three_seconds else limit in
    if not cfg.leader_elect
    then []
    else if leb_ℤ short (pos 0)
    then []
    else removed_label short ∷ []

abbrev pub elector_leads : Option Bool → Bool
elector_leads none = false
elector_leads (some leads) = leads

abbrev pub was_leader : Config → Outcomes → Bool
was_leader cfg o = cfg.leader_elect && elector_leads o.elector

abbrev pub term_calls : Config → Outcomes → Option ℕ → List LifecycleCall
term_calls cfg o none = []
term_calls cfg o (some t) =
    remove_label_best_effort cfg o.remaining ++ (cancelled_term t ∷ waited_term t o.term_done ∷ [])

abbrev pub term_quiesced : Outcomes → Option ℕ → Bool
term_quiesced o none = true
term_quiesced o (some t) = o.term_done

abbrev pub is_quiesced : Config → Outcomes → Option ℕ → Bool
is_quiesced cfg o term =
    term_quiesced o term
    && o.grpc_drained
    && o.run_done
    && (not (was_leader cfg o) || o.callback_done)

-- Before the gRPC drain; the drain and the joins; all of Shutdown after the lock.
unfoldable pub before_drain : Config → Outcomes → Option ℕ → List LifecycleCall
unfolding remove_label_best_effort
before_drain cfg o term =
    when (not (was_leader cfg o) && o.has_cancel) cancelled_election ++ term_calls cfg o term

unfoldable pub after_drain : Config → Outcomes → List LifecycleCall
after_drain cfg o =
    when o.has_cancel cancelled_election
    ++ (joined_election o.run_done ∷ when (was_leader cfg o) (joined_callback o.callback_done))

unfoldable pub shutdown_calls : Config → Outcomes → Option ℕ → List LifecycleCall
unfolding before_drain after_drain
shutdown_calls cfg o term =
    before_drain cfg o term
    ++ (stopped_grpc o.grpc_drained
        ∷ (after_drain cfg o
            ++ when (was_leader cfg o && is_quiesced cfg o term && o.has_lease) cleared_lease))
