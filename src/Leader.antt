-- ===== src/Leader.antt =====
-- leader.go: the serving state of one replica, its admission of RPCs and its terms. One definition is
-- what happens under one holding of `mu`, or one call between two of them, so that an interleaving of
-- the goroutines is a sequence of them.
pub mod Routing
pub mod Stop
pub mod Steps
pub mod Interceptors
pub mod Election
pub mod Term
use ens_provider.Prelude.{
  ℕ, ◌+◌, Bool, true, false, ◌&&◌, ◌||◌, not, Option, none, some, List, [], ◌∷◌, Str, codes,
  has_prefix, ◌==◌, if◌then◌else◌,
}
use ens_provider.Config.{Config}
use ens_provider.Metrics.{Metrics}

-- `leadership`: its flags, the current term by its number, how many terms were begun, the terms whose
-- context is done and those whose `done` is closed, and what the named health service says, if there
-- is a health server, and whether that server was shut down.
pub record Leadership : Type 0 where
  pub leader : Bool
  pub k8s_ok : Bool
  pub shutting_down : Bool
  pub ever_led : Bool
  pub term : Option ℕ
  pub begun : ℕ
  pub cancelled : List ℕ
  pub ended : List ℕ
  pub health : Option Bool
  pub health_stopped : Bool
  pub metrics : Metrics

unfoldable pub serving : Leadership → Bool
serving s = s.leader && s.k8s_ok && not s.shutting_down

-- publishLocked. A health server that was shut down keeps its statuses.
unfoldable pub publish : Leadership → Leadership
unfolding serving
publish s = record s {
  health =
      if s.health_stopped
      then s.health
      else elim s.health [ none ↦ none | some b ↦ some (serving s) ];
}

-- Shutdown of the health server, which runServer calls first: every service is NOT_SERVING for good.
unfoldable pub stop_health : Leadership → Leadership
stop_health s = record s {
  health = elim s.health [ none ↦ none | some b ↦ some false ];
  health_stopped = true;
}

abbrev pub same : Bool → Bool → Bool
same true b = b
same false b = not b

-- SetK8sOK
unfoldable pub set_k8s_ok : Bool → Leadership → Leadership
unfolding publish
set_k8s_ok ok s = if same s.k8s_ok ok then s else publish (record s { k8s_ok = ok })

abbrev pub unled : Bool → Metrics → Leadership
unled has_health m = record {
  leader = false;
  k8s_ok = false;
  shutting_down = false;
  ever_led = false;
  term = none;
  begun = 0;
  cancelled = [];
  ended = [];
  health = if has_health then some false else none;
  health_stopped = false;
  metrics = m;
}

-- newLeadership: without an election the replica leads from the start.
unfoldable pub new_leadership : Config → Bool → Metrics → Leadership
unfolding publish
new_leadership cfg has_health m = publish (
    if cfg.leader_elect
    then unled has_health m
    else record (unled has_health (record m { is_leader = 1; routing_published = 1 })) {
      leader = true;
      ever_led = true;
    })

abbrev pub among : ℕ → List ℕ → Bool
among t [] = false
among t (u ∷ us) = (t == u) || among t us

-- What `admit` answers: a refusal, or the term whose context the handler is bound to.
pub data Admission : Type 0 where
  turned_away : Admission
  admitted : Option ℕ → Admission

unfoldable pub admit_term : Leadership → Option ℕ → Admission
admit_term s none = turned_away
admit_term s (some t) = if among t s.cancelled then turned_away else admitted (some t)

unfoldable pub admit : Config → Leadership → Admission
unfolding serving admit_term
admit cfg s =
    if cfg.leader_elect
    then (if serving s then admit_term s s.term else turned_away)
    else if s.shutting_down
    then turned_away
    else admitted none

abbrev pub is_admitted : Admission → Bool
is_admitted turned_away = false
is_admitted (admitted t) = true

-- AllowRPC
unfoldable pub allow_rpc : Config → Leadership → Bool
unfolding admit
allow_rpc cfg s = is_admitted (admit cfg s)

abbrev pub health_service_prefix : Str
health_service_prefix = codes "/grpc.health.v1.Health/"

unfoldable pub is_health_method : Str → Bool
is_health_method full_method = has_prefix full_method health_service_prefix

-- What an interceptor does with a call: it refuses it, or runs the handler, bound to a term or not.
pub data Intercepted : Type 0 where
  unavailable : Intercepted
  handled : Option ℕ → Intercepted

abbrev of_admission : Admission → Intercepted
of_admission turned_away = unavailable
of_admission (admitted t) = handled t

unfoldable pub unary_interceptor : Config → Leadership → Str → Intercepted
unfolding admit is_health_method
unary_interceptor cfg s full_method =
    if is_health_method full_method then handled none else of_admission (admit cfg s)

unfoldable pub stream_interceptor : Config → Leadership → Str → Intercepted
unfolding allow_rpc is_health_method
stream_interceptor cfg s full_method =
    if is_health_method full_method
    then handled none
    else if allow_rpc cfg s
    then handled none
    else unavailable

-- beginTerm: no term once a shutdown is recorded.
unfoldable pub begin_term : Leadership → Leadership × Option ℕ
unfolding publish
begin_term s = if s.shutting_down then (s, none) else (
  publish (record s {
    term = some s.begun;
    begun = s.begun + 1;
    ever_led = true;
    leader = true;
    metrics = record s.metrics {
      is_leader = 1;
      leadership_transitions = s.metrics.leadership_transitions + 1;
    };
  }),
  some s.begun,
)

-- The context of a term is done: cancelled by its own `cancel`, or by its parent.
unfoldable pub cancel_term : ℕ → Leadership → Leadership
cancel_term t s = record s { cancelled = t ∷ s.cancelled }

abbrev unless_current : ℕ → Option ℕ → Option ℕ
unless_current t none = none
unless_current t (some u) = if u == t then none else some u

-- endTerm while it holds the lock.
unfoldable pub end_term_locked : ℕ → Leadership → Leadership
unfolding publish
end_term_locked t s = publish (record s {
  term = unless_current t s.term;
  leader = false;
  metrics = record s.metrics { is_leader = 0; routing_published = 0 };
})

unfoldable pub close_done : ℕ → Leadership → Leadership
close_done t s = record s { ended = t ∷ s.ended }

-- endTerm as a whole: the context is cancelled first.
unfoldable pub end_term : ℕ → Leadership → Leadership
unfolding cancel_term end_term_locked close_done
end_term t s = close_done t (end_term_locked t (cancel_term t s))
