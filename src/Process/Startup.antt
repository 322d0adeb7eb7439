-- ===== src/Process/Startup.antt =====
-- The order of the startup.
use ens_provider.Prelude.{
  ◌≡◌, ◌≢◌, refl, sym, ap, subst, inl, inr, ◌⊎◌, Bool, true, false, Option, none, some, List, [],
  ◌∷◌, ◌++◌, Str, In, if◌then◌else◌,
}
use ens_provider.Config.{Config}
use ens_provider.Config.Load.{Loaded, loaded, not_loaded}
use ens_provider.Config.Environment.{Reading, value, fatal}
use ens_provider.Leader.Routing.{
  Purge, purged, failed_permanently, stopped, exhausted, purge_stale_label,
}
use ens_provider.Leader.Election.{Election, disabled, not_started, runs, start_election}
use ens_provider.Process.{
  Stage, probed, label_purged, background_started, metrics_served, listening, readiness_started,
  election_started, serving, Failure, no_cloud, no_kube, stale_label, no_listener, no_election,
  Boot, Started, after, unless_failed, start_or_fail, open_listener, after_purge, start_parts,
  startup,
}

-- The stages are the beginning of `full`, and all of it exactly where nothing failed.
pub record Begins (s : Started) (full : List Stage) : Type 0 where
  pub rest : List Stage
  pub place : s.0 ++ rest ≡ full
  pub whole : s.1 ≡ none → rest ≡ []
  pub partial : rest ≡ [] → s.1 ≡ none

after-Begins :
    (x : Stage) (s : Started) (full : List Stage) → Begins s full → Begins (after x s) (x ∷ full)
after-Begins x (stages, f) full b = record {
  rest = b.rest;
  place = ap (λ l. x ∷ l) b.place;
  whole = b.whole;
  partial = b.partial;
}

failed-Begins : (f : Failure) (x : Stage) (full : List Stage) → Begins ([], some f) (x ∷ full)
failed-Begins f x full = record {
  rest = x ∷ full;
  place = refl;
  whole = λ h. cc;
  partial = λ h. cc;
}

unless_failed-Begins :
    (o : Option Str) (f : Str → Failure) (s : Started) (x : Stage) (full : List Stage)
    → Begins s (x ∷ full)
    → Begins (unless_failed o f s) (x ∷ full)
unless_failed-Begins none f s x full b = b
unless_failed-Begins (some e) f s x full b = failed-Begins (f e) x full

abbrev pub last_stages : List Stage
last_stages = metrics_served ∷ listening ∷ readiness_started ∷ election_started ∷ serving ∷ []

-- The order of a process that starts.
abbrev pub stages_in_order : Boot → Config → List Stage
stages_in_order b cfg =
    probed b.inventory_read
    ∷ label_purged
    ∷ (if cfg.leader_elect then last_stages else background_started ∷ last_stages)

start_or_fail-Begins : (e : Election) → Begins (start_or_fail e) (election_started ∷ serving ∷ [])
unfolding start_or_fail
start_or_fail-Begins disabled = record {
  rest = [];
  place = refl;
  whole = λ h. refl;
  partial = λ h. refl;
}
start_or_fail-Begins (runs c) = record {
  rest = [];
  place = refl;
  whole = λ h. refl;
  partial = λ h. refl;
}
start_or_fail-Begins (not_started e) = failed-Begins (no_election e) election_started (serving ∷ [])

open_listener-Begins : (b : Boot) (cfg : Config) → Begins (open_listener b cfg) last_stages
unfolding open_listener
open_listener-Begins b cfg = after-Begins metrics_served _ _ (
    unless_failed-Begins b.listener no_listener _ listening _ (
      after-Begins listening _ _ (
        after-Begins readiness_started _ _
          (start_or_fail-Begins (start_election b.new_elector cfg)))))

election-Begins :
    (elect : Bool) (s : Started) (full : List Stage)
    → Begins s full
    → Begins
        (after label_purged (if elect then s else after background_started s))
        (label_purged ∷ (if elect then full else background_started ∷ full))
election-Begins true s full b = after-Begins label_purged s full b
election-Begins false s full b =
    after-Begins label_purged (after background_started s) (background_started ∷ full)
      (after-Begins background_started s full b)

after_purge-Begins :
    (b : Boot) (cfg : Config) (p : Purge)
    → Begins (after_purge b cfg p) (
        label_purged ∷ (if cfg.leader_elect then last_stages else background_started ∷ last_stages))
unfolding after_purge
after_purge-Begins b cfg purged =
    election-Begins cfg.leader_elect (open_listener b cfg) last_stages (open_listener-Begins b cfg)
after_purge-Begins b cfg failed_permanently =
    failed-Begins (stale_label failed_permanently) label_purged _
after_purge-Begins b cfg stopped = failed-Begins (stale_label stopped) label_purged _
after_purge-Begins b cfg exhausted = failed-Begins (stale_label exhausted) label_purged _

start_parts-Begins : (b : Boot) (cfg : Config) → Begins (start_parts b cfg) (stages_in_order b cfg)
unfolding start_parts
start_parts-Begins b cfg = unless_failed-Begins b.cloud no_cloud _ _ _ (
    unless_failed-Begins b.kube no_kube _ _ _ (
      after-Begins (probed b.inventory_read) _ _
        (after_purge-Begins b cfg (purge_stale_label cfg b.label_api))))

after_purge-purged :
    (b : Boot) (cfg : Config) (p : Purge) → In listening (after_purge b cfg p).0 → p ≡ purged
unfolding after_purge
after_purge-purged b cfg purged h = refl
after_purge-purged b cfg failed_permanently h = absurd h
after_purge-purged b cfg stopped h = absurd h
after_purge-purged b cfg exhausted h = absurd h

unless_failed-In :
    (o : Option Str) (f : Str → Failure) (s : Started)
    → In listening (unless_failed o f s).0
    → In listening s.0
unless_failed-In none f s h = h
unless_failed-In (some e) f s h = absurd h

start_parts-purged :
    (b : Boot) (cfg : Config)
    → In listening (start_parts b cfg).0
    → purge_stale_label cfg b.label_api ≡ purged
unfolding start_parts
start_parts-purged b cfg h =
    elim (unless_failed-In b.kube no_kube _ (unless_failed-In b.cloud no_cloud _ h)) [
      | inl e ↦ cc
      | inr k ↦ after_purge-purged b cfg (purge_stale_label cfg b.label_api) k
    ]

startup_from :
    (b : Boot) (r : Reading Loaded)
    → b.config ≡ r
    → ((cfg : Config) × (b.config ≡ value (loaded cfg))
        × Begins (startup b) (stages_in_order b cfg)
        × (In listening (startup b).0 → purge_stale_label cfg b.label_api ≡ purged))
      ⊎ (((startup b).0 ≡ []) × ((startup b).1 ≢ none))
unfolding startup
startup_from b (fatal key) e = inr (rw (e, startup) refl, λ h. cc (rw (e, startup) at h))
startup_from b (value (not_loaded x)) e = inr (rw (e, startup) refl, λ h. cc (rw (e, startup) at h))
startup_from b (value (loaded cfg)) e =
    let same : startup b ≡ start_parts b cfg = rw (e, startup) refl in
    inl (
      cfg,
      e,
      subst (λ s. Begins s (stages_in_order b cfg)) (sym same) (start_parts-Begins b cfg),
      λ h. start_parts-purged b cfg (subst (λ (s : Started). In listening s.0) same h),
    )

-- With a configuration that loads, the stages of the startup are a beginning of the one order, and
-- all of it exactly where nothing fails: the stale label is purged before the listener opens, and the
-- election starts after it, last; without an election the background work starts before the listener.
-- The listener opens only where the purge came back with success. Without a configuration there is no
-- stage at all.
pub startup-order :
    (b : Boot)
    → ((cfg : Config) × (b.config ≡ value (loaded cfg))
        × Begins (startup b) (stages_in_order b cfg)
        × (In listening (startup b).0 → purge_stale_label cfg b.label_api ≡ purged))
      ⊎ (((startup b).0 ≡ []) × ((startup b).1 ≢ none))
startup-order b = startup_from b b.config refl
