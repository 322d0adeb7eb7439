-- ===== src/Leader/Steps/Invariant.antt =====
-- What holds in every state of a run.
use ens_provider.Prelude.{
  ℕ, ◌+◌, ◌≤◌, ◌≡◌, refl, ◌⊎◌, inl, inr, Bool, true, false, Option, none, some, arith, if-both,
  if-cases, Option-cases,
}
use ens_provider.Config.{Config}
use ens_provider.Metrics.{Metrics}
use ens_provider.Leader.{
  Leadership, serving, publish, same, set_k8s_ok, new_leadership, begin_term, cancel_term,
  end_term_locked, close_done, stop_health,
}
use ens_provider.Leader.Stop.{demote_locked, shutdown_locked}
use ens_provider.Leader.Steps.{
  one_if, one_if_some, Step, reachable, begins, routed, cancels, ends, closes, demotes, stops,
  shuts, Run, start, step,
}

-- The health service says what the serving state is, and NOT_SERVING once its server was shut down;
-- the gauge is the leadership, and a leader by
-- election has a term.
pub record IsConsistent (cfg : Config) (s : Leadership) : Type 0 where
  pub mirrored : s.health_stopped ≡ false → (s.health ≡ none) ⊎ (s.health ≡ some (serving s))
  pub over : s.health_stopped ≡ true → (s.health ≡ none) ⊎ (s.health ≡ some false)
  pub gauge : s.metrics.is_leader ≡ one_if s.leader
  pub has_term : cfg.leader_elect ≡ true → s.leader ≡ true → (h : ℕ) × (s.term ≡ some h)
  pub led : s.leader ≡ true → s.ever_led ≡ true

publish_mirrored :
    (s : Leadership)
    → s.health_stopped ≡ false
    → ((publish s).health ≡ none) ⊎ ((publish s).health ≡ some (serving (publish s)))
unfolding publish serving
publish_mirrored s open_server = elim (Option-cases s.health) [
  | inl p ↦ inl (rw (open_server, p) refl)
  | inr (b, p) ↦ inr (rw (open_server, p) refl)
]

-- What the parts of the program that publish must show.
publish-IsConsistent :
    (cfg : Config) (s : Leadership)
    → s.metrics.is_leader ≡ one_if s.leader
    → (cfg.leader_elect ≡ true → s.leader ≡ true → (h : ℕ) × (s.term ≡ some h))
    → (s.leader ≡ true → s.ever_led ≡ true)
    → (s.health_stopped ≡ true → (s.health ≡ none) ⊎ (s.health ≡ some false))
    → IsConsistent cfg (publish s)
unfolding publish
publish-IsConsistent cfg s gauge has_term led over = record {
  mirrored = publish_mirrored s;
  over = λ e. rw e (over e);
  gauge = gauge;
  has_term = has_term;
  led = led;
}

new_leadership-IsConsistent :
    (cfg : Config) (has_health : Bool) (m : Metrics)
    → m.is_leader ≡ 0
    → IsConsistent cfg (new_leadership cfg has_health m)
unfolding new_leadership
new_leadership-IsConsistent cfg has_health m zero =
    publish-IsConsistent cfg _ (ground arith) (λ p h. ground arith) (λ h. ground arith)
      (λ h. ground (arith, h))

set_k8s_ok-IsConsistent :
    (cfg : Config) (ok : Bool) (s : Leadership)
    → IsConsistent cfg s
    → IsConsistent cfg (set_k8s_ok ok s)
unfolding set_k8s_ok
set_k8s_ok-IsConsistent cfg ok s c =
    if-both (IsConsistent cfg) (same s.k8s_ok ok) c
      (publish-IsConsistent cfg (record s { k8s_ok = ok }) c.gauge c.has_term c.led c.over)

begin_term-IsConsistent :
    (cfg : Config) (s : Leadership) → IsConsistent cfg s → IsConsistent cfg (begin_term s).0
unfolding begin_term
begin_term-IsConsistent cfg s c =
    if-both (λ (r : Leadership × Option ℕ). IsConsistent cfg r.0) s.shutting_down c
      (publish-IsConsistent cfg _ refl (λ e h. (s.begun, refl)) (λ h. refl) c.over)

end_term_locked-IsConsistent :
    (cfg : Config) (h : ℕ) (s : Leadership)
    → IsConsistent cfg s
    → IsConsistent cfg (end_term_locked h s)
unfolding end_term_locked
end_term_locked-IsConsistent cfg h s c =
    publish-IsConsistent cfg _ refl (λ e h. cc) (λ h. cc) c.over

demote_locked-IsConsistent :
    (cfg : Config) (s : Leadership) → IsConsistent cfg s → IsConsistent cfg (demote_locked s).0
unfolding demote_locked
demote_locked-IsConsistent cfg s c =
    if-both (λ (r : Leadership × Bool). IsConsistent cfg r.0) s.shutting_down c
      (publish-IsConsistent cfg _ refl (λ e h. cc) (λ h. cc) c.over)

shutdown_locked-IsConsistent :
    (cfg : Config) (s : Leadership) → IsConsistent cfg s → IsConsistent cfg (shutdown_locked s).0
unfolding shutdown_locked
shutdown_locked-IsConsistent cfg s c =
    if-both (λ (r : Leadership × Option (Option ℕ)). IsConsistent cfg r.0) s.shutting_down c
      (publish-IsConsistent cfg (record s { shutting_down = true }) c.gauge c.has_term c.led c.over)

stopped_none :
    (o : Option Bool)
    → let h : Option Bool = elim o [ none ↦ none | some b ↦ some false ] in
      (h ≡ none) ⊎ (h ≡ some false)
stopped_none none = inl refl
stopped_none (some b) = inr refl

Step-IsConsistent :
    (cfg : Config) {s t : Leadership} {n : ℕ} → Step s t n → IsConsistent cfg s → IsConsistent cfg t
unfolding cancel_term close_done stop_health serving
Step-IsConsistent cfg {s} (reachable ok p q) c = rw p (set_k8s_ok-IsConsistent cfg ok s c)
Step-IsConsistent cfg {s} (begins p q) c = rw p (begin_term-IsConsistent cfg s c)
Step-IsConsistent cfg {s} (routed n p q) c = rw p (record {
  mirrored = c.mirrored;
  over = c.over;
  gauge = c.gauge;
  has_term = c.has_term;
  led = c.led;
})
Step-IsConsistent cfg {s} (cancels h p q) c = rw p (record {
  mirrored = c.mirrored;
  over = c.over;
  gauge = c.gauge;
  has_term = c.has_term;
  led = c.led;
})
Step-IsConsistent cfg {s} (ends h p q) c = rw p (end_term_locked-IsConsistent cfg h s c)
Step-IsConsistent cfg {s} (closes h p q) c = rw p (record {
  mirrored = c.mirrored;
  over = c.over;
  gauge = c.gauge;
  has_term = c.has_term;
  led = c.led;
})
Step-IsConsistent cfg {s} (demotes p q) c = rw p (demote_locked-IsConsistent cfg s c)
Step-IsConsistent cfg {s} (stops p q) c = rw p (record {
  mirrored = λ e. cc e;
  over = λ e. stopped_none s.health;
  gauge = c.gauge;
  has_term = c.has_term;
  led = c.led;
})
Step-IsConsistent cfg {s} (shuts p q) c = rw p (shutdown_locked-IsConsistent cfg s c)

Run-IsConsistent :
    (cfg : Config) {s t : Leadership} {n : ℕ} → Run s t n → IsConsistent cfg s → IsConsistent cfg t
Run-IsConsistent cfg start c = c
Run-IsConsistent cfg (step r st) c = Step-IsConsistent cfg st (Run-IsConsistent cfg r c)

-- The lifecycle is free while it was taken over no time, and it is taken over at most once.
abbrev IsOwned : Leadership → ℕ → Type 0
IsOwned s n = n ≡ one_if s.shutting_down

Step-IsOwned : {s t : Leadership} {m n : ℕ} → Step s t n → IsOwned s m → IsOwned t (m + n)
unfolding set_k8s_ok begin_term cancel_term end_term_locked close_done stop_health demote_locked
    shutdown_locked publish
Step-IsOwned {s} {m = m} (reachable ok p q) h =
    rw (p, q)
      (if-both (λ (r : Leadership). m + 0 ≡ one_if r.shutting_down) (same s.k8s_ok ok)
        (omega (arith, h)) (omega (arith, h)))
Step-IsOwned {s} {m = m} (begins p q) h =
    rw (p, q)
      (if-both (λ (r : Leadership × Option ℕ). m + 0 ≡ one_if r.0.shutting_down) s.shutting_down
        (omega (arith, h)) (omega (arith, h)))
Step-IsOwned {s} (routed n p q) h = rw (p, q) (omega (arith, h))
Step-IsOwned {s} (cancels n p q) h = rw (p, q) (omega (arith, h))
Step-IsOwned {s} (ends n p q) h = rw (p, q) (omega (arith, h))
Step-IsOwned {s} (closes n p q) h = rw (p, q) (omega (arith, h))
Step-IsOwned {s} {m = m} (demotes p q) h =
    rw (p, q)
      (if-cases (λ (r : Leadership × Bool). m + one_if r.1 ≡ one_if r.0.shutting_down)
        s.shutting_down (λ e. omega (arith, h)) (λ e. let z = rw e at h in omega (arith, z)))
Step-IsOwned {s} (stops p q) h = rw (p, q) (omega (arith, h))
Step-IsOwned {s} {m = m} (shuts p q) h =
    rw (p, q)
      (if-cases
        (λ (r : Leadership × Option (Option ℕ)). m + one_if_some r.1 ≡ one_if r.0.shutting_down)
        s.shutting_down (λ e. omega (arith, h)) (λ e. let z = rw e at h in omega (arith, z)))

Run-IsOwned : {s t : Leadership} {n : ℕ} → Run s t n → s.shutting_down ≡ false → IsOwned t n
Run-IsOwned start e = rw e refl
Run-IsOwned (step r st) e = Step-IsOwned st (Run-IsOwned r e)

at_most_one : (b : Bool) → one_if b ≤ 1
at_most_one true = omega arith
at_most_one false = omega arith

new_leadership_open :
    (cfg : Config) (has_health : Bool) (m : Metrics)
    → (new_leadership cfg has_health m).shutting_down ≡ false
unfolding new_leadership publish
new_leadership_open cfg has_health m =
    if-both (λ (s : Leadership). s.shutting_down ≡ false) cfg.leader_elect refl refl

-- In every state that a new replica reaches, by any interleaving of its goroutines, the shutdown of
-- the health server among them: the named health service, if there is one, says exactly whether the
-- replica serves until its server is shut down, and NOT_SERVING from then on; the leader gauge is its leadership, a leader by
-- election has a term, and demotion and shutdown together have taken the lifecycle over once at most.
pub Run-new_leadership :
    (cfg : Config) (has_health : Bool) (m : Metrics) {t : Leadership} {n : ℕ}
    → m.is_leader ≡ 0
    → Run (new_leadership cfg has_health m) t n
    → IsConsistent cfg t × (n ≤ 1)
Run-new_leadership cfg has_health m {t} zero r = (
  Run-IsConsistent cfg r (new_leadership-IsConsistent cfg has_health m zero),
  rw (Run-IsOwned r (new_leadership_open cfg has_health m)) (at_most_one t.shutting_down),
)
