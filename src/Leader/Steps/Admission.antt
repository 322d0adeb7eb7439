-- ===== src/Leader/Steps/Admission.antt =====
-- Which RPCs are admitted, over a run.
use ens_provider.Prelude.{
  ℕ, ◌≡◌, refl, inl, inr, Bool, true, false, Option, none, some, arith, Bool-cases, if-both,
  if◌then◌else◌,
}
use ens_provider.Config.{Config}
use ens_provider.Leader.{
  Leadership, serving, publish, same, set_k8s_ok, begin_term, cancel_term, end_term_locked,
  close_done, stop_health, among, turned_away, admitted, admit, admit_term,
}
use ens_provider.Leader.Stop.{demote_locked, shutdown_locked}
use ens_provider.Leader.Steps.{
  Step, reachable, begins, routed, cancels, ends, closes, demotes, stops, shuts, Run, start, step,
}

-- What never comes back in a run: the shutdown, and the end of a term's context.
record IsLater (s t : Leadership) : Type 0 where
  pub stays_down : s.shutting_down ≡ true → t.shutting_down ≡ true
  pub stays_cancelled : (h : ℕ) → among h s.cancelled ≡ true → among h t.cancelled ≡ true

Step-IsLater : {s t : Leadership} {n : ℕ} → Step s t n → IsLater s t
unfolding set_k8s_ok begin_term cancel_term end_term_locked close_done stop_health demote_locked
    shutdown_locked publish
Step-IsLater {s} (reachable ok p q) = rw p (
    if-both (IsLater s) (same s.k8s_ok ok)
      (record { stays_down = λ e. e; stays_cancelled = λ h e. e })
      (record { stays_down = λ e. e; stays_cancelled = λ h e. e }))
Step-IsLater {s} (begins p q) = rw p (
    if-both (λ (r : Leadership × Option ℕ). IsLater s r.0) s.shutting_down
      (record { stays_down = λ e. e; stays_cancelled = λ h e. e })
      (record { stays_down = λ e. e; stays_cancelled = λ h e. e }))
Step-IsLater {s} (routed n p q) = rw p (record { stays_down = λ e. e; stays_cancelled = λ h e. e })
Step-IsLater {s} (cancels n p q) =
    rw p (record { stays_down = λ e. e; stays_cancelled = λ h e. ground (arith, e) })
Step-IsLater {s} (ends n p q) = rw p (record { stays_down = λ e. e; stays_cancelled = λ h e. e })
Step-IsLater {s} (closes n p q) = rw p (record { stays_down = λ e. e; stays_cancelled = λ h e. e })
Step-IsLater {s} (demotes p q) = rw p (
    if-both (λ (r : Leadership × Bool). IsLater s r.0) s.shutting_down
      (record { stays_down = λ e. e; stays_cancelled = λ h e. e })
      (record { stays_down = λ e. refl; stays_cancelled = λ h e. e }))
Step-IsLater {s} (stops p q) = rw p (record { stays_down = λ e. e; stays_cancelled = λ h e. e })
Step-IsLater {s} (shuts p q) = rw p (
    if-both (λ (r : Leadership × Option (Option ℕ)). IsLater s r.0) s.shutting_down
      (record { stays_down = λ e. e; stays_cancelled = λ h e. e })
      (record { stays_down = λ e. refl; stays_cancelled = λ h e. e }))

Run-IsLater : {s t : Leadership} {n : ℕ} → Run s t n → IsLater s t
Run-IsLater start = record { stays_down = λ e. e; stays_cancelled = λ h e. e }
Run-IsLater (step r st) =
    let a = Run-IsLater r in
    let b = Step-IsLater st in
    record {
      stays_down = λ e. b.stays_down (a.stays_down e);
      stays_cancelled = λ h e. b.stays_cancelled h (a.stays_cancelled h e);
    }

-- What an admission shows of the state that gives it.
record IsServed (cfg : Config) (t : Leadership) (o : Option ℕ) : Type 0 where
  pub up : t.shutting_down ≡ false
  pub bound :
      cfg.leader_elect ≡ true
      → (h : ℕ) × (o ≡ some h)
        × (t.term ≡ some h)
        × (among h t.cancelled ≡ false)
        × (t.leader ≡ true)
        × (t.k8s_ok ≡ true)

serving_parts :
    (t : Leadership)
    → serving t ≡ true
    → (t.leader ≡ true) × (t.k8s_ok ≡ true) × (t.shutting_down ≡ false)
unfolding serving
serving_parts t e = (ground arith, ground arith, ground arith)

admit_term_lem :
    (t : Leadership) (u o : Option ℕ)
    → admit_term t u ≡ admitted o
    → (h : ℕ) × (o ≡ some h) × (u ≡ some h) × (among h t.cancelled ≡ false)
unfolding admit_term
admit_term_lem t none o e = cc
admit_term_lem t (some h) o e = elim (Bool-cases (among h t.cancelled)) [
  | inl p ↦ cc (rw p at e)
  | inr p ↦ (let f = rw p at e in (h, ground arith, refl, p))
]

elected :
    (t : Leadership) (o : Option ℕ) (b : Bool)
    → serving t ≡ b
    → (if b then admit_term t t.term else turned_away) ≡ admitted o
    → (t.shutting_down ≡ false)
      × (h : ℕ) × (o ≡ some h)
      × (t.term ≡ some h)
      × (among h t.cancelled ≡ false)
      × (t.leader ≡ true)
      × (t.k8s_ok ≡ true)
elected t o false p e = cc
elected t o true p e =
    let (leads, reaches, up) = serving_parts t p in
    let (h, a, b, c) = admit_term_lem t t.term o e in (up, h, a, b, c, leads, reaches)

unelected :
    (o : Option ℕ) (b : Bool) → (if b then turned_away else admitted none) ≡ admitted o → b ≡ false
unelected o true e = cc
unelected o false e = refl

admit-IsServed :
    (cfg : Config) (t : Leadership) (o : Option ℕ) → admit cfg t ≡ admitted o → IsServed cfg t o
unfolding admit admit_term serving
admit-IsServed cfg t o e = go cfg.leader_elect refl e
  where
    go :
        (b : Bool)
        → cfg.leader_elect ≡ b
        → (if b
            then (if serving t then admit_term t t.term else turned_away)
            else if t.shutting_down
            then turned_away
            else admitted none)
          ≡ admitted o
        → IsServed cfg t o
    go true p e =
        let (up, h, a, b, c, d, f) = elected t o (serving t) refl e in
        record { up = up; bound = λ q. (h, a, b, c, d, f) }
    go false p e = record { up = unelected o t.shutting_down e; bound = λ q. cc }

down_again : (a b : Bool) → (a ≡ true → b ≡ true) → b ≡ false → a ≡ false
down_again a b f e = ground arith

-- An RPC that is admitted in some state of a run was admitted before any shutdown or demotion; with an
-- election the replica leads and reaches Kubernetes, and the handler is bound to the current term,
-- whose context has not been done in this state or any earlier one. So after a shutdown, a demotion
-- or the end of a term's context, nothing is ever admitted to it again.
pub admit-Run :
    (cfg : Config) {s t : Leadership} {n : ℕ} (o : Option ℕ)
    → Run s t n
    → admit cfg t ≡ admitted o
    → (s.shutting_down ≡ false)
      × (cfg.leader_elect ≡ true
          → (h : ℕ) × (o ≡ some h)
            × (t.term ≡ some h)
            × (among h s.cancelled ≡ false)
            × (t.leader ≡ true)
            × (t.k8s_ok ≡ true))
admit-Run cfg {s} {t} o r e =
    let later = Run-IsLater r in
    let served = admit-IsServed cfg t o e in
    (
      down_again s.shutting_down t.shutting_down later.stays_down served.up,
      λ q.
          (let (h, a, b, c, d, f) = served.bound q in
            (
              h,
              a,
              b,
              down_again (among h s.cancelled) (among h t.cancelled) (later.stays_cancelled h) c,
              d,
              f,
            )),
    )
