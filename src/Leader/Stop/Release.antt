-- ===== src/Leader/Stop/Release.antt =====
-- When Shutdown clears the lease, and in what order it does its work.
use ens_provider.Prelude.{
  ℕ, ◌≡◌, refl, ◌↔◌, inl, inr, Bool, true, false, ◌&&◌, ◌||◌, not, Option, none, some, List, [],
  ◌∷◌, ◌++◌, In, ◌∙◌, sym, append_assoc, arith, Bool-cases, if◌then◌else◌, leb_ℤ, ltb_ℤ, ℤ, pos,
}
use ens_provider.Config.{Config}
use ens_provider.Leader.Stop.{
  LifecycleCall, cancelled_election, removed_label, stopped_grpc, cleared_lease, when, Outcomes,
  three_seconds, was_leader, term_calls, term_quiesced, is_quiesced, remove_label_best_effort,
  before_drain, after_drain, shutdown_calls,
}
use ens_provider.Leader.Stop.Calls.{
  In-append_cases, In-append_right, none_release, none_release-In, none_release-after_drain,
  none_release-append, none_release-before_drain,
}

-- Everything is proven quiet: the wait for the term, the gRPC drain, and the joins of the election and
-- of the acquisition callback all came back in time.
pub record IsQuiet (o : Outcomes) (term : Option ℕ) : Type 0 where
  pub term_quiet : (t : ℕ) → term ≡ some t → o.term_done ≡ true
  pub drained : o.grpc_drained ≡ true
  pub joined : o.run_done ≡ true
  pub returned : o.callback_done ≡ true

-- All of Shutdown before the lease.
abbrev before_release : Config → Outcomes → Option ℕ → List LifecycleCall
before_release cfg o term =
    before_drain cfg o term ++ (stopped_grpc o.grpc_drained ∷ after_drain cfg o)

-- The condition of the release.
abbrev may_release : Config → Outcomes → Option ℕ → Bool
may_release cfg o term = was_leader cfg o && is_quiesced cfg o term && o.has_lease

shutdown_calls-before_release :
    (cfg : Config) (o : Outcomes) (term : Option ℕ)
    → shutdown_calls cfg o term
      ≡ before_release cfg o term ++ when (may_release cfg o term) cleared_lease
unfolding shutdown_calls
shutdown_calls-before_release cfg o term =
    sym (append_assoc (before_drain cfg o term) (stopped_grpc o.grpc_drained ∷ after_drain cfg o) _)

none_release-before_release :
    (cfg : Config) (o : Outcomes) (term : Option ℕ)
    → none_release (before_release cfg o term) ≡ true
none_release-before_release cfg o term =
    none_release-append (before_drain cfg o term) (stopped_grpc o.grpc_drained ∷ after_drain cfg o)
    ∙ rw (none_release-before_drain cfg o term, none_release-after_drain cfg o) refl

In-when : (b : Bool) (c d : LifecycleCall) → In c (when b d) → b ≡ true
In-when true c d h = refl
In-when false c d h = absurd h

release_parts :
    (w t g r c l : Bool)
    → (w && (t && g && r && (not w || c)) && l) ≡ true
    → (w ≡ true) × (t ≡ true) × (g ≡ true) × (r ≡ true) × (c ≡ true) × (l ≡ true)
release_parts w t g r c l e =
    (ground arith, ground arith, ground arith, ground arith, ground arith, ground arith)

quiesced_term :
    (o : Outcomes) (term : Option ℕ)
    → term_quiesced o term ≡ true
    → (t : ℕ) → term ≡ some t
    → o.term_done ≡ true
quiesced_term o none e t p = cc
quiesced_term o (some u) e t p = e

may_release_lem :
    (cfg : Config) (o : Outcomes) (term : Option ℕ)
    → may_release cfg o term ≡ true
    → (was_leader cfg o ≡ true) × IsQuiet o term × (o.has_lease ≡ true)
may_release_lem cfg o term e =
    let (w, t, g, r, c, l) =
      release_parts (was_leader cfg o) (term_quiesced o term) o.grpc_drained o.run_done
        o.callback_done o.has_lease e in
    (w, record { term_quiet = quiesced_term o term t; drained = g; joined = r; returned = c }, l)

may_release_intro :
    (cfg : Config) (o : Outcomes) (term : Option ℕ)
    → was_leader cfg o ≡ true
    → IsQuiet o term
    → o.has_lease ≡ true
    → may_release cfg o term ≡ true
may_release_intro cfg o none a q b = rw (a, q.drained, q.joined, q.returned, b) refl
may_release_intro cfg o (some t) a q b =
    rw (a, q.term_quiet t refl, q.drained, q.joined, q.returned, b) refl

released :
    (cfg : Config) (o : Outcomes) (term : Option ℕ)
    → In cleared_lease (shutdown_calls cfg o term)
    → may_release cfg o term ≡ true
released cfg o term h =
    let h' = rw (shutdown_calls-before_release cfg o term) at h in
    elim (In-append_cases (before_release cfg o term) _ cleared_lease h') [
      | inl a ↦
          absurd
            (none_release-In (before_release cfg o term) (none_release-before_release cfg o term) a)
      | inr b ↦ In-when (may_release cfg o term) cleared_lease cleared_lease b
    ]

shutdown_calls_released :
    (cfg : Config) (o : Outcomes) (term : Option ℕ)
    → may_release cfg o term ≡ true
    → shutdown_calls cfg o term ≡ before_release cfg o term ++ (cleared_lease ∷ [])
shutdown_calls_released cfg o term m = shutdown_calls-before_release cfg o term ∙ rw m refl

one_label : (b : Bool) (d : ℤ) → ¬ (In cancelled_election (if b then [] else removed_label d ∷ []))
one_label true d h = h
one_label false d (inl e) = cc e
one_label false d (inr x) = x

label_keeps_election :
    (cfg : Config) (limit : ℤ) → ¬ (In cancelled_election (remove_label_best_effort cfg limit))
unfolding remove_label_best_effort
label_keeps_election cfg limit = elim (Bool-cases (not cfg.leader_elect)) [
  | inl p ↦ rw p (λ h. h)
  | inr p ↦
      (let short = if ltb_ℤ three_seconds limit then three_seconds else limit in
        rw p (one_label (leb_ℤ short (pos 0)) short))
]

term_calls_keep_election :
    (cfg : Config) (o : Outcomes) (term : Option ℕ)
    → ¬ (In cancelled_election (term_calls cfg o term))
term_calls_keep_election cfg o none h = h
term_calls_keep_election cfg o (some t) h =
    elim (In-append_cases (remove_label_best_effort cfg o.remaining) _ cancelled_election h) [
      | inl a ↦ label_keeps_election cfg o.remaining a
      | inr (inl e) ↦ cc e
      | inr (inr (inl e)) ↦ cc e
      | inr (inr (inr x)) ↦ x
    ]

leader_keeps_election :
    (cfg : Config) (o : Outcomes) (term : Option ℕ)
    → was_leader cfg o ≡ true
    → ¬ (In cancelled_election (before_drain cfg o term))
unfolding before_drain
leader_keeps_election cfg o term w h =
    elim (In-append_cases (when (not (was_leader cfg o) && o.has_cancel) cancelled_election) _
      cancelled_election h) [
        | inl a ↦
            (let e =
                In-when (not (was_leader cfg o) && o.has_cancel) cancelled_election
                  cancelled_election a in
              ground arith)
        | inr b ↦ term_calls_keep_election cfg o term b
      ]

when_first :
    (b : Bool) (c : LifecycleCall) (xs ys : List LifecycleCall)
    → b ≡ true
    → (rest : List LifecycleCall) × ((when b c ++ xs) ++ ys ≡ c ∷ rest)
when_first true c xs ys e = (xs ++ ys, refl)
when_first false c xs ys e = cc

follower_cancels_first :
    (cfg : Config) (o : Outcomes) (term : Option ℕ)
    → was_leader cfg o ≡ false
    → o.has_cancel ≡ true
    → (rest : List LifecycleCall) × (shutdown_calls cfg o term ≡ cancelled_election ∷ rest)
unfolding shutdown_calls before_drain
follower_cancels_first cfg o term w c =
    when_first (not (was_leader cfg o) && o.has_cancel) cancelled_election (term_calls cfg o term) _
      (ground arith)

-- Shutdown clears the lease exactly where the replica led by election, there is a lease, and
-- everything is proven quiet: the term, the gRPC handlers, the election and the acquisition callback.
-- The release is then the last call, and the only one. Whatever happens, the election of a leader is
-- not cancelled before the gRPC drain, and a follower cancels its election first.
pub shutdown_calls-release :
    (cfg : Config) (o : Outcomes) (term : Option ℕ)
    → (In cleared_lease (shutdown_calls cfg o term)
        ↔ ((was_leader cfg o ≡ true) × IsQuiet o term × (o.has_lease ≡ true)))
      × (In cleared_lease (shutdown_calls cfg o term)
          → (calls : List LifecycleCall) × (shutdown_calls cfg o term
              ≡ calls ++ (cleared_lease ∷ []))
            × ¬ (In cleared_lease calls))
      × (was_leader cfg o ≡ true → ¬ (In cancelled_election (before_drain cfg o term)))
      × (was_leader cfg o ≡ false
          → o.has_cancel ≡ true
          → (rest : List LifecycleCall) × (shutdown_calls cfg o term ≡ cancelled_election ∷ rest))
shutdown_calls-release cfg o term = (
  (
    λ h. may_release_lem cfg o term (released cfg o term h),
    λ (w, q, l).
        (let e = shutdown_calls_released cfg o term (may_release_intro cfg o term w q l) in
          rw e (In-append_right (before_release cfg o term) _ cleared_lease (inl refl))),
  ),
  λ h. (
    before_release cfg o term,
    shutdown_calls_released cfg o term (released cfg o term h),
    none_release-In (before_release cfg o term) (none_release-before_release cfg o term),
  ),
  leader_keeps_election cfg o term,
  follower_cancels_first cfg o term,
)
