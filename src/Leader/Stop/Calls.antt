-- ===== src/Leader/Stop/Calls.antt =====
-- Lists of lifecycle calls: membership, and the parts of a shutdown that do not release the lease.
use ens_provider.Prelude.{
  ℕ, ◌≡◌, refl, ◌⊎◌, inl, inr, Bool, true, false, ◌&&◌, not, Option, none, some, List, [], ◌∷◌,
  ◌++◌, In, ◌∙◌, sym, arith, Bool-cases, ℤ,
}
use ens_provider.Config.{Config}
use ens_provider.Leader.Stop.{
  LifecycleCall, cancelled_election, joined_callback, cleared_lease, when, Outcomes, was_leader,
  term_calls, remove_label_best_effort, before_drain, after_drain,
}

pub In-append_left : (xs ys : List LifecycleCall) (c : LifecycleCall) → In c xs → In c (xs ++ ys)
In-append_left [] ys c h = absurd h
In-append_left (x ∷ xs) ys c (inl e) = inl e
In-append_left (x ∷ xs) ys c (inr h) = inr (In-append_left xs ys c h)

pub In-append_right : (xs ys : List LifecycleCall) (c : LifecycleCall) → In c ys → In c (xs ++ ys)
In-append_right [] ys c h = h
In-append_right (x ∷ xs) ys c h = inr (In-append_right xs ys c h)

pub In-append_cases :
    (xs ys : List LifecycleCall) (c : LifecycleCall) → In c (xs ++ ys) → In c xs ⊎ In c ys
In-append_cases [] ys c h = inr h
In-append_cases (x ∷ xs) ys c (inl e) = inl (inl e)
In-append_cases (x ∷ xs) ys c (inr h) = elim (In-append_cases xs ys c h) [
  | inl a ↦ inl (inr a)
  | inr b ↦ inr b
]

-- Is the call the release of the lease?
abbrev pub is_release : LifecycleCall → Bool
is_release cleared_lease = true
is_release _ = false

abbrev pub none_release : List LifecycleCall → Bool
none_release [] = true
none_release (c ∷ cs) = not (is_release c) && none_release cs

pub none_release-append :
    (xs ys : List LifecycleCall) → none_release (xs ++ ys) ≡ (none_release xs && none_release ys)
none_release-append [] ys = refl
none_release-append (x ∷ xs) ys = ground (arith, none_release-append xs ys)

pub none_release-when :
    (b : Bool) (c : LifecycleCall) → is_release c ≡ false → none_release (when b c) ≡ true
none_release-when true c e = ground arith
none_release-when false c e = refl

pub none_release-label :
    (cfg : Config) (limit : ℤ) → none_release (remove_label_best_effort cfg limit) ≡ true
unfolding remove_label_best_effort
none_release-label cfg limit = elim (Bool-cases (not cfg.leader_elect)) [
  | inl p ↦ rw p refl
  | inr p ↦ rw p (ground arith)
]

pub none_release-term_calls :
    (cfg : Config) (o : Outcomes) (term : Option ℕ) → none_release (term_calls cfg o term) ≡ true
none_release-term_calls cfg o none = refl
none_release-term_calls cfg o (some t) =
    none_release-append (remove_label_best_effort cfg o.remaining) _
    ∙ rw (none_release-label cfg o.remaining) refl

pub none_release-before_drain :
    (cfg : Config) (o : Outcomes) (term : Option ℕ) → none_release (before_drain cfg o term) ≡ true
unfolding before_drain
none_release-before_drain cfg o term =
    none_release-append (when (not (was_leader cfg o) && o.has_cancel) cancelled_election)
      (term_calls cfg o term)
    ∙ rw
        (
          none_release-when (not (was_leader cfg o) && o.has_cancel) cancelled_election refl,
          none_release-term_calls cfg o term,
        )
        refl

pub none_release-after_drain :
    (cfg : Config) (o : Outcomes) → none_release (after_drain cfg o) ≡ true
unfolding after_drain
none_release-after_drain cfg o =
    none_release-append (when o.has_cancel cancelled_election) _
    ∙ rw
        (
          none_release-when o.has_cancel cancelled_election refl,
          none_release-when (was_leader cfg o) (joined_callback o.callback_done) refl,
        )
        refl

pub none_release-In : (xs : List LifecycleCall) → none_release xs ≡ true → ¬ (In cleared_lease xs)
none_release-In [] e h = h
none_release-In (x ∷ xs) e (inl p) = cc (rw (sym p) at e)
none_release-In (x ∷ xs) e (inr h) = none_release-In xs (ground arith) h
