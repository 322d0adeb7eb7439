-- ===== src/Leader/Election/Starts.antt =====
-- That the election of a loaded configuration starts.
use ens_provider.Prelude.{
  ◌≡◌, refl, inl, inr, Bool, true, false, ◌||◌, Option, none, List, Str, is_empty, ℤ, pos, ◌<ℤ◌,
  leb_ℤ, arith, Bool-cases,
}
use ens_provider.Config.{Config, Group}
use ens_provider.Config.Validate.{Validators}
use ens_provider.Config.Load.{loaded, election_error}
use ens_provider.Config.Checked.{load_config-checked}
use ens_provider.Config.Environment.{value, read_timings, settings_of, load_environment}
use ens_provider.Config.Environment.Positive.{
  >>=-value, value_inj, ArePositive, load_environment-positive,
}
use ens_provider.Leader.Election.{
  ElectionConfig, lease_name, election_config, disabled, runs, start_election,
}

-- What client-go checks of a configuration whose callbacks are set.
pub record IsAcceptable (exceeds_1_2 : ℤ → ℤ → Bool) (e : ElectionConfig) : Type 0 where
  pub named : is_empty e.identity ≡ false
  pub renewed_in_time : e.renew_deadline <ℤ e.lease_duration
  pub retried_in_time : exceeds_1_2 e.renew_deadline e.retry_period ≡ true
  pub lease_positive : pos 0 <ℤ e.lease_duration
  pub renew_positive : pos 0 <ℤ e.renew_deadline
  pub retry_positive : pos 0 <ℤ e.retry_period

longer : (a b : ℤ) → leb_ℤ a b ≡ false → b <ℤ a
longer a b h = ground arith

-- The settings of an enabled election that passed the checks.
pub election_config-IsAcceptable :
    (exceeds_1_2 : ℤ → ℤ → Bool) (d : Config)
    → election_error exceeds_1_2 d ≡ none
    → d.leader_elect ≡ true
    → ArePositive d
    → IsAcceptable exceeds_1_2 (election_config d)
unfolding election_error election_config
election_config-IsAcceptable exceeds_1_2 d h on p =
    let h₀ = rw (on, election_error) at h in
    elim (Bool-cases (is_empty d.pod_name || is_empty d.pod_namespace)) [
      | inl a ↦ cc (rw a at h₀)
      | inr a ↦
          (let h₁ = rw a at h₀ in
            elim (Bool-cases (leb_ℤ d.leader_lease_duration d.leader_renew_deadline)) [
              | inl b ↦ cc (rw b at h₁)
              | inr b ↦
                  (let h₂ = rw b at h₁ in
                    elim (Bool-cases (exceeds_1_2 d.leader_renew_deadline d.leader_retry_period)) [
                      | inr c ↦ cc (rw c at h₂)
                      | inl c ↦ record {
                        named = ground (arith, a);
                        renewed_in_time = longer d.leader_lease_duration d.leader_renew_deadline b;
                        retried_in_time = c;
                        lease_positive = p.leader_lease_duration;
                        renew_positive = p.leader_renew_deadline;
                        retry_positive = p.leader_retry_period;
                      }
                    ])
            ])
    ]

-- Where the environment loads, and client-go accepts every configuration that passes its documented
-- checks, StartElection does not fail: with LEADER_ELECT it runs an election for this pod's name on
-- the lease of the program, which is not released on a cancel; without it there is none.
pub start_election-starts :
    (v : Validators) (exceeds_1_2 : ℤ → ℤ → Bool) (parse_duration : Str → Option ℤ)
    (getenv : Str → Str) (gs : List Group) (d : Config) (new_elector : ElectionConfig → Option Str)
    → load_environment v exceeds_1_2 parse_duration getenv gs ≡ value (loaded d)
    → ((e : ElectionConfig) → IsAcceptable exceeds_1_2 e → new_elector e ≡ none)
    → (d.leader_elect ≡ true
        → (e : ElectionConfig) × (start_election new_elector d ≡ runs e)
          × (e.identity ≡ d.pod_name)
          × (e.lease ≡ lease_name)
          × (e.release_on_cancel ≡ false))
      × (d.leader_elect ≡ false → start_election new_elector d ≡ disabled)
unfolding start_election election_config load_environment
start_election-starts v exceeds_1_2 parse_duration getenv gs d new_elector h accepts =
    let p = load_environment-positive v exceeds_1_2 parse_duration getenv gs d h in
    let (t, _, h₁) = >>=-value (read_timings parse_duration getenv) _ (loaded d) h in
    let checked =
      (load_config-checked v exceeds_1_2 parse_duration (settings_of getenv t) d _ gs
        (value_inj h₁)).1 in
    (
      λ on. (
        election_config d,
        rw (on, start_election)
            (rw
              (
                accepts (election_config d)
                    (election_config-IsAcceptable exceeds_1_2 d checked on p),
                start_election,
              )
              refl),
        refl,
        refl,
        refl,
      ),
      λ off. rw (off, start_election) refl,
    )
