-- ===== src/Config/Environment/Positive.antt =====
-- The durations that a process starts with.
use ens_provider.Prelude.{
  ◌≡◌, refl, sym, inl, inr, Bool, Option, none, some, List, Str, codes, is_empty, ℤ, pos, ◌<ℤ◌,
  arith, Bool-cases,
}
use ens_provider.Config.{Config, Group}
use ens_provider.Config.Validate.{Validators}
use ens_provider.Config.Load.{loaded}
use ens_provider.Config.Checked.{load_config-keeps}
use ens_provider.Config.Environment.{
  Reading, value, fatal, ◌>>=◌, trim_space, or_fatal, if_positive, env_int, env_duration, Timings,
  read_timings, settings_of, load_environment,
}

pub >>=-value :
    {A B : Type 0} (m : Reading A) (f : A → Reading B) (b : B)
    → (m >>= f) ≡ value b
    → (a : A) × (m ≡ value a) × (f a ≡ value b)
>>=-value (value a) f b h = (a, refl, h)
>>=-value (fatal key) f b h = cc

pub value_inj : {A : Type 0} {a b : A} → value a ≡ value b → a ≡ b
value_inj h = ground (arith, h)

if_positive-value :
    (key : Str) (o : Option ℤ) (d : ℤ) → or_fatal key (if_positive o) ≡ value d → pos 0 <ℤ d
if_positive-value key none d h = cc
if_positive-value key (some e) d h = ground arith

env_duration-positive :
    (parse_duration : Str → Option ℤ) (getenv : Str → Str) (key : Str) (def d : ℤ)
    → pos 0 <ℤ def
    → env_duration parse_duration getenv key def ≡ value d
    → pos 0 <ℤ d
unfolding env_duration
env_duration-positive parse_duration getenv key def d p h =
    elim (Bool-cases (is_empty (getenv key))) [
      | inl e ↦ (let same = value_inj (rw (e, env_duration) at h) in rw (sym same) p)
      | inr e ↦
          if_positive-value key (parse_duration (trim_space (getenv key))) d
            (rw (e, env_duration) at h)
    ]

-- Every duration, and with it the interval of the readiness ticker and the timings of the election.
pub record ArePositive (c : Config) : Type 0 where
  pub join_timeout : pos 0 <ℤ c.join_timeout
  pub node_cleanup_grace : pos 0 <ℤ c.node_cleanup_grace
  pub readiness_check_interval : pos 0 <ℤ c.readiness_check_interval
  pub readiness_check_timeout : pos 0 <ℤ c.readiness_check_timeout
  pub leader_lease_duration : pos 0 <ℤ c.leader_lease_duration
  pub leader_renew_deadline : pos 0 <ℤ c.leader_renew_deadline
  pub leader_retry_period : pos 0 <ℤ c.leader_retry_period

read_timings-positive :
    (parse_duration : Str → Option ℤ) (getenv : Str → Str) (t : Timings)
    → read_timings parse_duration getenv ≡ value t
    → ArePositive (settings_of getenv t)
unfolding read_timings settings_of
read_timings-positive parse_duration getenv t h =
    let (_, _, h₁) = >>=-value (env_int getenv (codes "DESCRIBE_CACHE_TTL") (pos 10)) _ t h in
    let (_, _, h₂) =
      >>=-value (env_int getenv (codes "PROVIDERID_RECONCILE_SECONDS") (pos 15)) _ t h₁ in
    let get = env_duration parse_duration getenv in
    let is_pos = env_duration-positive parse_duration getenv in
    let (a, p₁, h₃) = >>=-value (get (codes "JOIN_TIMEOUT") (pos 1_800_000_000_000)) _ t h₂ in
    let (b, p₂, h₄) = >>=-value (get (codes "NODE_CLEANUP_GRACE") (pos 300_000_000_000)) _ t h₃ in
    let (c, p₃, h₅) =
      >>=-value (get (codes "READINESS_CHECK_INTERVAL") (pos 10_000_000_000)) _ t h₄ in
    let (d, p₄, h₆) =
      >>=-value (get (codes "READINESS_CHECK_TIMEOUT") (pos 5_000_000_000)) _ t h₅ in
    let (e, p₅, h₇) = >>=-value (get (codes "LEADER_LEASE_DURATION") (pos 15_000_000_000)) _ t h₆ in
    let (f, p₆, h₈) = >>=-value (get (codes "LEADER_RENEW_DEADLINE") (pos 10_000_000_000)) _ t h₇ in
    let (g, p₇, h₉) = >>=-value (get (codes "LEADER_RETRY_PERIOD") (pos 2_000_000_000)) _ t h₈ in
    let same = sym (value_inj h₉) in
    record {
      join_timeout = rw same (is_pos _ _ a (omega arith) p₁);
      node_cleanup_grace = rw same (is_pos _ _ b (omega arith) p₂);
      readiness_check_interval = rw same (is_pos _ _ c (omega arith) p₃);
      readiness_check_timeout = rw same (is_pos _ _ d (omega arith) p₄);
      leader_lease_duration = rw same (is_pos _ _ e (omega arith) p₅);
      leader_renew_deadline = rw same (is_pos _ _ f (omega arith) p₆);
      leader_retry_period = rw same (is_pos _ _ g (omega arith) p₇);
    }

-- What holds of the settings, whatever the groups, holds of a configuration that is loaded from an
-- environment.
pub load_environment-keeps :
    (P : Config → Type 0) (v : Validators) (exceeds_1_2 : ℤ → ℤ → Bool)
    (parse_duration : Str → Option ℤ) (getenv : Str → Str) (gs : List Group) (d : Config)
    → load_environment v exceeds_1_2 parse_duration getenv gs ≡ value (loaded d)
    → ((t : Timings)
        → read_timings parse_duration getenv ≡ value t
        → (ttl : ℤ) (ks : List Group)
        → P (record (settings_of getenv t) { join_token_ttl = ttl; groups = ks }))
    → P d
unfolding load_environment
load_environment-keeps P v exceeds_1_2 parse_duration getenv gs d h p =
    let (t, read, h₁) = >>=-value (read_timings parse_duration getenv) _ (loaded d) h in
    load_config-keeps P v exceeds_1_2 parse_duration (settings_of getenv t) d
      (trim_space (getenv (codes "JOIN_TOKEN_TTL"))) gs (value_inj h₁) (p t read)

-- The groups and the time to live are no durations of these.
kept :
    (getenv : Str → Str) (t : Timings) (ttl : ℤ) (ks : List Group)
    → ArePositive (settings_of getenv t)
    → ArePositive (record (settings_of getenv t) { join_token_ttl = ttl; groups = ks })
kept getenv t ttl ks h = record {
  join_timeout = h.join_timeout;
  node_cleanup_grace = h.node_cleanup_grace;
  readiness_check_interval = h.readiness_check_interval;
  readiness_check_timeout = h.readiness_check_timeout;
  leader_lease_duration = h.leader_lease_duration;
  leader_renew_deadline = h.leader_renew_deadline;
  leader_retry_period = h.leader_retry_period;
}

pub load_environment-positive :
    (v : Validators) (exceeds_1_2 : ℤ → ℤ → Bool) (parse_duration : Str → Option ℤ)
    (getenv : Str → Str) (gs : List Group) (d : Config)
    → load_environment v exceeds_1_2 parse_duration getenv gs ≡ value (loaded d)
    → ArePositive d
load_environment-positive v exceeds_1_2 parse_duration getenv gs d h =
    load_environment-keeps ArePositive v exceeds_1_2 parse_duration getenv gs d h
      (λ t read ttl ks. kept getenv t ttl ks (read_timings-positive parse_duration getenv t read))
