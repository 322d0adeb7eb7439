-- ===== src/Userdata/AttachToken/Validity.antt =====
-- How long a join token is valid that a loaded configuration asks for.
use ens_provider.Prelude.{
  ◌≡◌, refl, ◌⊎◌, inl, inr, Bool, true, Option, none, some, List, Str, [], codes, ℤ, pos, ◌≤ℤ◌,
  ltb_ℤ, is_empty, ◌+ℤ◌, arith,
}
use ens_provider.Config.{Config, Group}
use ens_provider.Config.Validate.{Validators}
use ens_provider.Config.Load.{loaded, load_config, parse_join_token_ttl}
use ens_provider.Config.Token.{parse_join_token_ttl-within}
use ens_provider.Config.Checked.{load_config-checked}
use ens_provider.Userdata.AttachToken.{unix_seconds, build_attach_scripts_request}

-- The request asks for no expiry, or for one a lifetime from now.
abbrev pub ExpiresIn : Option ℤ → ℤ → ℤ → Type 0
ExpiresIn expired now d =
    (expired ≡ some (unix_seconds (now +ℤ d)))
    × (pos 3_600_000_000_000 ≤ℤ d)
    × (d ≤ℤ pos 86_400_000_000_000)

positive : (d : ℤ) → pos 3_600_000_000_000 ≤ℤ d → ltb_ℤ (pos 0) d ≡ true
positive d h = ground arith

empty_ttl :
    (parse_duration : Str → Option ℤ) (ttl : Str) (d : ℤ)
    → parse_join_token_ttl parse_duration ttl ≡ some d
    → ttl ≡ []
    → d ≡ pos 7_200_000_000_000
unfolding parse_join_token_ttl is_empty
empty_ttl parse_duration ttl d h e = let h' = rw e at h in ground arith

-- With a loaded configuration the request for a join token leaves the expiry to Alibaba only where
-- JOIN_TOKEN_TTL is the text "0"; otherwise it asks for the moment that lies the time to live after
-- now, in whole seconds, and that time is within 1 h and 24 h, 2 h where the variable is empty.
pub build_attach_scripts_request-validity :
    (v : Validators) (exceeds_1_2 : ℤ → ℤ → Bool) (parse_duration : Str → Option ℤ) (c d : Config)
    (ttl : Str) (gs : List Group) (g : Group) (now : ℤ)
    → load_config v exceeds_1_2 parse_duration c ttl gs ≡ loaded d
    → ((ttl ≡ codes "0") × ((build_attach_scripts_request d g now).expired ≡ none))
      ⊎ (ExpiresIn (build_attach_scripts_request d g now).expired now d.join_token_ttl
          × (ttl ≡ [] → d.join_token_ttl ≡ pos 7_200_000_000_000))
unfolding build_attach_scripts_request
build_attach_scripts_request-validity v exceeds_1_2 parse_duration c d ttl gs g now h =
    let read = (load_config-checked v exceeds_1_2 parse_duration c d ttl gs h).2 in
    elim (parse_join_token_ttl-within parse_duration ttl d.join_token_ttl read) [
      | inl (p, q) ↦ inr ((rw q refl, rw q (omega arith), rw q (omega arith)), λ e. q)
      | inr (inl (p, q)) ↦ inl (p, rw q refl)
      | inr (inr (p, q)) ↦ inr (
        (rw (positive d.join_token_ttl p) refl, p, q),
        λ e. empty_ttl parse_duration ttl d.join_token_ttl read e,
      )
    ]
