-- ===== src/Config/Token.antt =====
-- The bounds of JOIN_TOKEN_TTL (`parseJoinTokenTTL`).
use ens_provider.Prelude.{
  ◌≡◌, ◌⊎◌, inl, inr, ◌||◌, Option, none, some, Str, [], codes, str_eq, str_eq→eq, is_empty,
  is_empty→eq, ℤ, pos, ◌≤ℤ◌, ltb_ℤ, arith, Bool-cases, Option-cases, if◌then◌else◌,
}
use ens_provider.Config.Load.{parse_join_token_ttl}

within :
    (d e : ℤ)
    → (if ltb_ℤ d (pos 3_600_000_000_000) || ltb_ℤ (pos 86_400_000_000_000) d then none else some d)
      ≡ some e
    → (pos 3_600_000_000_000 ≤ℤ e) × (e ≤ℤ pos 86_400_000_000_000)
within d e h = (ground arith, ground arith)

-- A token's time to live that is read is never outside its bounds: it is the 2 h default, for the
-- empty text only; zero, for the text "0" only; or a parsed duration of 1 h to 24 h.
pub parse_join_token_ttl-within :
    (parse_duration : Str → Option ℤ) (text : Str) (d : ℤ)
    → parse_join_token_ttl parse_duration text ≡ some d
    → ((text ≡ []) × (d ≡ pos 7_200_000_000_000))
      ⊎ (((text ≡ codes "0") × (d ≡ pos 0))
          ⊎ ((pos 3_600_000_000_000 ≤ℤ d) × (d ≤ℤ pos 86_400_000_000_000)))
unfolding parse_join_token_ttl
parse_join_token_ttl-within parse_duration text d h = elim (Bool-cases (is_empty text)) [
  | inl p ↦ (let e = rw p at h in inl (is_empty→eq text p, ground arith))
  | inr p ↦
      (let h₁ = rw p at h in
        elim (Bool-cases (str_eq text (codes "0"))) [
          | inl q ↦ (let e = rw q at h₁ in inr (inl (str_eq→eq text (codes "0") q, ground arith)))
          | inr q ↦
              (let h₂ = rw q at h₁ in
                elim (Option-cases (parse_duration text)) [
                  | inl r ↦ cc (rw r at h₂)
                  | inr (t, r) ↦ inr (inr (within t d (rw r at h₂)))
                ])
        ])
]
