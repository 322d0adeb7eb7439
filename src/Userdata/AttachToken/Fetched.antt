-- ===== src/Userdata/AttachToken/Fetched.antt =====
-- Which token FetchAttachToken returns.
use ens_provider.Prelude.{
  ◌≡◌, refl, ap, sym, ◌∙◌, inl, inr, true, false, Bool, ◌&&◌, not, none, some, [], ◌∷◌, ◌++◌, Str,
  All, has_prefix, trim_prefix, append-trim_prefix, has_prefix-append, trim_prefix-append, is_empty,
  arith, Bool-cases, Option-cases, if◌then◌else◌,
}
use ens_provider.Inventory.{ok}
use ens_provider.Userdata.AttachToken.{
  token_flag, is_space, take_token, token_at, find_token, AttachReply, script_body, failed,
  fetch_attach_token,
}

-- The text is empty, or begins with white space.
abbrev pub EndsToken : Str → Type 0
EndsToken [] = Unit {0}
EndsToken (c ∷ s) = is_space c ≡ true

-- A token of a text: what stands after the flag, up to white space or to the end.
pub record IsTokenOf (body token : Str) : Type 0 where
  pub before : Str
  pub after : Str
  pub place : body ≡ before ++ (token_flag ++ (token ++ after))
  pub ends : EndsToken after
  pub no_space : All (λ c. is_space c ≡ false) token
  pub not_empty : is_empty token ≡ false

take_token-split :
    (s : Str)
    → (after : Str) × (s ≡ take_token s ++ after)
      × EndsToken after
      × All (λ c. is_space c ≡ false) (take_token s)
unfolding take_token
take_token-split [] = ([], refl, tt, tt)
take_token-split (c ∷ s) = elim (Bool-cases (is_space c)) [
  | inl p ↦ rw p (c ∷ s, refl, p, tt)
  | inr p ↦
      (let (after, place, ends, clean) = take_token-split s in
        rw p (after, ap (λ t. c ∷ t) place, ends, (p, clean)))
]

both : (a b : Bool) → (a && not b) ≡ true → (a ≡ true) × (b ≡ false)
both a b h = (ground arith, ground arith)

token_at-IsTokenOf : (s token : Str) → token_at s ≡ some token → IsTokenOf s token
unfolding token_at
token_at-IsTokenOf s token h =
    let t = take_token (trim_prefix s token_flag) in
    elim (Bool-cases (has_prefix s token_flag && not (is_empty t))) [
      | inr p ↦ cc (rw (p, token_at) at h)
      | inl p ↦
          (let same : t ≡ token = ground (arith, rw (p, token_at) at h) in
            let (prefixed, full) = both (has_prefix s token_flag) (is_empty t) p in
            let (after, place, ends, clean) = take_token-split (trim_prefix s token_flag) in
            let found : IsTokenOf s t = record {
              before = [];
              after = after;
              place =
                  sym (append-trim_prefix s token_flag prefixed) ∙ ap (λ u. token_flag ++ u) place;
              ends = ends;
              no_space = clean;
              not_empty = full;
            } in
            rw (sym same) found)
    ]

find_token-IsTokenOf : (s token : Str) → find_token s ≡ some token → IsTokenOf s token
unfolding find_token
find_token-IsTokenOf [] token h = cc
find_token-IsTokenOf (c ∷ s) token h = elim (Option-cases (token_at (c ∷ s))) [
  | inr (t, p) ↦ token_at-IsTokenOf (c ∷ s) token (p ∙ (rw (p, find_token) at h))
  | inl p ↦
      (let t = find_token-IsTokenOf s token (rw (p, find_token) at h) in
        record {
          before = c ∷ t.before;
          after = t.after;
          place = ap (λ u. c ∷ u) t.place;
          ends = t.ends;
          no_space = t.no_space;
          not_empty = t.not_empty;
        })
]

take_token-full :
    (t after : Str)
    → All (λ c. is_space c ≡ false) t
    → is_empty t ≡ false
    → is_empty (take_token (t ++ after)) ≡ false
unfolding take_token is_empty
take_token-full [] after h e = cc
take_token-full (c ∷ t) after h e = rw h.0 refl

flagged :
    (flag x : Str)
    → is_empty (take_token x) ≡ false
    → (if has_prefix (flag ++ x) flag && not (is_empty (take_token (trim_prefix (flag ++ x) flag)))
        then some (take_token (trim_prefix (flag ++ x) flag))
        else none)
      ≡ some (take_token x)
flagged flag x full = rw (has_prefix-append flag x, trim_prefix-append flag x, full) refl

find_token-at : (s u : Str) → token_at s ≡ some u → find_token s ≡ some u
unfolding find_token token_at has_prefix
find_token-at [] u h = cc
find_token-at (c ∷ s) u h = rw (h, find_token) refl

find_token-found :
    (before t after : Str)
    → All (λ c. is_space c ≡ false) t
    → is_empty t ≡ false
    → (u : Str) × (find_token (before ++ (token_flag ++ (t ++ after))) ≡ some u)
unfolding find_token token_at
find_token-found [] t after h e = (
  take_token (t ++ after),
  find_token-at (token_flag ++ (t ++ after)) (take_token (t ++ after))
      (flagged token_flag (t ++ after) (take_token-full t after h e)),
)
find_token-found (c ∷ before) t after h e =
    let s = before ++ (token_flag ++ (t ++ after)) in
    elim (Option-cases (token_at (c ∷ s))) [
      | inr (u, p) ↦ (u, rw (p, find_token) refl)
      | inl p ↦ (let (u, q) = find_token-found before t after h e in (u, rw (p, find_token) q))
    ]

-- FetchAttachToken returns a token exactly where its request is answered with a script that holds
-- one; what it returns then stands in that script right after the flag, is not empty, holds no white
-- space, and ends where the script ends or goes on with white space.
pub fetch_attach_token-exact :
    (reply : AttachReply)
    → ((token : Str)
        → fetch_attach_token reply ≡ ok token
        → (body : Str) × (reply ≡ script_body body) × IsTokenOf body token)
      × ((body t : Str)
          → reply ≡ script_body body
          → IsTokenOf body t
          → (token : Str) × (fetch_attach_token reply ≡ ok token))
unfolding fetch_attach_token
fetch_attach_token-exact (failed e) = (λ token h. cc, λ body t h i. cc)
fetch_attach_token-exact (script_body body) = (
  λ token h. elim (Option-cases (find_token body)) [
    | inl p ↦ cc (rw (p, fetch_attach_token) at h)
    | inr (t, p) ↦
        (let same : t ≡ token = ground (arith, rw (p, fetch_attach_token) at h) in
          (body, refl, find_token-IsTokenOf body token (p ∙ ap some same)))
  ],
  λ body' t h i.
      (let same : body ≡ i.before ++ (token_flag ++ (t ++ i.after)) = ground (arith, h, i.place) in
        let (u, p) = find_token-found i.before t i.after i.no_space i.not_empty in
        (u, rw (same, p) refl)),
)
