-- ===== src/Errors/Scrub.antt =====
-- Query strings in what `sanitizeErr` returns.
use ens_provider.Prelude.{
  ℕ, ◌≡◌, ◌≢◌, refl, ap, sym, ◌∙◌, Bool, true, false, [], ◌∷◌, ◌++◌, Str, All, arith,
}
use ens_provider.Errors.{is_query_byte, scrub, sanitize_err, redacted}

scrub_skips :
    (secret post : Str)
    → All (λ c. is_query_byte c ≡ true) secret
    → scrub true (secret ++ post) ≡ scrub true post
unfolding scrub
scrub_skips [] post h = refl
scrub_skips (c ∷ s) post h = ground (arith, scrub_skips s post)

scrub_before :
    (b : Bool) (pre rest₁ rest₂ : Str)
    → ((b : Bool) → scrub b (b'?' ∷ rest₁) ≡ scrub b (b'?' ∷ rest₂))
    → scrub b (pre ++ b'?' ∷ rest₁) ≡ scrub b (pre ++ b'?' ∷ rest₂)
unfolding scrub
scrub_before b [] rest₁ rest₂ h = h b
scrub_before true (c ∷ pre) rest₁ rest₂ h =
    ground (arith, scrub_before true pre rest₁ rest₂ h, scrub_before false pre rest₁ rest₂ h)
scrub_before false (c ∷ pre) rest₁ rest₂ h =
    ground (arith, scrub_before true pre rest₁ rest₂ h, scrub_before false pre rest₁ rest₂ h)

scrub_query :
    (secret post : Str) (b : Bool)
    → All (λ c. is_query_byte c ≡ true) secret
    → scrub b (b'?' ∷ secret ++ post) ≡ scrub b (b'?' ∷ post)
unfolding scrub
scrub_query secret post true h = scrub_skips secret post h
scrub_query secret post false h = ap (λ t. redacted ++ t) (scrub_skips secret post h)

-- A byte that is neither a double quote nor white space.
abbrev pub IsUrlByte : ℕ → Type 0
IsUrlByte c = (c ≢ b'"') × (c ≢ 32) × (c ≢ 9) × (c ≢ 10) × (c ≢ 12) × (c ≢ 13)

url_byte_lem : (c : ℕ) → IsUrlByte c → is_query_byte c ≡ true
unfolding is_query_byte
url_byte_lem c h = ground arith

All-query : (s : Str) → All IsUrlByte s → All (λ c. is_query_byte c ≡ true) s
All-query [] h = tt
All-query (c ∷ s) h = (url_byte_lem c h.0, All-query s h.1)

-- What `sanitizeErr` returns does not depend on the bytes of a query: whatever two texts without
-- quotes and white space follow a question mark, the results are the same.
pub sanitize_err-independent :
    (pre secret₁ secret₂ post : Str)
    → All IsUrlByte secret₁
    → All IsUrlByte secret₂
    → sanitize_err (pre ++ b'?' ∷ (secret₁ ++ post))
      ≡ sanitize_err (pre ++ b'?' ∷ (secret₂ ++ post))
unfolding sanitize_err
sanitize_err-independent pre secret₁ secret₂ post h₁ h₂ =
    scrub_before false pre (secret₁ ++ post) (secret₂ ++ post) (λ b.
      scrub_query secret₁ post b (All-query secret₁ h₁)
      ∙ sym (scrub_query secret₂ post b (All-query secret₂ h₂)))
