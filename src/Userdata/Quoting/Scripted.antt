-- ===== src/Userdata/Quoting/Scripted.antt =====
-- What a shell reads in the join script, piece by piece.
use ens_provider.Prelude.{◌≡◌, refl, sym, ap, ◌∙◌, append-nil, List, [], ◌∷◌, ◌++◌, Str, codes, All}
use ens_provider.Userdata.Script.{
  preamble, oss_host, attach_path, download_and_token, join_command, node_spec_flag, join_end,
  join_script,
}
use ens_provider.Userdata.Quoting.{
  Mode, blank, word, single, double, mode_after, quoted_words, outside, NoQuote, IsPlain, prepend,
  outside-append, quoted_words-single, outside-single, quoted_words-word, quoted_words-double,
  outside-word, outside-double,
}

-- The three single-quoted texts of the script's own.
abbrev pub own_words : List Str
own_words =
    codes "s/223.5.5.5/8.8.8.8/g"
    ∷ codes "/inet /{print $2}"
    ∷ codes "{print ($1 == \"x86_64\") ? \"amd64\" : \"arm64\"}"
    ∷ []

preamble-words : (t : Str) → quoted_words blank (preamble ++ t) ≡ own_words ++ quoted_words double t
unfolding quoted_words preamble
preamble-words t = refl

oss_host-words : (t : Str) → quoted_words double (oss_host ++ t) ≡ quoted_words double t
unfolding quoted_words oss_host
oss_host-words t = refl

attach_path-words : (t : Str) → quoted_words double (attach_path ++ t) ≡ quoted_words double t
unfolding quoted_words attach_path
attach_path-words t = refl

download_and_token-words :
    (t : Str) → quoted_words double (download_and_token ++ t) ≡ quoted_words single t
unfolding quoted_words download_and_token
download_and_token-words t = refl

join_command-words : (t : Str) → quoted_words single (join_command ++ t) ≡ [] ∷ quoted_words word t
unfolding quoted_words join_command
join_command-words t = refl

node_spec_flag-words : (t : Str) → quoted_words word (node_spec_flag ++ t) ≡ quoted_words single t
unfolding quoted_words node_spec_flag
node_spec_flag-words t = refl

join_end-words : quoted_words single join_end ≡ [] ∷ []
unfolding quoted_words join_end
join_end-words = refl

-- What closes with a quote after a text without one.
single-word :
    (s t : Str) (ws : List Str)
    → NoQuote s
    → quoted_words single t ≡ [] ∷ ws
    → quoted_words single (s ++ t) ≡ s ∷ ws
single-word s t ws h e =
    quoted_words-single s t h ∙ (ap (prepend s) e ∙ ap (λ w. w ∷ ws) (append-nil s))

module _ (region oss version : Str) (plain_region : All IsPlain region)
    (plain_oss : All IsPlain oss) (plain_version : All IsPlain version) where
  -- The shell reads five single-quoted texts: three of the script's own, the token and the node spec.
  pub join_script-words :
      (token spec : Str)
      → NoQuote token
      → NoQuote spec
      → quoted_words blank (join_script region oss version token spec)
        ≡ own_words ++ token ∷ spec ∷ []
  unfolding join_script
  join_script-words token spec h k =
      let after_spec = single-word spec join_end [] k join_end-words in
      let after_token =
        join_command-words _
        ∙ ap (λ (ws : List Str). [] ∷ ws)
            (quoted_words-word region _ plain_region ∙ node_spec_flag-words _ ∙ after_spec) in
      preamble-words _
      ∙ ap (λ (ws : List Str). own_words ++ ws)
          (quoted_words-double region _ plain_region
            ∙ oss_host-words _
            ∙ quoted_words-double oss _ plain_oss
            ∙ attach_path-words _
            ∙ quoted_words-double version _ plain_version
            ∙ download_and_token-words _
            ∙ single-word token _ (spec ∷ []) h after_token)

  -- What stands outside of single quotes.
  abbrev bare : Str
  bare =
      outside blank preamble
      ++ (region
          ++ (outside double oss_host
              ++ (oss
                  ++ (outside double attach_path
                      ++ (version
                          ++ (outside double download_and_token
                              ++ (outside single join_command
                                  ++ (region
                                      ++ (outside word node_spec_flag
                                          ++ outside single join_end)))))))))

  outside-piece :
      (m n : Mode) (piece t u : Str)
      → mode_after m piece ≡ n
      → outside n t ≡ u
      → outside m (piece ++ t) ≡ outside m piece ++ u
  outside-piece m n piece t u e f =
      outside-append m piece t ∙ ap (λ s. outside m piece ++ s) (ap (λ k. outside k t) e ∙ f)

  join_script-bare :
      (token spec : Str)
      → NoQuote token
      → NoQuote spec
      → outside blank (join_script region oss version token spec) ≡ bare
  unfolding join_script mode_after preamble oss_host attach_path download_and_token join_command
      node_spec_flag
  join_script-bare token spec h k = outside-piece blank double preamble _ _ refl (
      outside-double region _ plain_region
      ∙ ap (λ s. region ++ s)
          (outside-piece double double oss_host _ _ refl (
            outside-double oss _ plain_oss
            ∙ ap (λ s. oss ++ s)
                (outside-piece double double attach_path _ _ refl (
                  outside-double version _ plain_version
                  ∙ ap (λ s. version ++ s)
                      (outside-piece double single download_and_token _ _ refl (
                        outside-single token _ h
                        ∙ outside-piece single word join_command _ _ refl (
                            outside-word region _ plain_region
                            ∙ ap (λ s. region ++ s)
                                (outside-piece word single node_spec_flag _ _ refl
                                  (outside-single spec join_end k))))))))))

  -- Outside of single quotes it reads the same text, whatever the token and the node spec.
  pub join_script-outside :
      (token spec token' spec' : Str)
      → NoQuote token
      → NoQuote spec
      → NoQuote token'
      → NoQuote spec'
      → outside blank (join_script region oss version token spec)
        ≡ outside blank (join_script region oss version token' spec')
  join_script-outside token spec token' spec' h k h' k' =
      join_script-bare token spec h k ∙ sym (join_script-bare token' spec' h' k')
