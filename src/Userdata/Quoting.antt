-- ===== src/Userdata/Quoting.antt =====
-- How a shell quotes, as far as it decides where a single-quoted text begins and ends: what the join
-- script of userdata.go is read by. Here-documents, and quotes inside a substitution that is itself
-- in double quotes, do not occur in that script.
pub mod Scripted
pub mod Spec
pub mod Loaded
pub mod Validated
pub mod Scrub
use ens_provider.Prelude.{
  ℕ, ◌≡◌, refl, sym, ap, ◌∙◌, Bool, true, false, ◌||◌, List, [], ◌∷◌, ◌++◌, Str, ◌==◌, All, arith,
  if◌then◌else◌,
}

-- Before a word, inside a word, inside single or double quotes, after a backslash outside and inside
-- double quotes, and in a comment.
pub data Mode : Type 0 where
  blank word single double escaped double_escaped comment : Mode

abbrev pub is_blank : ℕ → Bool
is_blank c = c == b' ' || c == 10 || c == b';' || c == b'&' || c == b'|' || c == b'(' || c == b')'

abbrev pub unquoted_step : ℕ → Mode
unquoted_step c =
    if c == b'\''
    then single
    else if c == b'"'
    then double
    else if c == b'\\'
    then escaped
    else if is_blank c
    then blank
    else word

unfoldable pub mode_step : Mode → ℕ → Mode
mode_step blank c = if c == b'#' then comment else unquoted_step c
mode_step word c = unquoted_step c
mode_step single c = if c == b'\'' then word else single
mode_step double c = if c == b'"' then word else if c == b'\\' then double_escaped else double
mode_step escaped c = word
mode_step double_escaped c = double
mode_step comment c = if c == 10 then blank else comment

-- The mode after a text.
unfoldable pub mode_after : Mode → Str → Mode
unfolding mode_step
mode_after m [] = m
mode_after m (c ∷ s) = mode_after (mode_step m c) s

abbrev pub cons_byte : ℕ → List Str → List Str
cons_byte c [] = []
cons_byte c (w ∷ ws) = (c ∷ w) ∷ ws

-- What a byte adds to the single-quoted texts that begin after it.
unfoldable pub words_step : Mode → ℕ → List Str → List Str
words_step single c rest = if c == b'\'' then [] ∷ rest else cons_byte c rest
words_step _ c rest = rest

abbrev pub open_word : Mode → List Str
open_word single = [] ∷ []
open_word _ = []

-- The contents of the single-quoted texts, in order. In mode `single` the first of them is what is
-- left of the open one.
unfoldable pub quoted_words : Mode → Str → List Str
unfolding mode_step words_step
quoted_words m [] = open_word m
quoted_words m (c ∷ s) = words_step m c (quoted_words (mode_step m c) s)

-- What a byte adds to the text outside of single quotes.
unfoldable pub outside_step : Mode → ℕ → Str → Str
outside_step single c rest = if c == b'\'' then c ∷ rest else rest
outside_step _ c rest = c ∷ rest

-- The text without what stands in single quotes.
unfoldable pub outside : Mode → Str → Str
unfolding mode_step outside_step
outside m [] = []
outside m (c ∷ s) = outside_step m c (outside (mode_step m c) s)

-- No single quote in a text.
abbrev pub NoQuote : Str → Type 0
NoQuote = All (λ c. (c == b'\'') ≡ false)

-- A byte that changes neither the mode inside a word nor that inside double quotes.
abbrev pub IsPlain : ℕ → Type 0
IsPlain c = (mode_step word c ≡ word) × (mode_step double c ≡ double)

abbrev pub prepend : Str → List Str → List Str
prepend s [] = []
prepend s (w ∷ ws) = (s ++ w) ∷ ws

pub mode_after-append :
    (m : Mode) (s t : Str) → mode_after m (s ++ t) ≡ mode_after (mode_after m s) t
unfolding mode_after
mode_after-append m [] t = refl
mode_after-append m (c ∷ s) t = mode_after-append (mode_step m c) s t

outside_step-append :
    (m : Mode) (c : ℕ) (s t : Str) → outside_step m c (s ++ t) ≡ outside_step m c s ++ t
unfolding outside_step
outside_step-append single c s t = ground arith
outside_step-append blank c s t = refl
outside_step-append word c s t = refl
outside_step-append double c s t = refl
outside_step-append escaped c s t = refl
outside_step-append double_escaped c s t = refl
outside_step-append comment c s t = refl

pub outside-append :
    (m : Mode) (s t : Str) → outside m (s ++ t) ≡ outside m s ++ outside (mode_after m s) t
unfolding outside mode_after
outside-append m [] t = refl
outside-append m (c ∷ s) t =
    ap (outside_step m c) (outside-append (mode_step m c) s t)
    ∙ outside_step-append m c (outside (mode_step m c) s) (outside (mode_after (mode_step m c) s) t)

prepend-nil : (ws : List Str) → ws ≡ prepend [] ws
prepend-nil [] = refl
prepend-nil (w ∷ ws) = refl

cons_byte-prepend :
    (c : ℕ) (s : Str) (ws : List Str) → cons_byte c (prepend s ws) ≡ prepend (c ∷ s) ws
cons_byte-prepend c s [] = refl
cons_byte-prepend c s (w ∷ ws) = refl

-- A text without a quote is read as part of the single-quoted text that is open.
pub quoted_words-single :
    (s t : Str) → NoQuote s → quoted_words single (s ++ t) ≡ prepend s (quoted_words single t)
unfolding quoted_words words_step mode_step
quoted_words-single [] t h = prepend-nil (quoted_words single t)
quoted_words-single (c ∷ s) t h =
    rw (h.0, quoted_words-single s t h.1) (cons_byte-prepend c s (quoted_words single t))

pub outside-single : (s t : Str) → NoQuote s → outside single (s ++ t) ≡ outside single t
unfolding outside outside_step mode_step
outside-single [] t h = refl
outside-single (c ∷ s) t h = rw h.0 (outside-single s t h.1)

-- Plain bytes leave a word, and a double-quoted text, open.
pub quoted_words-word :
    (s t : Str) → All IsPlain s → quoted_words word (s ++ t) ≡ quoted_words word t
unfolding quoted_words words_step
quoted_words-word [] t h = refl
quoted_words-word (c ∷ s) t h = rw h.0.0 (quoted_words-word s t h.1)

pub quoted_words-double :
    (s t : Str) → All IsPlain s → quoted_words double (s ++ t) ≡ quoted_words double t
unfolding quoted_words words_step
quoted_words-double [] t h = refl
quoted_words-double (c ∷ s) t h = rw h.0.1 (quoted_words-double s t h.1)

pub outside-word : (s t : Str) → All IsPlain s → outside word (s ++ t) ≡ s ++ outside word t
unfolding outside outside_step
outside-word [] t h = refl
outside-word (c ∷ s) t h = rw (h.0.0, outside-word s t h.1)

pub outside-double : (s t : Str) → All IsPlain s → outside double (s ++ t) ≡ s ++ outside double t
unfolding outside outside_step
outside-double [] t h = refl
outside-double (c ∷ s) t h = rw (h.0.1, outside-double s t h.1)
