-- ===== src/Errors.antt =====
-- ens.go: how errors of the cloud's SDK are scrubbed and classified.
pub mod Scrub
use ens_provider.Prelude.{
  ℕ, ◌+◌, Bool, true, false, ◌&&◌, ◌||◌, not, Option, none, some, List, [], ◌∷◌, ◌++◌, Str, codes,
  str_eq, contains, leb, ◌==◌, map, if◌then◌else◌,
}

-- An error of a call: its text, and the code where it is a structured SDK error with one.
pub record CallError : Type 0 where
  pub text : Str
  pub code : Option Str

-- [^"\s]
unfoldable pub is_query_byte : ℕ → Bool
is_query_byte c = not ((c == 34) || (c == 32) || (c == 9) || (c == 10) || (c == 12) || (c == 13))

abbrev pub redacted : Str
redacted = codes "?REDACTED"

-- urlQueryRe.ReplaceAllString(text, "?REDACTED"); the flag says that a query is being skipped.
unfoldable pub scrub : Bool → Str → Str
unfolding is_query_byte
scrub skipping [] = []
scrub true (c ∷ s) = elim (is_query_byte c) [ true ↦ scrub true s | false ↦ c ∷ scrub false s ]
scrub false (c ∷ s) = elim (c == b'?') [
  | true ↦ redacted ++ scrub true s
  | false ↦ c ∷ scrub false s
]

unfoldable pub sanitize_err : Str → Str
unfolding scrub
sanitize_err text = scrub false text

-- strings.ToLower of an ASCII byte.
unfoldable pub to_lower : ℕ → ℕ
to_lower c = if leb b'A' c && leb c b'Z' then c + 32 else c

unfoldable pub contains_any : Str → List Str → Bool
contains_any text [] = false
contains_any text (sig ∷ rest) = contains text sig || contains_any text rest

abbrev pub ambiguous_signatures : List Str
ambiguous_signatures =
    codes "timeout"
    ∷ codes "deadline"
    ∷ codes "eof"
    ∷ codes "connection reset"
    ∷ codes "broken pipe"
    ∷ codes "canceled"
    ∷ []

unfoldable pub is_ambiguous_transport : CallError → Bool
unfolding contains_any to_lower
is_ambiguous_transport e = contains_any (map to_lower e.text) ambiguous_signatures

-- Only the structured code decides.
unfoldable pub is_instance_gone : CallError → Bool
is_instance_gone e = elim e.code [ none ↦ false | some c ↦ str_eq c (codes "InstanceIdNotFound") ]
