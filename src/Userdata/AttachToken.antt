-- ===== src/Userdata/AttachToken.antt =====
-- ens.go: the request for a join token and the reading of the token in the script that answers it.
-- DescribeClusterAttachScripts is its answer: the body of the script, or an error.
pub mod Fetched
pub mod Validity
use ens_provider.Prelude.{
  ℕ, ◌+◌, ◌/◌, Bool, true, false, ◌&&◌, ◌||◌, not, Option, none, some, List, [], ◌∷◌, ◌++◌, Str,
  codes, has_prefix, trim_prefix, is_empty, ◌==◌, if◌then◌else◌, ℤ, pos, negsuc, ◌+ℤ◌, ltb_ℤ,
}
use ens_provider.Config.{Config, Group}
use ens_provider.Errors.{CallError, sanitize_err}
use ens_provider.Inventory.{Answer, ok, err}

pub record AttachScriptsRequest : Type 0 where
  pub nodepool_id : Str
  pub arch : Str
  pub expired : Option ℤ

-- time.Time.Unix: whole seconds, rounded down.
unfoldable pub unix_seconds : ℤ → ℤ
unix_seconds (pos n) = pos (n / 1000000000)
unix_seconds (negsuc n) = negsuc (n / 1000000000)

unfoldable pub build_attach_scripts_request : Config → Group → ℤ → AttachScriptsRequest
unfolding unix_seconds
build_attach_scripts_request cfg g now = record {
  nodepool_id = g.nodepool_id;
  arch = codes "amd64";
  expired =
      if ltb_ℤ (pos 0) cfg.join_token_ttl
      then some (unix_seconds (now +ℤ cfg.join_token_ttl))
      else none;
}

abbrev pub token_flag : Str
token_flag = codes "--openapi-token="

-- `\s` of package regexp.
unfoldable pub is_space : ℕ → Bool
is_space c = c == 9 || c == 10 || c == 12 || c == 13 || c == 32

-- `\S+`, as much as there is.
unfoldable pub take_token : Str → Str
unfolding is_space
take_token [] = []
take_token (c ∷ s) = if is_space c then [] else c ∷ take_token s

-- What tokenRe matches at the start of a text.
unfoldable pub token_at : Str → Option Str
unfolding take_token
token_at s =
    let token = take_token (trim_prefix s token_flag) in
    if has_prefix s token_flag && not (is_empty token) then some token else none

-- FindStringSubmatch(body)[1]: the first match.
unfoldable pub find_token : Str → Option Str
unfolding token_at
find_token [] = none
find_token (c ∷ s) =
    let later = find_token s in elim (token_at (c ∷ s)) [ some token ↦ some token | none ↦ later ]

abbrev of_match : Option Str → Answer Str
of_match none = err (codes "could not parse attach token from script")
of_match (some token) = ok token

-- FetchAttachToken, given the answer to its request.
pub data AttachReply : Type 0 where
  script_body : Str → AttachReply
  failed : CallError → AttachReply

unfoldable pub fetch_attach_token : AttachReply → Answer Str
unfolding find_token
fetch_attach_token (failed e) = err (codes "DescribeClusterAttachScripts: " ++ sanitize_err e.text)
fetch_attach_token (script_body body) = of_match (find_token body)
