-- ===== src/Submit/Prepare.antt =====
-- ens.go: `RunInstances` with BuildUserdata and FetchAttachToken in it.
pub mod Joins
use ens_provider.Prelude.{
  ℕ, Bool, true, false, ◌&&◌, ◌||◌, Option, none, some, List, [], ◌∷◌, ◌++◌, Str, codes, is_empty,
  ◌==◌, leb, ℤ, pos, decimal, if◌then◌else◌,
}
use ens_provider.Config.{Config, Group, Labels}
use ens_provider.Inventory.{Answer, ok, err}
use ens_provider.Order.{Context, OrderError}
use ens_provider.Submit.Query.{order_query}
use ens_provider.Submit.Run.{CloudState, Outside, op_name, run_instances}
use ens_provider.Userdata.{Built, built, no_token, refused_token, build_userdata}
use ens_provider.Userdata.AttachToken.{AttachReply, fetch_attach_token}
use ens_provider.Userdata.Json.{quote_text}

abbrev pub refusal : Str → Str
refusal nodepool =
    codes "attach token for nodepool "
    ++ (nodepool
        ++ codes
            " contains a shell-breaking character (quote/backslash) - refusing to build userdata")

unfoldable pub userdata_answer : Built → Answer Str
userdata_answer (built s) = ok s
userdata_answer (no_token e) = err e
userdata_answer (refused_token nodepool) = err (refusal nodepool)

-- The outside of a call whose token request is answered by `reply`.
abbrev pub attached : Config → Group → AttachReply → Outside → Outside
attached cfg g reply o = record o {
  userdata = userdata_answer (build_userdata (fetch_attach_token reply) cfg g);
}

-- RunInstances with BuildUserdata and FetchAttachToken in it.
unfoldable pub run_joining :
    Config
    → Context
    → Group
    → ℤ
    → AttachReply
    → Outside
    → CloudState
    → CloudState × (List Str × Option OrderError)
unfolding run_instances userdata_answer build_userdata fetch_attach_token
run_joining cfg ctx g count reply o st = run_instances cfg ctx g count (attached cfg g reply o) st
