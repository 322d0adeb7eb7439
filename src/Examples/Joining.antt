-- ===== src/Examples/Joining.antt =====
-- Examples of join scripts, of their tokens, and of an environment that loads.
use ens_provider.Prelude.{
  ℕ, ◌≡◌, ◌≢◌, ◌↔◌, ◌⊎◌, ◌+◌, ◌-◌, refl, inl, inr, Bool, true, false, not, Option, none, some, List,
  [], ◌∷◌, ◌++◌, Str, codes, is_empty, str_eq, ℤ, pos, ◌<ℤ◌, ◌≤ℤ◌, ◌+ℤ◌, arith, if◌then◌else◌, In,
}
use ens_provider.Config.{Config, Group}
use ens_provider.Config.Validate.{Validators}
use ens_provider.Config.Load.{loaded, load_config, with_defaults}
use ens_provider.Inventory.{ok}
use ens_provider.Userdata.{breaks_quoting, build_node_spec, script_of, built, build_userdata}
use ens_provider.Userdata.AttachToken.{
  script_body, fetch_attach_token, build_attach_scripts_request,
}
use ens_provider.Userdata.AttachToken.Validity.{ExpiresIn, build_attach_scripts_request-validity}
use ens_provider.Userdata.Base64.{base64_encode}
use ens_provider.Userdata.Quoting.{blank, quoted_words, outside}
use ens_provider.Userdata.Quoting.Scripted.{own_words}
use ens_provider.Userdata.Quoting.Loaded.{build_userdata-quoted}
use ens_provider.Userdata.Quoting.Validated.{HaveNoQuote, plain_text}
use ens_provider.Examples.Data.{cfg, group, web, batch}

abbrev test_group : Group
test_group = record (group (codes "np-a") (codes "np-a") (codes "as-a-")) {
  labels = (codes "product", codes "web") ∷ [];
  taints = record { key = codes "product"; value = codes "web"; effect = codes "NoSchedule" } ∷ [];
}

abbrev test_cfg : Config
test_cfg = record cfg { runtime_version = codes "1.6.39" }

-- The golden node spec of the source's tests.
golden_node_spec :
    build_node_spec test_cfg test_group
    ≡ codes
        "{\"allowedClusterAddons\":[\"kube-proxy\",\"flannel\",\"coredns\"],\"imageRepoType\":\"public\",\"interconnectMode\":\"private\",\"labels\":{\"alibabacloud.com/interconnection-mode\":\"private\",\"apps.openyurt.io/desired-nodepool\":\"np-a\",\"product\":\"web\"},\"manageRuntime\":true,\"openapiType\":\"public\",\"poolNodesConnected\":true,\"quiet\":true,\"runtime\":\"containerd\",\"runtimeRootDir\":\"/var/lib/containerd\",\"runtime_version\":\"1.6.39\",\"selfHostNtpServer\":false,\"taints\":[{\"key\":\"product\",\"value\":\"web\",\"effect\":\"NoSchedule\"}]}"
unfolding build_node_spec ens_provider.Userdata.Json.marshal ens_provider.Userdata.Json.sort_fields
    ens_provider.Prelude.str_eq ens_provider.Prelude.is_empty
golden_node_spec = refl

-- Labels without quotes; a quantity is its first digit.
abbrev pub first_digit : Str → Option ℤ
first_digit [] = none
first_digit (c ∷ s) = some (pos (c - 48))

abbrev pub quoteless : Validators
quoteless = record {
  is_qualified_name = λ s. not (breaks_quoting s);
  is_label_value = λ s. not (breaks_quoting s);
  is_int64 = λ s. true;
  parse_quantity = first_digit;
}

kept : (b : Bool) → not b ≡ true → b ≡ false
kept true h = cc
kept false h = refl

pub quoteless-HaveNoQuote : HaveNoQuote quoteless
quoteless-HaveNoQuote = record {
  names = λ s h. plain_text s (kept (breaks_quoting s) h);
  values = λ s h. plain_text s (kept (breaks_quoting s) h);
}

abbrev pub parse_duration : Str → Option ℤ
parse_duration s = some (pos 3_600_000_000_000)

abbrev pub loaded_cfg : Config
loaded_cfg = record cfg {
  join_token_ttl = pos 3_600_000_000_000;
  groups = with_defaults cfg web ∷ with_defaults cfg batch ∷ [];
}

pub load_quoteless :
    load_config quoteless (λ a b. true) parse_duration cfg (codes "1h") (web ∷ batch ∷ [])
    ≡ loaded loaded_cfg
unfolding load_config is_empty str_eq ens_provider.Prelude.has_prefix
    ens_provider.Config.Validate.validate breaks_quoting
load_quoteless = refl

build_userdata-quoted_example :
    (build_userdata (ok (codes "t1")) loaded_cfg (with_defaults cfg web)
      ≡ built (base64_encode (script_of loaded_cfg (with_defaults cfg web) (codes "t1"))))
    × (quoted_words blank (script_of loaded_cfg (with_defaults cfg web) (codes "t1"))
        ≡ own_words ++ codes "t1" ∷ build_node_spec loaded_cfg (with_defaults cfg web) ∷ [])
    × (outside blank (script_of loaded_cfg (with_defaults cfg web) (codes "t1"))
        ≡ outside blank (script_of loaded_cfg (with_defaults cfg batch) (codes "t2")))
unfolding breaks_quoting
build_userdata-quoted_example =
    build_userdata-quoted quoteless (λ a b. true) parse_duration cfg loaded_cfg (codes "1h")
      (web ∷ batch ∷ []) (with_defaults cfg web) (with_defaults cfg batch) (codes "t1") (codes "t2")
      quoteless-HaveNoQuote load_quoteless (inl refl) (inr (inl refl)) refl refl

abbrev pub attach_body : Str
attach_body = codes "./edgeadm join --openapi-token=abc.def --node-spec"

-- What it returns there.
attach_token : fetch_attach_token (script_body attach_body) ≡ ok (codes "abc.def")
unfolding fetch_attach_token ens_provider.Prelude.has_prefix is_empty
    ens_provider.Prelude.trim_prefix
attach_token = refl

build_attach_scripts_request-validity_example :
    ((codes "1h" ≡ codes "0")
      × ((build_attach_scripts_request loaded_cfg web (pos 0)).expired ≡ none))
    ⊎ (ExpiresIn
          (build_attach_scripts_request loaded_cfg web (pos 0)).expired
          (pos 0)
          loaded_cfg.join_token_ttl
        × (codes "1h" ≡ [] → loaded_cfg.join_token_ttl ≡ pos 7_200_000_000_000))
build_attach_scripts_request-validity_example =
    build_attach_scripts_request-validity quoteless (λ a b. true) parse_duration cfg loaded_cfg
      (codes "1h") (web ∷ batch ∷ []) web (pos 0) load_quoteless
