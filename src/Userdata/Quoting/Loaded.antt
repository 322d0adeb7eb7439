-- ===== src/Userdata/Quoting/Loaded.antt =====
-- The join script of a group of a loaded configuration: where the values that it embeds stand for the
-- shell.
use ens_provider.Prelude.{
  ◌≡◌, refl, inl, inr, Bool, false, Option, List, [], ◌∷◌, ◌++◌, Str, codes, str_eq, All, In, ℤ,
  Bool-cases,
}
use ens_provider.Config.{Config, Group}
use ens_provider.Config.Validate.{Validators}
use ens_provider.Config.Load.{is_region_byte, is_version_byte, loaded, load_config}
use ens_provider.Config.Prefixes.{load_config-IsLoaded}
use ens_provider.Config.Checked.{IsScriptable, load_config-checked}
use ens_provider.Inventory.{ok}
use ens_provider.Userdata.{
  build_node_spec, breaks_quoting, oss_region, script_of, built, build_userdata,
}
use ens_provider.Userdata.Base64.{base64_encode}
use ens_provider.Userdata.Quoting.{IsPlain, blank, quoted_words, outside}
use ens_provider.Userdata.Quoting.Spec.{All-append}
use ens_provider.Userdata.Quoting.Scripted.{own_words, join_script-words, join_script-outside}
use ens_provider.Userdata.Quoting.Validated.{
  all_bytes-All, region_byte-IsPlain, version_byte-IsPlain, plain_text, version_id-bytes,
  region_id-bytes, build_node_spec-NoQuote, HaveNoQuote,
}

internal-IsPlain : All IsPlain (codes "-internal")
unfolding is_region_byte
internal-IsPlain = all_bytes-All is_region_byte IsPlain (codes "-internal") region_byte-IsPlain refl

oss_region-IsPlain : (c : Config) → IsScriptable c → All IsPlain (oss_region c)
unfolding oss_region
oss_region-IsPlain c s =
    let plain =
      all_bytes-All is_region_byte IsPlain c.control_region region_byte-IsPlain
        (region_id-bytes c.control_region s.region) in
    elim (Bool-cases (str_eq c.image_repo_type (codes "private"))) [
      | inl p ↦
          rw p (All-append IsPlain c.control_region (codes "-internal") plain internal-IsPlain)
      | inr p ↦ rw p plain
    ]

-- The script that BuildUserdata sends for a group of a configuration that LoadConfig returned, where
-- the validators of Kubernetes accept no text with a single quote, and the tokens hold no quote and
-- no backslash: the script is built, a shell reads exactly five single-quoted texts in it, three of
-- the script's own, the token and the node spec, byte for byte, and outside of them a text that
-- depends neither on the token nor on the group.
pub build_userdata-quoted :
    (v : Validators) (exceeds_1_2 : ℤ → ℤ → Bool) (parse_duration : Str → Option ℤ) (c d : Config)
    (ttl : Str) (gs : List Group) (g g' : Group) (token token' : Str)
    → HaveNoQuote v
    → load_config v exceeds_1_2 parse_duration c ttl gs ≡ loaded d
    → In g d.groups
    → In g' d.groups
    → breaks_quoting token ≡ false
    → breaks_quoting token' ≡ false
    → (build_userdata (ok token) d g ≡ built (base64_encode (script_of d g token)))
      × (quoted_words blank (script_of d g token) ≡ own_words ++ token ∷ build_node_spec d g ∷ [])
      × (outside blank (script_of d g token) ≡ outside blank (script_of d g' token'))
unfolding build_userdata script_of
build_userdata-quoted v exceeds_1_2 parse_duration c d ttl gs g g' token token' q h listed listed'
      whole whole' =
    let s = (load_config-checked v exceeds_1_2 parse_duration c d ttl gs h).0 in
    let valid = (load_config-IsLoaded v exceeds_1_2 parse_duration c d ttl gs h).valid in
    let region =
      all_bytes-All is_region_byte IsPlain d.control_region region_byte-IsPlain
        (region_id-bytes d.control_region s.region) in
    let version =
      all_bytes-All is_version_byte IsPlain d.k8s_version version_byte-IsPlain
        (version_id-bytes d.k8s_version s.k8s) in
    let oss = oss_region-IsPlain d s in
    let spec = build_node_spec-NoQuote v d g q s valid listed in
    let spec' = build_node_spec-NoQuote v d g' q s valid listed' in
    (
      rw whole refl,
      join_script-words d.control_region (oss_region d) d.k8s_version region oss version token
          (build_node_spec d g) (plain_text token whole) spec,
      join_script-outside d.control_region (oss_region d) d.k8s_version region oss version token
          (build_node_spec d g) token' (build_node_spec d g') (plain_text token whole) spec
          (plain_text token' whole') spec',
    )
