-- ===== src/Userdata/Quoting/Validated.antt =====
-- What the validation of a configuration shows of the texts of a node spec: none holds a quote.
use ens_provider.Prelude.{
  ℕ, ◌≡◌, ◌⊎◌, refl, inl, inr, Bool, true, false, ◌||◌, not, none, List, [], ◌∷◌, Str, codes,
  str_eq, str_eq→eq, is_empty, ◌==◌, All, In, arith, Bool-cases, if◌then◌else◌,
}
use ens_provider.Config.{Config, Group, Labels, Taint}
use ens_provider.Config.Validate.{
  Validators, is_valid_effect, validate_labels, validate_taints, validate_template, validate,
}
use ens_provider.Config.Validate.Lookup.{check-none, then_error-none, validate_groups-IsSound}
use ens_provider.Config.Load.{
  all_bytes, is_region_byte, is_version_byte, is_region_id, is_version_id,
}
use ens_provider.Config.Checked.{IsScriptable}
use ens_provider.Userdata.{
  join_labels, spec_taint, spec_taints, spec_entries, build_node_spec, breaks_quoting,
}
use ens_provider.Userdata.Quoting.{NoQuote, IsPlain, mode_step}
use ens_provider.Userdata.Quoting.Spec.{
  IsClean, AreClean, AreCleanFields, marshal-NoQuote, sort_fields-AreClean, IsCleanLabel,
  set_labels-AreClean, label_entries-AreClean,
}

-- The syntax of labels, as the validators of Kubernetes check it, has no single quote.
pub record HaveNoQuote (v : Validators) : Type 0 where
  pub names : (s : Str) → v.is_qualified_name s ≡ true → NoQuote s
  pub values : (s : Str) → v.is_label_value s ≡ true → NoQuote s

pub all_bytes-All :
    (p : ℕ → Bool) (P : ℕ → Type 0) (s : Str)
    → ((c : ℕ) → p c ≡ true → P c)
    → all_bytes p s ≡ true
    → All P s
all_bytes-All p P [] h e = tt
all_bytes-All p P (c ∷ s) h e = (h c (ground arith), all_bytes-All p P s h (ground arith))

pub region_byte-IsPlain : (c : ℕ) → is_region_byte c ≡ true → IsPlain c
unfolding is_region_byte mode_step
region_byte-IsPlain c h = (ground arith, ground arith)

pub version_byte-IsPlain : (c : ℕ) → is_version_byte c ≡ true → IsPlain c
unfolding is_version_byte mode_step
version_byte-IsPlain c h = (ground arith, ground arith)

version_byte-quote : (c : ℕ) → is_version_byte c ≡ true → (c == b'\'') ≡ false
unfolding is_version_byte
version_byte-quote c h = ground arith

pub plain_text : (s : Str) → breaks_quoting s ≡ false → NoQuote s
unfolding breaks_quoting
plain_text [] h = tt
plain_text (c ∷ s) h = (ground arith, plain_text s (ground arith))

pub version_id-bytes : (s : Str) → is_version_id s ≡ true → all_bytes is_version_byte s ≡ true
unfolding is_version_id
version_id-bytes s h = ground arith

pub region_id-bytes : (s : Str) → is_region_id s ≡ true → all_bytes is_region_byte s ≡ true
unfolding is_region_id
region_id-bytes s h = ground arith

-- From a refusal that was not made.
pub accepted : (b : Bool) → not b ≡ false → b ≡ true
accepted true h = refl
accepted false h = cc

validate_labels-AreClean :
    (v : Validators) (gid : Str) (m : Labels)
    → HaveNoQuote v
    → validate_labels v gid m ≡ none
    → All IsCleanLabel m
unfolding validate_labels
validate_labels-AreClean v gid [] q e = tt
validate_labels-AreClean v gid ((k, value) ∷ m) q e =
    let (a, e₁) = check-none (not (v.is_qualified_name k)) _ _ _ e in
    let (b, e₂) = check-none (not (v.is_label_value value)) _ _ _ e₁ in
    (
      (
        q.names k (accepted (v.is_qualified_name k) a),
        q.values value (accepted (v.is_label_value value) b),
      ),
      validate_labels-AreClean v gid m q e₂,
    )

equal-NoQuote : (e t : Str) → NoQuote t → str_eq e t ≡ true → NoQuote e
equal-NoQuote e t q h = rw (str_eq→eq e t h) q

either : (a b : Bool) → (a || b) ≡ true → (a ≡ true) ⊎ (b ≡ true)
either true b h = inl refl
either false b h = inr h

effect-NoQuote :
    (e : Str) → is_valid_effect e ≡ true → NoQuote (if is_empty e then codes "NoSchedule" else e)
unfolding is_valid_effect breaks_quoting
effect-NoQuote e h = elim (Bool-cases (is_empty e)) [
  | inl p ↦ rw p (plain_text (codes "NoSchedule") refl)
  | inr p ↦ rw p (elim (either _ (str_eq e (codes "NoExecute")) h) [
    | inr q ↦ equal-NoQuote e (codes "NoExecute") (plain_text (codes "NoExecute") refl) q
    | inl r ↦ (elim (either _ (str_eq e (codes "PreferNoSchedule")) r) [
      | inr q ↦
          equal-NoQuote e (codes "PreferNoSchedule") (plain_text (codes "PreferNoSchedule") refl) q
      | inl k ↦ (elim (either (is_empty e) (str_eq e (codes "NoSchedule")) k) [
        | inl q ↦ cc
        | inr q ↦ equal-NoQuote e (codes "NoSchedule") (plain_text (codes "NoSchedule") refl) q
      ])
    ])
  ])
]

validate_taints-AreClean :
    (v : Validators) (gid : Str) (ts : List Taint)
    → HaveNoQuote v
    → validate_taints v gid ts ≡ none
    → AreClean (spec_taints ts)
unfolding validate_taints spec_taints spec_taint AreClean IsClean AreCleanFields breaks_quoting
validate_taints-AreClean v gid [] q e = tt
validate_taints-AreClean v gid (t ∷ ts) q e =
    let (effect, e₁) = check-none (not (is_valid_effect t.effect)) _ _ _ e in
    let (_, e₂) = check-none (is_empty t.key) _ _ _ e₁ in
    let (key, e₃) = check-none (not (v.is_qualified_name t.key)) _ _ _ e₂ in
    let (value, e₄) = check-none (not (v.is_label_value t.value)) _ _ _ e₃ in
    (
      (
        plain_text (codes "key") refl,
        q.names t.key (accepted (v.is_qualified_name t.key) key),
        (
          plain_text (codes "value") refl,
          q.values t.value (accepted (v.is_label_value t.value) value),
          (
            plain_text (codes "effect") refl,
            effect-NoQuote t.effect (accepted (is_valid_effect t.effect) effect),
            tt,
          ),
        ),
      ),
      validate_taints-AreClean v gid ts q e₄,
    )

-- The node spec of a group that passed the validation.
pub build_node_spec-NoQuote :
    (v : Validators) (c : Config) (g : Group)
    → HaveNoQuote v
    → IsScriptable c
    → validate v c ≡ none
    → In g c.groups
    → NoQuote (build_node_spec c g)
unfolding build_node_spec validate spec_entries join_labels IsClean AreClean breaks_quoting
build_node_spec-NoQuote v c g q s e listed =
    let later =
      (then_error-none (validate_template v (codes "shared default") c.def_template) _ e).1 in
    let sound = validate_groups-IsSound v c [] [] c.groups g later listed in
    let repo : NoQuote c.image_repo_type =
      elim (either (str_eq c.image_repo_type (codes "public")) _ s.repo) [
        | inl p ↦
            equal-NoQuote c.image_repo_type (codes "public") (plain_text (codes "public") refl) p
        | inr p ↦
            equal-NoQuote c.image_repo_type (codes "private") (plain_text (codes "private") refl) p
      ] in
    let runtime =
      all_bytes-All is_version_byte (λ k. (k == b'\'') ≡ false) c.runtime_version version_byte-quote
        (version_id-bytes c.runtime_version s.runtime) in
    let labels =
      set_labels-AreClean g.labels _ (validate_labels-AreClean v g.id g.labels q sound.labels_ok) (
        (
          plain_text (codes "apps.openyurt.io/desired-nodepool") refl,
          q.values g.nodepool_id (accepted (v.is_label_value g.nodepool_id) sound.nodepool_ok),
        ),
        (
          (
            plain_text (codes "alibabacloud.com/interconnection-mode") refl,
            plain_text (codes "private") refl,
          ),
          tt,
        ),
      ) in
    let taints = validate_taints-AreClean v g.id g.taints q sound.taints_ok in
    marshal-NoQuote _ (
      sort_fields-AreClean (spec_entries c g) (
        (
          plain_text (codes "allowedClusterAddons") refl,
          (
            plain_text (codes "kube-proxy") refl,
            (plain_text (codes "flannel") refl, (plain_text (codes "coredns") refl, tt)),
          ),
        ),
        (
          (plain_text (codes "imageRepoType") refl, repo),
          (
            (plain_text (codes "interconnectMode") refl, plain_text (codes "private") refl),
            (
              (plain_text (codes "manageRuntime") refl, tt),
              (
                (plain_text (codes "openapiType") refl, plain_text (codes "public") refl),
                (
                  (plain_text (codes "poolNodesConnected") refl, tt),
                  (
                    (plain_text (codes "quiet") refl, tt),
                    (
                      (plain_text (codes "selfHostNtpServer") refl, tt),
                      (
                        (plain_text (codes "runtime") refl, plain_text (codes "containerd") refl),
                        (
                          (
                            plain_text (codes "runtimeRootDir") refl,
                            plain_text (codes "/var/lib/containerd") refl,
                          ),
                          (
                            (plain_text (codes "runtime_version") refl, runtime),
                            (
                              (
                                plain_text (codes "labels") refl,
                                sort_fields-AreClean _ (label_entries-AreClean _ labels),
                              ),
                              ((plain_text (codes "taints") refl, taints), tt),
                            ),
                          ),
                        ),
                      ),
                    ),
                  ),
                ),
              ),
            ),
          ),
        ),
      ))
