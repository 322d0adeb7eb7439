-- ===== src/Config/Validate/Lookup.antt =====
-- What a validated configuration gives for the lookup of its groups and for their bounds.
use ens_provider.Prelude.{
  ◌≡◌, refl, inl, inr, Bool, true, false, ◌&&◌, not, Option, none, some, List, [], ◌∷◌, Str, codes,
  str_eq, str_eq_refl, is_empty, find_first, In, pos, ltb_ℤ, ◌≤ℤ◌, arith,
}
use ens_provider.Config.{
  Config, Group, Labels, group_by_id, group_for_node_labels, label_value, nodepool_label,
}
use ens_provider.Config.Validate.{
  Validators, Fault, ConfigError, check, then_error, seen, validate_group, validate_groups,
  validate, validate_labels, validate_taints, validate_own_template, validate_template, is_missing,
}

pub check-none :
    (b : Bool) (gid : Str) (f : Fault) (later : Option ConfigError)
    → check b gid f later ≡ none
    → (b ≡ false) × (later ≡ none)
check-none true gid f later e = cc
check-none false gid f later e = (refl, e)

pub then_error-none : (a b : Option ConfigError) → then_error a b ≡ none → (a ≡ none) × (b ≡ none)
then_error-none none b e = (refl, e)
then_error-none (some x) b e = cc

-- What the checks of one group establish.
pub record IsSound (v : Validators) (c : Config) (ids nodepools : List Str) (g : Group)
    : Type 0 where
  pub new_id : seen g.id ids ≡ false
  pub new_nodepool : seen g.nodepool_id nodepools ≡ false
  pub min_ok : ltb_ℤ g.min (pos 0) ≡ false
  pub max_ok : ltb_ℤ g.max g.min ≡ false
  pub labels_ok : validate_labels v g.id g.labels ≡ none
  pub taints_ok : validate_taints v g.id g.taints ≡ none
  pub nodepool_ok : not (v.is_label_value g.nodepool_id) ≡ false
  pub has_template : (not (str_eq g.instance_type c.def_instance) && is_missing g.template) ≡ false
  pub template_ok : validate_own_template v g.id g.template ≡ none

validate_group-IsSound :
    (v : Validators) (c : Config) (ids nodepools : List Str) (g : Group)
    (later : Option ConfigError)
    → validate_group v c ids nodepools g later ≡ none
    → IsSound v c ids nodepools g × (later ≡ none)
unfolding validate_group
validate_group-IsSound v c ids nodepools g later e =
    let (a, e₁) = check-none (seen g.id ids) _ _ _ e in
    let (b, e₂) = check-none (seen g.nodepool_id nodepools) _ _ _ e₁ in
    let (d, e₃) = check-none (ltb_ℤ g.min (pos 0)) _ _ _ e₂ in
    let (f, e₄) = check-none (ltb_ℤ g.max g.min) _ _ _ e₃ in
    let (x, e₅) = check-none (not (v.is_int64 g.disk_size)) _ _ _ e₄ in
    let (y, e₆) = check-none (not (v.is_int64 g.bandwidth)) _ _ _ e₅ in
    let (k, e₇) = then_error-none (validate_labels v g.id g.labels) _ e₆ in
    let (l, e₈) = then_error-none (validate_taints v g.id g.taints) _ e₇ in
    let (m, e₉) = check-none (not (v.is_label_value g.nodepool_id)) _ _ _ e₈ in
    let (n, e₁₀) =
      check-none (not (str_eq g.instance_type c.def_instance) && is_missing g.template) _ _ _ e₉ in
    let (o, e₁₁) = then_error-none (validate_own_template v g.id g.template) _ e₁₀ in
    (
      record {
        new_id = a;
        new_nodepool = b;
        min_ok = d;
        max_ok = f;
        labels_ok = k;
        taints_ok = l;
        nodepool_ok = m;
        has_template = n;
        template_ok = o;
      },
      e₁₁,
    )

not_seen :
    (s t : Str) (rest : List Str)
    → seen s (t ∷ rest) ≡ false
    → (str_eq t s ≡ false) × (seen s rest ≡ false)
not_seen s t rest e = (ground arith, ground arith)

IsSound-drop :
    (v : Validators) (c : Config) (x y : Str) (ids nodepools : List Str) (g : Group)
    → IsSound v c (x ∷ ids) (y ∷ nodepools) g
    → IsSound v c ids nodepools g
IsSound-drop v c x y ids nodepools g s = record {
  new_id = (not_seen g.id x ids s.new_id).1;
  new_nodepool = (not_seen g.nodepool_id y nodepools s.new_nodepool).1;
  min_ok = s.min_ok;
  max_ok = s.max_ok;
  labels_ok = s.labels_ok;
  taints_ok = s.taints_ok;
  nodepool_ok = s.nodepool_ok;
  has_template = s.has_template;
  template_ok = s.template_ok;
}

pub validate_groups-IsSound :
    (v : Validators) (c : Config) (ids nodepools : List Str) (gs : List Group) (g : Group)
    → validate_groups v c ids nodepools gs ≡ none
    → In g gs
    → IsSound v c ids nodepools g
unfolding validate_groups
validate_groups-IsSound v c ids nodepools [] g e h = absurd h
validate_groups-IsSound v c ids nodepools (x ∷ gs) g e (inl p) =
    rw p ((validate_group-IsSound v c ids nodepools x _ e).0)
validate_groups-IsSound v c ids nodepools (x ∷ gs) g e (inr h) =
    IsSound-drop v c x.id x.nodepool_id ids nodepools g (
      validate_groups-IsSound v c (x.id ∷ ids) (x.nodepool_id ∷ nodepools) gs g
        ((validate_group-IsSound v c ids nodepools x _ e).1) h)

-- The first of the groups with its id, and with its nodepool, is the group itself.
found :
    (v : Validators) (c : Config) (ids nodepools : List Str) (gs : List Group) (g : Group)
    → validate_groups v c ids nodepools gs ≡ none
    → In g gs
    → (find_first (λ (k : Group). str_eq k.id g.id) gs ≡ some g)
      × (find_first (λ (k : Group). str_eq k.nodepool_id g.nodepool_id) gs ≡ some g)
unfolding validate_groups
found v c ids nodepools [] g e h = absurd h
found v c ids nodepools (x ∷ gs) g e (inl p) =
    rw p (rw (str_eq_refl x.id, str_eq_refl x.nodepool_id) (refl, refl))
found v c ids nodepools (x ∷ gs) g e (inr h) =
    let later = (validate_group-IsSound v c ids nodepools x _ e).1 in
    let s = validate_groups-IsSound v c (x.id ∷ ids) (x.nodepool_id ∷ nodepools) gs g later h in
    let apart = (not_seen g.id x.id ids s.new_id).0 in
    let apart_np = (not_seen g.nodepool_id x.nodepool_id nodepools s.new_nodepool).0 in
    rw (apart, apart_np) (found v c (x.id ∷ ids) (x.nodepool_id ∷ nodepools) gs g later h)

-- In a configuration that passes the validation every group is found by its id, and by the nodepool
-- label of a node, and its bounds are in order: 0 ≤ min ≤ max.
pub validate-found :
    (v : Validators) (c : Config) (g : Group) (labels : Labels)
    → validate v c ≡ none
    → In g c.groups
    → (group_by_id c g.id ≡ some g)
      × (label_value labels nodepool_label ≡ g.nodepool_id
          → is_empty g.nodepool_id ≡ false
          → group_for_node_labels c labels ≡ some g)
      × (pos 0 ≤ℤ g.min)
      × (g.min ≤ℤ g.max)
unfolding validate group_by_id group_for_node_labels
validate-found v c g labels e h =
    let later =
      (then_error-none (validate_template v (codes "shared default") c.def_template) _ e).1 in
    let f = found v c [] [] c.groups g later h in
    let s = validate_groups-IsSound v c [] [] c.groups g later h in
    let min_ok = s.min_ok in
    let max_ok = s.max_ok in (f.0, λ p q. rw (p, q) f.1, ground arith, ground arith)
