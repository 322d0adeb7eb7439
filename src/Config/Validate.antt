-- ===== src/Config/Validate.antt =====
-- groups.go: `validate` and `validateTemplate`. The label validators and the quantity parser of the
-- Kubernetes libraries and the integer reader of encoding/json are `Validators`; a quantity is its
-- value in billionths.
pub mod Lookup
use ens_provider.Prelude.{
  Bool, true, false, ◌&&◌, ◌||◌, not, Option, none, some, List, [], ◌∷◌, Str, codes, str_eq,
  is_empty, if◌then◌else◌, ℤ, pos, ltb_ℤ, leb_ℤ,
}
use ens_provider.Config.{Config, Group, Labels, Taint, Template}

pub record Validators : Type 0 where
  pub is_qualified_name : Str → Bool
  pub is_label_value : Str → Bool
  pub is_int64 : Str → Bool
  pub parse_quantity : Str → Option ℤ

-- The errors, without their texts: the group that they name and what is wrong with it.
pub data Fault : Type 0 where
  duplicate_id duplicate_nodepool negative_min max_below_min disk_size_text bandwidth_text label_key
        label_value_text :
      Fault
  taint_effect taint_empty_key taint_key taint_value nodepool_text template_missing : Fault
  quantity_text quantity_sign cpu_alloc_above mem_alloc_above : Fault

pub record ConfigError : Type 0 where
  pub group : Str
  pub fault : Fault

-- One `if ... { return err }`, and what follows it.
abbrev pub check : Bool → Str → Fault → Option ConfigError → Option ConfigError
check true gid fault later = some (record { group = gid; fault = fault })
check false gid fault later = later

abbrev pub then_error : Option ConfigError → Option ConfigError → Option ConfigError
then_error (some e) later = some e
then_error none later = later

abbrev pub is_text : Option ℤ → Bool
is_text none = true
is_text (some q) = false

abbrev pub not_positive : Option ℤ → Bool
not_positive none = false
not_positive (some q) = leb_ℤ q (pos 0)

-- One field of a template; an empty one is skipped.
unfoldable pub validate_quantity : Validators → Str → Str → Option ConfigError
validate_quantity v gid text =
    let q = v.parse_quantity text in
    check (not (is_empty text) && is_text q) gid quantity_text
      (check (not (is_empty text) && not_positive q) gid quantity_sign none)

abbrev pub is_above : Option ℤ → Option ℤ → Bool
is_above (some alloc) (some cap) = ltb_ℤ cap alloc
is_above _ _ = false

-- The allocatable amount exceeds the capacity, both being set.
unfoldable pub exceeds : Validators → Str → Str → Bool
exceeds v alloc cap =
    not (is_empty alloc)
    && (not (is_empty cap) && is_above (v.parse_quantity alloc) (v.parse_quantity cap))

unfoldable pub validate_template : Validators → Str → Template → Option ConfigError
unfolding validate_quantity exceeds
validate_template v gid t = then_error (validate_quantity v gid t.cpu) (
    then_error (validate_quantity v gid t.memory) (
      then_error (validate_quantity v gid t.pods) (
        then_error (validate_quantity v gid t.ephemeral) (
          then_error (validate_quantity v gid t.cpu_alloc) (
            then_error (validate_quantity v gid t.mem_alloc) (
              check (exceeds v t.cpu_alloc t.cpu) gid cpu_alloc_above
                (check (exceeds v t.mem_alloc t.memory) gid mem_alloc_above none)))))))

unfoldable pub validate_labels : Validators → Str → Labels → Option ConfigError
validate_labels v gid [] = none
validate_labels v gid ((k, value) ∷ rest) =
    check (not (v.is_qualified_name k)) gid label_key
      (check (not (v.is_label_value value)) gid label_value_text (validate_labels v gid rest))

unfoldable pub is_valid_effect : Str → Bool
is_valid_effect e =
    is_empty e
    || str_eq e (codes "NoSchedule")
    || str_eq e (codes "PreferNoSchedule")
    || str_eq e (codes "NoExecute")

unfoldable pub validate_taints : Validators → Str → List Taint → Option ConfigError
unfolding is_valid_effect
validate_taints v gid [] = none
validate_taints v gid (t ∷ rest) = check (not (is_valid_effect t.effect)) gid taint_effect (
    check (is_empty t.key) gid taint_empty_key (
      check (not (v.is_qualified_name t.key)) gid taint_key
        (check (not (v.is_label_value t.value)) gid taint_value (validate_taints v gid rest))))

abbrev pub seen : Str → List Str → Bool
seen s [] = false
seen s (t ∷ rest) = str_eq t s || seen s rest

abbrev pub is_missing : Option Template → Bool
is_missing none = true
is_missing (some t) = false

unfoldable pub validate_own_template : Validators → Str → Option Template → Option ConfigError
unfolding validate_template
validate_own_template v gid none = none
validate_own_template v gid (some t) = validate_template v gid t

-- One turn of the loop over the groups, and the rest of the loop.
unfoldable pub validate_group :
    Validators → Config → List Str → List Str → Group → Option ConfigError → Option ConfigError
unfolding validate_labels validate_taints validate_own_template
validate_group v c ids nodepools g later = check (seen g.id ids) g.id duplicate_id (
    check (seen g.nodepool_id nodepools) g.id duplicate_nodepool (
      check (ltb_ℤ g.min (pos 0)) g.id negative_min (
        check (ltb_ℤ g.max g.min) g.id max_below_min (
          check (not (v.is_int64 g.disk_size)) g.id disk_size_text (
            check (not (v.is_int64 g.bandwidth)) g.id bandwidth_text (
              then_error (validate_labels v g.id g.labels) (
                then_error (validate_taints v g.id g.taints) (
                  check (not (v.is_label_value g.nodepool_id)) g.id nodepool_text (
                    check (not (str_eq g.instance_type c.def_instance) && is_missing g.template)
                      g.id template_missing
                      (then_error (validate_own_template v g.id g.template) later))))))))))

unfoldable pub validate_groups :
    Validators → Config → List Str → List Str → List Group → Option ConfigError
unfolding validate_group
validate_groups v c ids nodepools [] = none
validate_groups v c ids nodepools (g ∷ rest) =
    validate_group v c ids nodepools g
      (validate_groups v c (g.id ∷ ids) (g.nodepool_id ∷ nodepools) rest)

unfoldable pub validate : Validators → Config → Option ConfigError
unfolding validate_template validate_groups
validate v c =
    then_error (validate_template v (codes "shared default") c.def_template)
      (validate_groups v c [] [] c.groups)
