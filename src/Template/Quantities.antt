-- ===== src/Template/Quantities.antt =====
-- The quantities of a template that passed the validation, merged with the default.
use ens_provider.Prelude.{
  ◌≡◌, inl, inr, false, ◌&&◌, not, Option, none, some, Str, codes, is_empty, ℤ, pos, ◌<ℤ◌, arith,
  Bool-cases, Option-cases,
}
use ens_provider.Config.{Template}
use ens_provider.Config.Validate.{
  Validators, validate_quantity, validate_template, validate_own_template, is_text, not_positive,
}
use ens_provider.Config.Validate.Lookup.{check-none, then_error-none}
use ens_provider.Template.{or_default, merged_template}

-- The text is a positive quantity.
abbrev pub IsQuantity : Validators → Str → Type 0
IsQuantity v text = (q : ℤ) × (v.parse_quantity text ≡ some q) × (pos 0 <ℤ q)

validate_quantity-IsQuantity :
    (v : Validators) (gid text : Str)
    → validate_quantity v gid text ≡ none
    → is_empty text ≡ false
    → IsQuantity v text
unfolding validate_quantity
validate_quantity-IsQuantity v gid text e full =
    let (a, e₁) = check-none (not (is_empty text) && is_text (v.parse_quantity text)) _ _ _ e in
    let (b, e₂) =
      check-none (not (is_empty text) && not_positive (v.parse_quantity text)) _ _ _ e₁ in
    elim (Option-cases (v.parse_quantity text)) [
      | inl p ↦ cc (rw (full, p) at a)
      | inr (q, p) ↦ (let b' = rw (full, p) at b in (q, p, ground arith))
    ]

-- What a template that passes shows of each of its six fields.
pub record AreQuantities (v : Validators) (gid : Str) (t : Template) : Type 0 where
  pub cpu : validate_quantity v gid t.cpu ≡ none
  pub memory : validate_quantity v gid t.memory ≡ none
  pub pods : validate_quantity v gid t.pods ≡ none
  pub ephemeral : validate_quantity v gid t.ephemeral ≡ none
  pub cpu_alloc : validate_quantity v gid t.cpu_alloc ≡ none
  pub mem_alloc : validate_quantity v gid t.mem_alloc ≡ none

validate_template-AreQuantities :
    (v : Validators) (gid : Str) (t : Template)
    → validate_template v gid t ≡ none
    → AreQuantities v gid t
unfolding validate_template
validate_template-AreQuantities v gid t e =
    let (a, e₁) = then_error-none (validate_quantity v gid t.cpu) _ e in
    let (b, e₂) = then_error-none (validate_quantity v gid t.memory) _ e₁ in
    let (c, e₃) = then_error-none (validate_quantity v gid t.pods) _ e₂ in
    let (d, e₄) = then_error-none (validate_quantity v gid t.ephemeral) _ e₃ in
    let (f, e₅) = then_error-none (validate_quantity v gid t.cpu_alloc) _ e₄ in
    let (g, e₆) = then_error-none (validate_quantity v gid t.mem_alloc) _ e₅ in
    record { cpu = a; memory = b; pods = c; ephemeral = d; cpu_alloc = f; mem_alloc = g }

-- The six fields of the default are set, as LoadConfig sets them.
pub record IsFull (t : Template) : Type 0 where
  pub cpu : is_empty t.cpu ≡ false
  pub memory : is_empty t.memory ≡ false
  pub pods : is_empty t.pods ≡ false
  pub ephemeral : is_empty t.ephemeral ≡ false
  pub cpu_alloc : is_empty t.cpu_alloc ≡ false
  pub mem_alloc : is_empty t.mem_alloc ≡ false

or_default-IsQuantity :
    (v : Validators) (gid : Str) (own def : Str)
    → validate_quantity v gid own ≡ none
    → validate_quantity v (codes "shared default") def ≡ none
    → is_empty def ≡ false
    → IsQuantity v (or_default own def)
or_default-IsQuantity v gid own def e d full = elim (Bool-cases (is_empty own)) [
  | inl p ↦ rw p (validate_quantity-IsQuantity v (codes "shared default") def d full)
  | inr p ↦ rw p (validate_quantity-IsQuantity v gid own e p)
]

-- Every field of the merged template is a positive quantity.
pub record IsUsable (v : Validators) (t : Template) : Type 0 where
  pub cpu : IsQuantity v t.cpu
  pub memory : IsQuantity v t.memory
  pub pods : IsQuantity v t.pods
  pub ephemeral : IsQuantity v t.ephemeral
  pub cpu_alloc : IsQuantity v t.cpu_alloc
  pub mem_alloc : IsQuantity v t.mem_alloc

pub merged_template-IsUsable :
    (v : Validators) (gid : Str) (def : Template) (own : Option Template)
    → validate_template v (codes "shared default") def ≡ none
    → validate_own_template v gid own ≡ none
    → IsFull def
    → IsUsable v (merged_template def own)
unfolding merged_template validate_own_template
merged_template-IsUsable v gid def none d o full =
    let q = validate_template-AreQuantities v (codes "shared default") def d in
    record {
      cpu = validate_quantity-IsQuantity v _ def.cpu q.cpu full.cpu;
      memory = validate_quantity-IsQuantity v _ def.memory q.memory full.memory;
      pods = validate_quantity-IsQuantity v _ def.pods q.pods full.pods;
      ephemeral = validate_quantity-IsQuantity v _ def.ephemeral q.ephemeral full.ephemeral;
      cpu_alloc = validate_quantity-IsQuantity v _ def.cpu_alloc q.cpu_alloc full.cpu_alloc;
      mem_alloc = validate_quantity-IsQuantity v _ def.mem_alloc q.mem_alloc full.mem_alloc;
    }
merged_template-IsUsable v gid def (some t) d o full =
    let q = validate_template-AreQuantities v (codes "shared default") def d in
    let r = validate_template-AreQuantities v gid t o in
    record {
      cpu = or_default-IsQuantity v gid t.cpu def.cpu r.cpu q.cpu full.cpu;
      memory = or_default-IsQuantity v gid t.memory def.memory r.memory q.memory full.memory;
      pods = or_default-IsQuantity v gid t.pods def.pods r.pods q.pods full.pods;
      ephemeral =
          or_default-IsQuantity v gid t.ephemeral def.ephemeral r.ephemeral q.ephemeral
            full.ephemeral;
      cpu_alloc =
          or_default-IsQuantity v gid t.cpu_alloc def.cpu_alloc r.cpu_alloc q.cpu_alloc
            full.cpu_alloc;
      mem_alloc =
          or_default-IsQuantity v gid t.mem_alloc def.mem_alloc r.mem_alloc q.mem_alloc
            full.mem_alloc;
    }
