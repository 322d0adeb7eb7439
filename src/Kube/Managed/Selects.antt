-- ===== src/Kube/Managed/Selects.antt =====
-- Which Nodes the selector of ListManagedNodes asks for, by the syntax of label selectors.
use ens_provider.Prelude.{
  ℕ, ◌≡◌, refl, sym, ap, ◌∙◌, ◌⊎◌, inl, inr, ◌↔◌, Bool, true, false, Option, none, some, List, [],
  ◌∷◌, ◌++◌, Str, codes, str_eq, str_eq→eq, has_prefix, trim_prefix, has_prefix-append,
  trim_prefix-append, append-nil, append_assoc, subst, All, In, ◌==◌, ℤ, Bool-cases, if◌then◌else◌,
}
use ens_provider.Config.{Config, Group, nodepool_label}
use ens_provider.Config.Validate.{Validators, validate_template, validate}
use ens_provider.Config.Validate.Lookup.{then_error-none, validate_groups-IsSound}
use ens_provider.Config.Load.{loaded, load_config}
use ens_provider.Config.Prefixes.{load_config-IsLoaded}
use ens_provider.Userdata.Json.{str_ltb}
use ens_provider.Userdata.Quoting.Validated.{accepted}
use ens_provider.Kube.Managed.{insert_text, nodepool_ids, join_commas, managed_selector}

abbrev cons_byte : ℕ → List Str → List Str
cons_byte c [] = (c ∷ []) ∷ []
cons_byte c (s ∷ ss) = (c ∷ s) ∷ ss

-- A list of values, split at its commas.
unfoldable pub split_commas : Str → List Str
split_commas [] = [] ∷ []
split_commas (c ∷ s) =
    let rest = split_commas s in if c == b',' then [] ∷ rest else cons_byte c rest

unfoldable pub before_bracket : Str → Str
before_bracket [] = []
before_bracket (c ∷ s) = if c == b')' then [] else c ∷ before_bracket s

-- The values that a selector `key in (...)` accepts of its label; none, where it is of another form.
unfoldable pub values_of : Str → Str → Option (List Str)
unfolding split_commas before_bracket
values_of key selector =
    let start = key ++ codes " in (" in
    if has_prefix selector start
    then some (split_commas (before_bracket (trim_prefix selector start)))
    else none

-- A byte that means nothing in a list of values.
abbrev pub IsValueByte : ℕ → Type 0
IsValueByte c = ((c == b',') ≡ false) × ((c == b')') ≡ false)

-- Label values, as the validators of Kubernetes check them, have no comma and no bracket.
pub record ArePlainValues (v : Validators) : Type 0 where
  pub values : (s : Str) → v.is_label_value s ≡ true → All IsValueByte s

insert_text-In :
    (s t : Str) (l : List Str)
    → (In s (insert_text t l) → (s ≡ t) ⊎ In s l) × ((s ≡ t) ⊎ In s l → In s (insert_text t l))
unfolding insert_text
insert_text-In s t [] = (λ h. h, λ h. h)
insert_text-In s t (u ∷ l) = elim (Bool-cases (str_eq t u)) [
  | inl p ↦ rw p (
      let same = str_eq→eq t u p in
      (λ h. inr h, λ h. elim h [ inl e ↦ inl (e ∙ same) | inr k ↦ k ]))
  | inr p ↦ rw p (elim (Bool-cases (str_ltb t u)) [
    | inl q ↦ rw q (λ h. h, λ h. h)
    | inr q ↦ rw q (
      λ h. elim h [
        | inl e ↦ inr (inl e)
        | inr k ↦ elim ((insert_text-In s t l).0 k) [ inl e ↦ inl e | inr j ↦ inr (inr j) ]
      ],
      λ h. elim h [
        | inl e ↦ inr ((insert_text-In s t l).1 (inl e))
        | inr k ↦ elim k [ inl e ↦ inl e | inr j ↦ inr ((insert_text-In s t l).1 (inr j)) ]
      ],
    )
  ])
]

-- The set has the nodepools of the groups, and nothing else.
nodepool_ids-In :
    (s : Str) (gs : List Group)
    → (In s (nodepool_ids gs) → (h : Group) × In h gs × (h.nodepool_id ≡ s))
      × ((h : Group) → In h gs → h.nodepool_id ≡ s → In s (nodepool_ids gs))
unfolding nodepool_ids
nodepool_ids-In s [] = (λ h. absurd h, λ h k e. absurd k)
nodepool_ids-In s (g ∷ gs) = (
  λ h. elim ((insert_text-In s g.nodepool_id (nodepool_ids gs)).0 h) [
    | inl e ↦ (g, inl refl, sym e)
    | inr k ↦ (let (x, listed, e) = (nodepool_ids-In s gs).0 k in (x, inr listed, e))
  ],
  λ h k e. (insert_text-In s g.nodepool_id (nodepool_ids gs)).1 (elim k [
    | inl same ↦ inl (sym e ∙ ap (λ x. x.nodepool_id) same)
    | inr later ↦ inr ((nodepool_ids-In s gs).1 h later e)
  ]),
)

All-In : {A : Type 0} (P : A → Type 0) (l : List A) → ((x : A) → In x l → P x) → All P l
All-In P [] h = tt
All-In P (x ∷ l) h = (h x (inl refl), All-In P l (λ y k. h y (inr k)))

split_commas-last : (s : Str) → All IsValueByte s → split_commas s ≡ s ∷ []
unfolding split_commas
split_commas-last [] h = refl
split_commas-last (c ∷ s) h = rw (h.0.0, split_commas-last s h.1) refl

split_commas-append :
    (s t : Str) → All IsValueByte s → split_commas (s ++ (b',' ∷ t)) ≡ s ∷ split_commas t
unfolding split_commas
split_commas-append [] t h = refl
split_commas-append (c ∷ s) t h = rw (h.0.0, split_commas-append s t h.1) refl

split_commas-join :
    (s : Str) (ts : List Str)
    → All (All IsValueByte) (s ∷ ts)
    → split_commas (join_commas (s ∷ ts)) ≡ s ∷ ts
unfolding join_commas
split_commas-join s [] h = split_commas-last s h.0
split_commas-join s (t ∷ ts) h =
    split_commas-append s (join_commas (t ∷ ts)) h.0 ∙ ap (λ l. s ∷ l) (split_commas-join t ts h.1)

before_bracket-append :
    (s t : Str) → All IsValueByte s → before_bracket (s ++ t) ≡ s ++ before_bracket t
unfolding before_bracket
before_bracket-append [] t h = refl
before_bracket-append (c ∷ s) t h = rw (h.0.1, before_bracket-append s t h.1) refl

before_bracket-join :
    (l : List Str) (rest : Str)
    → All (All IsValueByte) l
    → before_bracket (join_commas l ++ (b')' ∷ rest)) ≡ join_commas l
unfolding join_commas before_bracket
before_bracket-join [] rest h = refl
before_bracket-join (s ∷ []) rest h = before_bracket-append s (b')' ∷ rest) h.0 ∙ append-nil s
before_bracket-join (s ∷ t ∷ ts) rest h =
    ap before_bracket (append_assoc s (b',' ∷ join_commas (t ∷ ts)) (b')' ∷ rest))
    ∙ before_bracket-append s (b',' ∷ (join_commas (t ∷ ts) ++ (b')' ∷ rest))) h.0
    ∙ ap (λ l. s ++ (b',' ∷ l)) (before_bracket-join (t ∷ ts) rest h.1)

values_of-selector :
    (key s : Str) (ts : List Str)
    → All (All IsValueByte) (s ∷ ts)
    → values_of key (key ++ (codes " in (" ++ (join_commas (s ∷ ts) ++ codes ")"))) ≡ some (s ∷ ts)
unfolding values_of
values_of-selector key s ts h =
    let start = key ++ codes " in (" in
    let rest = join_commas (s ∷ ts) ++ codes ")" in
    let place : key ++ (codes " in (" ++ rest) ≡ start ++ rest =
      sym (append_assoc key (codes " in (") rest) in
    let values : split_commas (before_bracket rest) ≡ s ∷ ts =
      ap split_commas (before_bracket-join (s ∷ ts) [] h) ∙ split_commas-join s ts h in
    ap (values_of key) place
    ∙ rw (has_prefix-append start rest, trim_prefix-append start rest) (ap some values)

not_empty_selector :
    (key s : Str) (l : List Str)
    → In s l
    → All (All IsValueByte) l
    → values_of key (key ++ (codes " in (" ++ (join_commas l ++ codes ")"))) ≡ some l
not_empty_selector key s [] listed h = absurd listed
not_empty_selector key s (t ∷ ts) listed h = values_of-selector key t ts h

group-IsValue :
    (v : Validators) (c : Config) (g : Group)
    → ArePlainValues v
    → validate v c ≡ none
    → In g c.groups
    → All IsValueByte g.nodepool_id
unfolding validate
group-IsValue v c g q e listed =
    let later =
      (then_error-none (validate_template v (codes "shared default") c.def_template) _ e).1 in
    let sound = validate_groups-IsSound v c [] [] c.groups g later listed in
    q.values g.nodepool_id (accepted (v.is_label_value g.nodepool_id) sound.nodepool_ok)

-- With a configuration that LoadConfig returned and that has a group, and with validators that accept
-- no label value with a comma or a closing bracket, the selector of ListManagedNodes reads as a list
-- of values of the nodepool label; and its values are the nodepools of the groups, all of them and no
-- others.
pub managed_selector-values :
    (v : Validators) (exceeds_1_2 : ℤ → ℤ → Bool) (parse_duration : Str → Option ℤ) (c d : Config)
    (ttl : Str) (gs : List Group) (g : Group)
    → ArePlainValues v
    → load_config v exceeds_1_2 parse_duration c ttl gs ≡ loaded d
    → In g d.groups
    → (values : List Str) × (values_of nodepool_label (managed_selector d) ≡ some values)
      × ((s : Str) → In s values ↔ ((h : Group) × In h d.groups × (h.nodepool_id ≡ s)))
unfolding managed_selector
managed_selector-values v exceeds_1_2 parse_duration c d ttl gs g q h listed =
    let valid = (load_config-IsLoaded v exceeds_1_2 parse_duration c d ttl gs h).valid in
    let ids = nodepool_ids d.groups in
    let plain = All-In (All IsValueByte) ids (λ s k.
      let (x, there, e) = (nodepool_ids-In s d.groups).0 k in
      subst (All IsValueByte) e (group-IsValue v d x q valid there)) in
    let first = (nodepool_ids-In g.nodepool_id d.groups).1 g listed refl in
    (
      ids,
      not_empty_selector nodepool_label g.nodepool_id ids first plain,
      λ s. ((nodepool_ids-In s d.groups).0, λ k. (nodepool_ids-In s d.groups).1 k.0 k.1 k.2),
    )
