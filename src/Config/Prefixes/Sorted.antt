-- ===== src/Config/Prefixes/Sorted.antt =====
-- The prefixes, the longest first, where none is nested in another.
use ens_provider.Prelude.{
  ℕ, ◌≤◌, ◌≡◌, refl, sym, ◌∙◌, inl, inr, true, false, List, [], ◌∷◌, Str, has_prefix,
  has_prefix_shorter, length, leb, count_if, map, All, In, arith, Bool-cases,
}
use ens_provider.Config.{Group}
use ens_provider.Config.Load.{insert_prefix, sort_prefixes, extends_one, prefixes_nested, prefix_of}

-- The longest come first.
pub AreLongestFirst : List Str → Type 0
AreLongestFirst [] = Unit
AreLongestFirst (p ∷ ps) = All (λ (q : Str). length q ≤ length p) ps × AreLongestFirst ps

pub fits_count : Str → List Str → ℕ
fits_count name = count_if (λ (p : Str). has_prefix name p)

All-weaken :
    (a b : ℕ) (qs : List Str)
    → a ≤ b
    → All (λ (q : Str). length q ≤ a) qs
    → All (λ (q : Str). length q ≤ b) qs
All-weaken a b [] le h = tt
All-weaken a b (q ∷ qs) le h = (omega (arith, le), All-weaken a b qs le h.1)

insert_prefix-All :
    (n : ℕ) (p : Str) (qs : List Str)
    → length p ≤ n
    → All (λ (q : Str). length q ≤ n) qs
    → All (λ (q : Str). length q ≤ n) (insert_prefix p qs)
unfolding insert_prefix
insert_prefix-All n p [] le h = (le, tt)
insert_prefix-All n p (q ∷ qs) le h = elim (Bool-cases (leb (length q) (length p))) [
  | inl e ↦ rw e (le, h)
  | inr e ↦ rw e (h.0, insert_prefix-All n p qs le h.1)
]

insert_prefix-AreLongestFirst :
    (p : Str) (qs : List Str) → AreLongestFirst qs → AreLongestFirst (insert_prefix p qs)
unfolding insert_prefix AreLongestFirst
insert_prefix-AreLongestFirst p [] h = (tt, tt)
insert_prefix-AreLongestFirst p (q ∷ qs) h = elim (Bool-cases (leb (length q) (length p))) [
  | inl e ↦
      (let le : length q ≤ length p = ground (arith, e) in
        rw e ((le, All-weaken (length q) (length p) qs le h.0), h))
  | inr e ↦
      (let le : length p ≤ length q = ground (arith, e) in
        rw e (insert_prefix-All (length q) p qs le h.0, insert_prefix-AreLongestFirst p qs h.1))
]

pub sort_prefixes-AreLongestFirst : (ps : List Str) → AreLongestFirst (sort_prefixes ps)
unfolding sort_prefixes AreLongestFirst
sort_prefixes-AreLongestFirst [] = tt
sort_prefixes-AreLongestFirst (p ∷ ps) =
    insert_prefix-AreLongestFirst p (sort_prefixes ps) (sort_prefixes-AreLongestFirst ps)

fits_count-insert_prefix :
    (name p : Str) (qs : List Str) → fits_count name (insert_prefix p qs) ≡ fits_count name (p ∷ qs)
unfolding insert_prefix fits_count
fits_count-insert_prefix name p [] = refl
fits_count-insert_prefix name p (q ∷ qs) = elim (Bool-cases (leb (length q) (length p))) [
  | inl e ↦ rw e refl
  | inr e ↦ rw e (let h = fits_count-insert_prefix name p qs in omega (arith, h))
]

pub fits_count-sort_prefixes :
    (name : Str) (ps : List Str) → fits_count name (sort_prefixes ps) ≡ fits_count name ps
unfolding sort_prefixes fits_count
fits_count-sort_prefixes name [] = refl
fits_count-sort_prefixes name (p ∷ ps) =
    let a = fits_count-insert_prefix name p (sort_prefixes ps) in
    let b = fits_count-sort_prefixes name ps in omega (arith, a, b)

-- A prefix of the name that no shorter one extends leaves no room for a second.
fits_none :
    (name p : Str) (qs : List Str)
    → has_prefix name p ≡ true
    → All (λ (q : Str). length q ≤ length p) qs
    → extends_one p qs ≡ false
    → fits_count name qs ≡ 0
unfolding extends_one fits_count
fits_none name p [] fits le e = refl
fits_none name p (q ∷ qs) fits le e = elim (Bool-cases (has_prefix name q)) [
  | inl also ↦
      (let nested = has_prefix_shorter name p q fits also le.0 in let bad = rw nested at e in cc)
  | inr off ↦
      (let later = fits_none name p qs fits le.1 (ground (arith, e)) in
        rw off (omega (arith, later)))
]

pub fits_one :
    (name : Str) (ps : List Str)
    → AreLongestFirst ps
    → prefixes_nested ps ≡ false
    → fits_count name ps ≤ 1
unfolding prefixes_nested fits_count AreLongestFirst
fits_one name [] sorted e = omega arith
fits_one name (p ∷ ps) sorted e = elim (Bool-cases (has_prefix name p)) [
  | inl fits ↦
      (let apart : extends_one p ps ≡ false = ground (arith, e) in
        let rest = fits_none name p ps fits sorted.0 apart in rw fits (omega (arith, rest)))
  | inr off ↦
      (let rest = fits_one name ps sorted.1 (ground (arith, e)) in rw off (omega (arith, rest)))
]

fits_count_pos :
    (name : Str) (gs : List Group) (g : Group)
    → In g gs
    → has_prefix name g.name_prefix ≡ true
    → 1 ≤ fits_count name (map prefix_of gs)
unfolding fits_count
fits_count_pos name [] g h fits = absurd h
fits_count_pos name (x ∷ gs) g (inl p) fits = let fits' = rw p at fits in rw fits' (omega arith)
fits_count_pos name (x ∷ gs) g (inr h) fits =
    let later = fits_count_pos name gs g h fits in omega (arith, later)

pub fits_unique :
    (name : Str) (gs : List Group) (g h : Group)
    → fits_count name (map prefix_of gs) ≤ 1
    → In g gs
    → In h gs
    → has_prefix name g.name_prefix ≡ true
    → has_prefix name h.name_prefix ≡ true
    → g ≡ h
unfolding fits_count
fits_unique name [] g h few a b fg fh = absurd a
fits_unique name (x ∷ gs) g h few (inl p) (inl q) fg fh = p ∙ sym q
fits_unique name (x ∷ gs) g h few (inl p) (inr b) fg fh =
    let fx = rw p at fg in
    let later = fits_count_pos name gs h b fh in
    let few' = rw fx at few in absurd (omega (arith, later, few'))
fits_unique name (x ∷ gs) g h few (inr a) (inl q) fg fh =
    let fx = rw q at fh in
    let later = fits_count_pos name gs g a fg in
    let few' = rw fx at few in absurd (omega (arith, later, few'))
fits_unique name (x ∷ gs) g h few (inr a) (inr b) fg fh =
    fits_unique name gs g h (omega (arith, few)) a b fg fh
