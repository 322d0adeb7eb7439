-- ===== src/Prelude/Text.antt =====
-- Go strings: lists of bytes, with the tests and searches of package `strings` that the program uses.
use Prim.Native.Nat.{ℕ, suc, ◌≤◌}
use Prim.Native.Char.{code}
use Prim.Native.String.{String}
use mathlib.Core.Path.{◌≡◌, refl}
use mathlib.Core.Logic.{◌↔◌}
use mathlib.Core.Bool.{Bool, true, false, ◌&&◌, ◌||◌}
use mathlib.Core.List.{List, [], ◌∷◌, ◌++◌}
use mathlib.Core.Option.{Option, none, some}
use native.Mathlib.Omega.{arith}
use ens_provider.Prelude.Tests.{◌==◌, if◌then◌else◌}
use ens_provider.Prelude.Lists.{length}

abbrev pub Str : Type 0
Str = List ℕ

-- The bytes of an ASCII literal.
abbrev pub codes : String → Str
codes String.[] = []
codes (String.◌∷◌ c s) = code c ∷ codes s

unfoldable pub str_eq : Str → Str → Bool
str_eq [] [] = true
str_eq (a ∷ s) (b ∷ t) = (a == b) && str_eq s t
str_eq _ _ = false

unfoldable pub is_empty : Str → Bool
is_empty [] = true
is_empty (c ∷ s) = false

-- strings.HasPrefix(s, prefix)
unfoldable pub has_prefix : Str → Str → Bool
has_prefix s [] = true
has_prefix [] (b ∷ t) = false
has_prefix (a ∷ s) (b ∷ t) = (a == b) && has_prefix s t

drop_prefix : Str → Str → Str
drop_prefix s [] = s
drop_prefix [] (b ∷ t) = []
drop_prefix (a ∷ s) (b ∷ t) = drop_prefix s t

-- strings.TrimPrefix(s, prefix)
unfoldable pub trim_prefix : Str → Str → Str
unfolding has_prefix drop_prefix
trim_prefix s prefix = if has_prefix s prefix then drop_prefix s prefix else s

-- strings.Contains(s, part)
unfoldable pub contains : Str → Str → Bool
unfolding has_prefix
contains [] part = has_prefix [] part
contains (a ∷ s) part = has_prefix (a ∷ s) part || contains s part

pub str_eq_refl : (s : Str) → str_eq s s ≡ true
unfolding str_eq
str_eq_refl [] = refl
str_eq_refl (a ∷ s) = ground (arith, str_eq_refl s)

pub str_eq→eq : (s t : Str) → str_eq s t ≡ true → s ≡ t
unfolding str_eq
str_eq→eq [] [] h = refl
str_eq→eq (a ∷ s) (b ∷ t) h = ground (arith, str_eq→eq s t)
str_eq→eq [] (b ∷ t) h = cc
str_eq→eq (a ∷ s) [] h = cc

pub str_eq_iff : (s t : Str) → (str_eq s t ≡ true) ↔ (s ≡ t)
str_eq_iff s t = (str_eq→eq s t, λ e. rw e (str_eq_refl t))

pub is_empty→eq : (s : Str) → is_empty s ≡ true → s ≡ []
unfolding is_empty
is_empty→eq [] h = refl
is_empty→eq (a ∷ s) h = cc

pub has_prefix-append : (p s : Str) → has_prefix (p ++ s) p ≡ true
unfolding has_prefix
has_prefix-append [] s = refl
has_prefix-append (a ∷ p) s = ground (arith, has_prefix-append p s)

pub has_prefix_refl : (p : Str) → has_prefix p p ≡ true
unfolding has_prefix
has_prefix_refl [] = refl
has_prefix_refl (a ∷ p) = ground (arith, has_prefix_refl p)

drop_prefix-append : (p s : Str) → drop_prefix (p ++ s) p ≡ s
unfolding drop_prefix
drop_prefix-append [] s = refl
drop_prefix-append (a ∷ p) s = drop_prefix-append p s

pub trim_prefix-append : (p s : Str) → trim_prefix (p ++ s) p ≡ s
unfolding trim_prefix
trim_prefix-append p s = rw (has_prefix-append p s) (drop_prefix-append p s)

append-drop_prefix : (s p : Str) → has_prefix s p ≡ true → p ++ drop_prefix s p ≡ s
unfolding has_prefix drop_prefix
append-drop_prefix s [] h = refl
append-drop_prefix [] (b ∷ p) h = cc
append-drop_prefix (a ∷ s) (b ∷ p) h = ground (arith, append-drop_prefix s p)

-- A text with a prefix is the prefix and what `TrimPrefix` leaves.
pub append-trim_prefix : (s p : Str) → has_prefix s p ≡ true → p ++ trim_prefix s p ≡ s
unfolding trim_prefix
append-trim_prefix s p h = rw h (append-drop_prefix s p h)

-- Of two prefixes of one text, the shorter is a prefix of the longer.
pub has_prefix_shorter :
    (s p q : Str)
    → has_prefix s p ≡ true
    → has_prefix s q ≡ true
    → length q ≤ length p
    → has_prefix p q ≡ true
unfolding has_prefix
has_prefix_shorter s p [] hp hq le = refl
has_prefix_shorter s [] (b ∷ q) hp hq le = elim le [ ]
has_prefix_shorter [] (a ∷ p) (b ∷ q) hp hq le = cc
has_prefix_shorter (c ∷ s) (a ∷ p) (b ∷ q) hp hq le = ground (arith, has_prefix_shorter s p q)

pub has_prefix-le : (s p : Str) → has_prefix s p ≡ true → length p ≤ length s
unfolding has_prefix
has_prefix-le s [] h = omega arith
has_prefix-le [] (b ∷ p) h = cc
has_prefix-le (a ∷ s) (b ∷ p) h = ground (arith, has_prefix-le s p)

pub has_prefix_trans :
    (s p q : Str) → has_prefix s p ≡ true → has_prefix p q ≡ true → has_prefix s q ≡ true
unfolding has_prefix
has_prefix_trans s p [] hp hq = refl
has_prefix_trans s [] (b ∷ q) hp hq = cc
has_prefix_trans [] (a ∷ p) (b ∷ q) hp hq = cc
has_prefix_trans (c ∷ s) (a ∷ p) (b ∷ q) hp hq = ground (arith, has_prefix_trans s p q)

-- strings.Index(s, c) for a one-byte pattern
unfoldable pub index_byte : ℕ → Str → Option ℕ
index_byte c [] = none
index_byte c (a ∷ s) =
    if a == c then some 0 else (elim (index_byte c s) [ none ↦ none | some i ↦ some (suc i) ])

pub index_byte-append :
    (c : ℕ) (s t : Str) → index_byte c s ≡ none → index_byte c (s ++ c ∷ t) ≡ some (length s)
unfolding index_byte
index_byte-append c [] t h = ground arith
index_byte-append c (a ∷ s) t h = ground (arith, index_byte-append c s t)
