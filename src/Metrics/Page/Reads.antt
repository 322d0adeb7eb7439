-- ===== src/Metrics/Page/Reads.antt =====
-- What a reader of the page finds.
use ens_provider.Prelude.{
  ℕ, ◌≡◌, refl, ap, ◌∙◌, Bool, true, false, ◌&&◌, Option, none, some, List, [], ◌∷◌, ◌++◌, Str,
  codes, All, map, leb, ◌==◌, has_prefix, trim_prefix, decimal, unsigned_value,
  unsigned_value-decimal, decimal-All, arith, if◌then◌else◌,
}
use ens_provider.Metrics.{Metrics}
use ens_provider.Metrics.Page.{Line, comment, series, line_text, page, page_text, render}

abbrev cons_byte : ℕ → List Str → List Str
cons_byte c [] = (c ∷ []) ∷ []
cons_byte c (l ∷ ls) = (c ∷ l) ∷ ls

-- A text by its lines, each of which a newline ends.
unfoldable pub lines_of : Str → List Str
lines_of [] = []
lines_of (c ∷ s) = let rest = lines_of s in if c == 10 then [] ∷ rest else cons_byte c rest

-- The value of the first line that begins with the name of a series and a space.
unfoldable pub find_series : Str → List Str → Option ℕ
find_series name [] = none
find_series name (l ∷ ls) =
    let rest = find_series name ls in
    let start = name ++ b' ' ∷ [] in
    if has_prefix l start then unsigned_value (trim_prefix l start) else rest

unfoldable pub read_series : Str → Str → Option ℕ
unfolding lines_of find_series
read_series name text = find_series name (lines_of text)

-- No newline.
abbrev IsOneLine : Str → Type 0
IsOneLine = All (λ c. (c == 10) ≡ false)

lines_of-line : (l t : Str) → IsOneLine l → lines_of (l ++ (10 ∷ t)) ≡ l ∷ lines_of t
unfolding lines_of
lines_of-line [] t h = refl
lines_of-line (c ∷ l) t h = rw (h.0, lines_of-line l t h.1) refl

lines_of-page :
    (ls : List Line)
    → All (λ l. IsOneLine (line_text l)) ls
    → lines_of (page_text ls) ≡ map line_text ls
unfolding page_text lines_of
lines_of-page [] h = refl
lines_of-page (l ∷ ls) h =
    lines_of-line (line_text l) (page_text ls) h.0
    ∙ ap (λ k. line_text l ∷ k) (lines_of-page ls h.1)

one_line : Str → Bool
one_line [] = true
one_line (c ∷ s) = (if c == 10 then false else true) && one_line s

IsOneLine-of : (s : Str) → one_line s ≡ true → IsOneLine s
unfolding one_line
IsOneLine-of [] h = tt
IsOneLine-of (c ∷ s) h = (ground arith, IsOneLine-of s (ground arith))

All-append : (P : ℕ → Type 0) (s t : Str) → All P s → All P t → All P (s ++ t)
All-append P [] t h k = k
All-append P (c ∷ s) t h k = (h.0, All-append P s t h.1 k)

digits_line : (s : Str) → All (λ c. leb 48 c ≡ true) s → IsOneLine s
digits_line [] h = tt
digits_line (c ∷ s) h = (ground (arith, h.0), digits_line s h.1)

-- A line of the page is one line where its literal part is.
literal : Line → Str
literal (comment s) = s
literal (series name n) = name

line_text-IsOneLine : (l : Line) → one_line (literal l) ≡ true → IsOneLine (line_text l)
unfolding literal line_text
line_text-IsOneLine (comment s) h = IsOneLine-of s h
line_text-IsOneLine (series name n) h =
    All-append _ name (b' ' ∷ decimal n) (IsOneLine-of name h)
      (refl, digits_line (decimal n) (decimal-All n))

all_one_line : List Line → Bool
unfolding literal one_line
all_one_line [] = true
all_one_line (l ∷ ls) = one_line (literal l) && all_one_line ls

page-IsOneLine : (ls : List Line) → all_one_line ls ≡ true → All (λ l. IsOneLine (line_text l)) ls
unfolding all_one_line
page-IsOneLine [] h = tt
page-IsOneLine (l ∷ ls) h = (line_text-IsOneLine l (ground arith), page-IsOneLine ls (ground arith))

lines_of-render : (m : Metrics) → lines_of (render m) ≡ map line_text (page m)
unfolding render all_one_line
lines_of-render m = lines_of-page (page m) (page-IsOneLine (page m) refl)

found :
    (m : Metrics) (name : Str) (v : ℕ)
    → find_series name (map line_text (page m)) ≡ unsigned_value (decimal v)
    → read_series name (render m) ≡ some v
unfolding read_series
found m name v e = ap (find_series name) (lines_of-render m) ∙ e ∙ unsigned_value-decimal v

-- Every series of the page reads back as the counter or the gauge that it is named for, whatever the
-- values of the others are.
pub render-series :
    (m : Metrics)
    → (read_series (codes "ens_provider_orders_total{outcome=\"success\"}") (render m)
        ≡ some m.orders_success)
      × (read_series (codes "ens_provider_orders_total{outcome=\"failure\"}") (render m)
          ≡ some m.orders_failure)
      × (read_series (codes "ens_provider_orders_total{outcome=\"ambiguous\"}") (render m)
          ≡ some m.orders_ambiguous)
      × (read_series (codes "ens_provider_instances_released_total") (render m) ≡ some m.released)
      × (read_series (codes "ens_provider_release_failures_total") (render m)
          ≡ some m.release_failures)
      × (read_series (codes "ens_provider_reservations_expired_total") (render m)
          ≡ some m.reservations_expired)
      × (read_series (codes "ens_provider_owned_instances") (render m) ≡ some m.owned)
      × (read_series (codes "ens_provider_unjoined_instances") (render m) ≡ some m.unjoined)
      × (read_series (codes "ens_provider_is_leader") (render m) ≡ some m.is_leader)
      × (read_series (codes "ens_provider_routing_published") (render m) ≡ some m.routing_published)
      × (read_series (codes "ens_provider_leadership_transitions_total") (render m)
          ≡ some m.leadership_transitions)
unfolding find_series line_text has_prefix trim_prefix
render-series m = (
  found m _ _ refl,
  found m _ _ refl,
  found m _ _ refl,
  found m _ _ refl,
  found m _ _ refl,
  found m _ _ refl,
  found m _ _ refl,
  found m _ _ refl,
  found m _ _ refl,
  found m _ _ refl,
  found m _ _ refl,
)
