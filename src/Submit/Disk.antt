-- ===== src/Submit/Disk.antt =====
-- ens.go: the parameter SystemDisk of an order, as json.Marshal prints it.
use ens_provider.Prelude.{
  ℕ, Bool, false, ◌&&◌, ◌||◌, Option, none, some, [], ◌∷◌, ◌++◌, Str, codes, is_empty, ◌==◌, leb,
  if◌then◌else◌,
}
use ens_provider.Config.{Group}
use ens_provider.Userdata.Json.{quote_text}

abbrev is_digit : ℕ → Bool
is_digit c = leb b'0' c && leb c b'9'

unfoldable pub skip_digits : Str → Str
skip_digits [] = []
skip_digits (c ∷ s) = if is_digit c then skip_digits s else c ∷ s

abbrev without_minus : Str → Str
without_minus [] = []
without_minus (c ∷ s) = if c == b'-' then s else c ∷ s

abbrev after_integer : Str → Option Str
unfolding skip_digits
after_integer [] = none
after_integer (c ∷ s) =
    if c == b'0' then some s else if is_digit c then some (skip_digits s) else none

abbrev after_fraction : Str → Str
unfolding skip_digits
after_fraction [] = []
after_fraction (c ∷ []) = c ∷ []
after_fraction (c ∷ d ∷ s) = if c == b'.' && is_digit d then skip_digits s else c ∷ d ∷ s

abbrev after_exponent : Str → Option Str
unfolding skip_digits
after_exponent [] = some []
after_exponent (c ∷ []) = some (c ∷ [])
after_exponent (c ∷ d ∷ s) =
    if c == b'e' || c == b'E'
    then if d == b'+' || d == b'-'
      then if is_empty s then none else some (skip_digits s)
      else some (skip_digits (d ∷ s))
    else some (c ∷ d ∷ s)

abbrev ends_number : Option Str → Bool
ends_number none = false
ends_number (some s) = is_empty s

abbrev ends_integer : Option Str → Bool
unfolding after_fraction after_exponent
ends_integer none = false
ends_integer (some s) = ends_number (after_exponent (after_fraction s))

-- isValidNumber of encoding/json.
unfoldable pub is_json_number : Str → Bool
unfolding after_integer ends_integer
is_json_number s = ends_integer (after_integer (without_minus s))

-- What json.Marshal prints of a json.Number: an empty one is 0, and one that is no JSON number fails.
unfoldable pub marshal_number : Str → Option Str
unfolding is_json_number
marshal_number s =
    if is_empty s then some (codes "0") else if is_json_number s then some s else none

-- The parameter SystemDisk. The error of json.Marshal is dropped, and leaves the empty text.
unfoldable pub system_disk : Group → Str
unfolding marshal_number quote_text
system_disk g = elim (marshal_number g.disk_size) [
  | none ↦ []
  | some size ↦
      codes "{\"Category\":"
      ++ (quote_text g.disk_category ++ (codes ",\"Size\":" ++ (size ++ codes "}")))
]
