-- ===== src/Userdata/Json.antt =====
-- What encoding/json makes of the values that `buildNodeSpec` marshals: an object's fields sorted by
-- their keys, and texts with the escapes that are safe in HTML. Bytes from 128 on are passed through.
use ens_provider.Prelude.{
  ℕ, ◌+◌, ◌-◌, ◌/◌, ◌%◌, Bool, true, false, ◌&&◌, ◌||◌, List, [], ◌∷◌, ◌++◌, Str, codes, str_eq,
  ltb, ◌==◌, if◌then◌else◌,
}

mutual
  pub data Value : Type 0 where
    text : Str → Value
    flag : Bool → Value
    array : Items → Value
    object : Fields → Value

  pub data Items : Type 0 where
    nil : Items
    cons : Value → Items → Items

  pub data Fields : Type 0 where
    end : Fields
    field : Str → Value → Fields → Fields

abbrev hex_digit : ℕ → ℕ
hex_digit d = if ltb d 10 then b'0' + d else b'a' + d - 10

-- One byte of a text.
unfoldable pub escape : ℕ → Str
escape c =
    if c == b'"' || c == b'\\'
    then b'\\' ∷ c ∷ []
    else if c == 8
    then codes "\\b"
    else if c == 9
    then codes "\\t"
    else if c == 10
    then codes "\\n"
    else if c == 12
    then codes "\\f"
    else if c == 13
    then codes "\\r"
    else if ltb c 32 || c == b'<' || c == b'>' || c == b'&'
    then codes "\\u00" ++ hex_digit (c / 16) ∷ hex_digit (c % 16) ∷ []
    else c ∷ []

unfoldable pub escape_all : Str → Str
unfolding escape
escape_all [] = []
escape_all (c ∷ s) = escape c ++ escape_all s

unfoldable pub quote_text : Str → Str
unfolding escape_all
quote_text s = b'"' ∷ (escape_all s ++ b'"' ∷ [])

abbrev flag_text : Bool → Str
flag_text true = codes "true"
flag_text false = codes "false"

abbrev item_separator : Items → Str
item_separator nil = []
item_separator (cons x xs) = codes ","

abbrev field_separator : Fields → Str
field_separator end = []
field_separator (field k x fs) = codes ","

-- json.Marshal
unfoldable mutual
  unfolding quote_text

  pub marshal : Value → Str
  marshal (text s) = quote_text s
  marshal (flag b) = flag_text b
  marshal (array xs) = b'[' ∷ (marshal_items xs ++ b']' ∷ [])
  marshal (object fs) = b'{' ∷ (marshal_fields fs ++ b'}' ∷ [])

  pub marshal_items : Items → Str
  marshal_items nil = []
  marshal_items (cons x xs) = marshal x ++ (item_separator xs ++ marshal_items xs)

  pub marshal_fields : Fields → Str
  marshal_fields end = []
  marshal_fields (field k x fs) =
      quote_text k ++ (b':' ∷ (marshal x ++ (field_separator fs ++ marshal_fields fs)))

-- The order of two keys: by their bytes.
unfoldable pub str_ltb : Str → Str → Bool
str_ltb s [] = false
str_ltb [] (b ∷ t) = true
str_ltb (a ∷ s) (b ∷ t) = ltb a b || ((a == b) && str_ltb s t)

-- A field among the sorted ones, in the place of one with the same key.
unfoldable pub set_field : Str → Value → Fields → Fields
unfolding str_ltb
set_field k x end = field k x end
set_field k x (field j y fs) =
    if str_eq k j
    then field k x fs
    else if str_ltb k j
    then field k x (field j y fs)
    else field j y (set_field k x fs)

-- The object of a map, of which the first entry of a key counts.
unfoldable pub sort_fields : List (Str × Value) → Fields
unfolding set_field
sort_fields [] = end
sort_fields ((k, x) ∷ rest) = set_field k x (sort_fields rest)
