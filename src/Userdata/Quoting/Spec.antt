-- ===== src/Userdata/Quoting/Spec.antt =====
-- When the node spec holds no single quote.
use ens_provider.Prelude.{
  ℕ, ◌≡◌, refl, true, false, List, [], ◌∷◌, ◌++◌, Str, str_eq, ◌==◌, All, arith, if-both,
}
use ens_provider.Config.{Labels}
use ens_provider.Userdata.{set_label, set_labels, label_entries}
use ens_provider.Userdata.Json.{
  Value, text, flag, array, object, Items, nil, cons, Fields, end, field, escape, escape_all,
  quote_text, marshal, marshal_items, marshal_fields, str_ltb, set_field, sort_fields,
}
use ens_provider.Userdata.Quoting.{NoQuote}

pub All-append {ℓ κ} :
    {A : Type ℓ} (P : A → Type κ) (xs ys : List A) → All P xs → All P ys → All P (xs ++ ys)
All-append P [] ys h k = k
All-append P (x ∷ xs) ys h k = (h.0, All-append P xs ys h.1 k)

escape-NoQuote : (c : ℕ) → (c == b'\'') ≡ false → NoQuote (escape c)
unfolding escape
escape-NoQuote c h = ground arith

escape_all-NoQuote : (s : Str) → NoQuote s → NoQuote (escape_all s)
unfolding escape_all
escape_all-NoQuote [] h = tt
escape_all-NoQuote (c ∷ s) h =
    All-append _ (escape c) (escape_all s) (escape-NoQuote c h.0) (escape_all-NoQuote s h.1)

quote_text-NoQuote : (s : Str) → NoQuote s → NoQuote (quote_text s)
unfolding quote_text
quote_text-NoQuote s h =
    (refl, All-append _ (escape_all s) (b'"' ∷ []) (escape_all-NoQuote s h) (refl, tt))

-- No text and no key of a value holds a quote.
unfoldable mutual
  pub IsClean : Value → Type 0
  IsClean (text s) = NoQuote s
  IsClean (flag b) = Unit
  IsClean (array xs) = AreClean xs
  IsClean (object fs) = AreCleanFields fs

  pub AreClean : Items → Type 0
  AreClean nil = Unit
  AreClean (cons x xs) = IsClean x × AreClean xs

  pub AreCleanFields : Fields → Type 0
  AreCleanFields end = Unit
  AreCleanFields (field k x fs) = NoQuote k × IsClean x × AreCleanFields fs

mutual
  unfolding marshal marshal_items marshal_fields IsClean AreClean AreCleanFields

  pub marshal-NoQuote : (x : Value) → IsClean x → NoQuote (marshal x)
  marshal-NoQuote (text s) h = quote_text-NoQuote s h
  marshal-NoQuote (flag true) h = (refl, (refl, (refl, (refl, tt))))
  marshal-NoQuote (flag false) h = (refl, (refl, (refl, (refl, (refl, tt)))))
  marshal-NoQuote (array xs) h =
      (refl, All-append _ (marshal_items xs) _ (marshal_items-NoQuote xs h) (refl, tt))
  marshal-NoQuote (object fs) h =
      (refl, All-append _ (marshal_fields fs) _ (marshal_fields-NoQuote fs h) (refl, tt))

  marshal_items-NoQuote : (xs : Items) → AreClean xs → NoQuote (marshal_items xs)
  marshal_items-NoQuote nil h = tt
  marshal_items-NoQuote (cons x nil) h = All-append _ (marshal x) _ (marshal-NoQuote x h.0) tt
  marshal_items-NoQuote (cons x (cons y ys)) h =
      All-append _ (marshal x) _ (marshal-NoQuote x h.0)
        (refl, marshal_items-NoQuote (cons y ys) h.1)

  marshal_fields-NoQuote : (fs : Fields) → AreCleanFields fs → NoQuote (marshal_fields fs)
  marshal_fields-NoQuote end h = tt
  marshal_fields-NoQuote (field k x end) h =
      All-append _ (quote_text k) _ (quote_text-NoQuote k h.0)
        (refl, All-append _ (marshal x) _ (marshal-NoQuote x h.1) tt)
  marshal_fields-NoQuote (field k x (field j y fs)) h =
      All-append _ (quote_text k) _ (quote_text-NoQuote k h.0) (
        refl,
        All-append _ (marshal x) _ (marshal-NoQuote x h.1)
            (refl, marshal_fields-NoQuote (field j y fs) h.2),
      )

abbrev pub IsCleanEntry : Str × Value → Type 0
IsCleanEntry e = NoQuote e.0 × IsClean e.1

set_field-AreClean :
    (k : Str) (x : Value) (fs : Fields)
    → NoQuote k
    → IsClean x
    → AreCleanFields fs
    → AreCleanFields (set_field k x fs)
unfolding set_field AreCleanFields
set_field-AreClean k x end h i a = (h, i, tt)
set_field-AreClean k x (field j y fs) h i a =
    let first : AreCleanFields (field k x fs) = (h, i, a.2) in
    let before : AreCleanFields (field k x (field j y fs)) = (h, i, a) in
    let after : AreCleanFields (field j y (set_field k x fs)) =
      (a.0, a.1, set_field-AreClean k x fs h i a.2) in
    if-both AreCleanFields (str_eq k j) first (if-both AreCleanFields (str_ltb k j) before after)

pub sort_fields-AreClean :
    (es : List (Str × Value)) → All IsCleanEntry es → AreCleanFields (sort_fields es)
unfolding sort_fields AreCleanFields
sort_fields-AreClean [] h = tt
sort_fields-AreClean ((k, x) ∷ es) h =
    set_field-AreClean k x (sort_fields es) h.0.0 h.0.1 (sort_fields-AreClean es h.1)

abbrev pub IsCleanLabel : Str × Str → Type 0
IsCleanLabel l = NoQuote l.0 × NoQuote l.1

set_label-AreClean :
    (k v : Str) (m : Labels)
    → NoQuote k
    → NoQuote v
    → All IsCleanLabel m
    → All IsCleanLabel (set_label k v m)
unfolding set_label
set_label-AreClean k v [] h i a = ((h, i), tt)
set_label-AreClean k v ((j, w) ∷ m) h i a =
    if-both (All IsCleanLabel) (str_eq j k) ((h, i), a.1) (a.0, set_label-AreClean k v m h i a.1)

pub set_labels-AreClean :
    (own base : Labels)
    → All IsCleanLabel own
    → All IsCleanLabel base
    → All IsCleanLabel (set_labels own base)
unfolding set_labels
set_labels-AreClean [] base h i = i
set_labels-AreClean ((k, v) ∷ own) base h i =
    set_label-AreClean k v (set_labels own base) h.0.0 h.0.1 (set_labels-AreClean own base h.1 i)

pub label_entries-AreClean : (m : Labels) → All IsCleanLabel m → All IsCleanEntry (label_entries m)
unfolding label_entries IsClean
label_entries-AreClean [] h = tt
label_entries-AreClean ((k, v) ∷ m) h = (h.0, label_entries-AreClean m h.1)
