-- ===== src/Config/Ids.antt =====
-- Provider ids: printing one and reading it back, strictly (on paths that change the cloud) and
-- leniently (on paths that only read).
use mathlib.Core.List.{append_assoc}
use ens_provider.Prelude.{
  ◌≡◌, ◌≢◌, ◌↔◌, refl, sym, true, false, none, [], ◌∷◌, ◌++◌, Str, Bool-cases, inl, inr, has_prefix,
  trim_prefix, has_prefix-append, trim_prefix-append, append-trim_prefix, index_byte,
  index_byte-append, length, arith, drop, suc, ltb,
}
use ens_provider.Config.{
  Config, provider_id, instance_id_from_provider_id, is_ens_instance_id, strict_edge_instance_id,
}

provider_id_split : (c : Config) (id : Str) → provider_id c id ≡ (c.ens_region ++ b'.' ∷ []) ++ id
unfolding provider_id
provider_id_split c id = rw append_assoc

-- The empty text has not the shape of an instance id.
not-is_ens_instance_id-nil : is_ens_instance_id [] ≡ false
unfolding is_ens_instance_id has_prefix
not-is_ens_instance_id-nil = refl

strict-provider_id :
    (c : Config) (id : Str)
    → is_ens_instance_id id ≡ true
    → strict_edge_instance_id c (provider_id c id) ≡ id
unfolding strict_edge_instance_id
strict-provider_id c id h = rw (provider_id_split c id) (
    rw (
      has_prefix-append (c.ens_region ++ b'.' ∷ []) id,
      trim_prefix-append (c.ens_region ++ b'.' ∷ []) id,
      h,
    ))

strict_inversion :
    (c : Config) (pid id : Str)
    → id ≢ []
    → strict_edge_instance_id c pid ≡ id
    → (pid ≡ provider_id c id) × (is_ens_instance_id id ≡ true)
unfolding strict_edge_instance_id
strict_inversion c pid id h e = elim (Bool-cases (has_prefix pid (c.ens_region ++ b'.' ∷ []))) [
  | inr no_prefix ↦ absurd (h (sym (rw no_prefix at e)))
  | inl prefixed ↦
      elim (Bool-cases (is_ens_instance_id (trim_prefix pid (c.ens_region ++ b'.' ∷ [])))) [
        | inr bad ↦ absurd (h (sym (rw (prefixed, bad) at e)))
        | inl good ↦
            (let e' = rw (prefixed, good) at e in
              (
                rw (provider_id_split c id, ← e')
                    (sym (append-trim_prefix pid (c.ens_region ++ b'.' ∷ []) prefixed)),
                rw e' at good,
              ))
      ]
]

-- The strict reader accepts exactly the provider ids that this provider prints for instance ids of
-- the documented shape, and gives back the instance id.
pub strict-exact :
    (c : Config) (pid id : Str)
    → id ≢ []
    → (strict_edge_instance_id c pid ≡ id)
      ↔ ((pid ≡ provider_id c id) × (is_ens_instance_id id ≡ true))
strict-exact c pid id h = (strict_inversion c pid id h, λ p. rw p.0 (strict-provider_id c id p.1))

length_pos : (s : Str) → s ≢ [] → ltb 0 (length s) ≡ true
length_pos [] h = absurd (h refl)
length_pos (a ∷ s) h = ground arith

drop_past : (s t : Str) → drop (suc (length s)) (s ++ b'.' ∷ t) ≡ t
drop_past [] t = refl
drop_past (a ∷ s) t = drop_past s t

-- Where the region is not empty and holds no dot, the lenient reader gives back every id printed.
pub lenient-provider_id :
    (c : Config) (id : Str)
    → c.ens_region ≢ []
    → index_byte b'.' c.ens_region ≡ none
    → instance_id_from_provider_id (provider_id c id) ≡ id
unfolding instance_id_from_provider_id provider_id
lenient-provider_id c id h e =
    rw (index_byte-append b'.' c.ens_region id e)
      (rw (length_pos c.ens_region h) (drop_past c.ens_region id))
