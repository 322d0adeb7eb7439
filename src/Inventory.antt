-- ===== src/Inventory.antt =====
-- ens.go, the reading half: the region's inventory behind a cache, the owned instances of a group,
-- and the uncached lookup of one instance. The ENS API is a parameter: a function from page numbers
-- (or from an instance id) to its answers.
pub mod Owner
pub mod Caching
pub mod Paging
use ens_provider.Prelude.{
  int64, ℕ, zero, suc, ◌+◌, ◌*◌, Bool, true, false, ◌&&◌, ◌||◌, not, Option, none, some, List, [],
  ◌∷◌, ◌++◌, Str, codes, str_eq, is_empty, has_prefix, length, filter_by, if◌then◌else◌, ℤ, pos,
  negsuc, ◌-ℤ◌, scale, ltb_ℤ, leb_ℤ, int32,
}
use ens_provider.Config.{Config, Group}
use ens_provider.Errors.{sanitize_err}

pub record Instance : Type 0 where
  pub id : Str
  pub name : Str
  pub group_id : Str
  pub status : Str
  pub public_ip : Str
  pub private_ip : Str
  pub creation_time : Str

-- One instance as the SDK returns it; a pointer is an `Option`.
pub record RawInstance : Type 0 where
  pub instance_id : Option Str
  pub instance_name : Option Str
  pub status : Option Str
  pub creation_time : Option Str
  pub public_ip_address : Option (List (Option Str))
  pub private_ip_addresses : Option (List (Option Str))
  pub network_attributes : Option (Option (List (Option Str)))

-- The body of one page, where there is one with instances.
pub record Page : Type 0 where
  pub instances : List RawInstance
  pub total_count : Option ℤ

-- What a call of the API returns: `ok none` stands for a response with no body or no instance list.
pub data Answer (A : Type 0) : Type 0 where
  ok : A → Answer A
  err : Str → Answer A

-- tea.StringValue
unfoldable pub string_value : Option Str → Str
string_value none = []
string_value (some s) = s

-- The loop over the groups: the id and the prefix length of the best owner so far.
unfoldable pub region_owner_loop : Str → Str → ℤ → List Group → Str
region_owner_loop name gid longest [] = gid
region_owner_loop name gid longest (g ∷ rest) =
    let better = has_prefix name g.name_prefix && ltb_ℤ longest (pos (length g.name_prefix)) in
    region_owner_loop name (if better then g.id else gid)
      (if better then pos (length g.name_prefix) else longest) rest

unfoldable pub region_owner : Config → Str → Str
unfolding region_owner_loop
region_owner cfg name = region_owner_loop name [] (negsuc 0) cfg.groups

unfoldable pub is_released : Str → Bool
is_released status = str_eq status (codes "Released") || str_eq status (codes "Releasing")

-- The first address of a list, if there is one.
unfoldable pub first_address : Option (List (Option Str)) → Str
unfolding string_value
first_address none = []
first_address (some []) = []
first_address (some (a ∷ rest)) = string_value a

unfoldable pub network_address : Option (Option (List (Option Str))) → Str
unfolding first_address
network_address none = []
network_address (some addresses) = first_address addresses

-- One turn of the loop over a page: the instance, unless it has no owner or is released.
unfoldable pub read_instance : Config → RawInstance → Option Instance
unfolding string_value region_owner is_released first_address network_address
read_instance cfg i =
    let name = string_value i.instance_name in
    let gid = region_owner cfg name in
    let status = string_value i.status in
    let private = first_address i.private_ip_addresses in
    if is_empty gid
    then none
    else if is_released status
    then none
    else some (record {
      id = string_value i.instance_id;
      name = name;
      group_id = gid;
      status = status;
      public_ip = first_address i.public_ip_address;
      private_ip = if is_empty private then network_address i.network_attributes else private;
      creation_time = string_value i.creation_time;
    })

abbrev append_some : List Instance → Option Instance → List Instance
append_some owned none = owned
append_some owned (some i) = owned ++ i ∷ []

unfoldable pub read_page : Config → List Instance → List RawInstance → List Instance
unfolding read_instance
read_page cfg owned [] = owned
read_page cfg owned (i ∷ rest) = read_page cfg (append_some owned (read_instance cfg i)) rest

-- tea.Int32Value
abbrev pub int32_value : Option ℤ → ℤ
int32_value none = pos 0
int32_value (some n) = n

-- What one page does to the loop: it fails, it is the last, or the loop goes on with more instances.
pub data PageStep : Type 0 where
  failed : Str → PageStep
  last : List Instance → PageStep
  more : List Instance → PageStep

unfoldable pub page_step : Config → List Instance → ℕ → Answer (Option Page) → PageStep
unfolding read_page sanitize_err
page_step cfg owned page (err e) = failed (sanitize_err e)
page_step cfg owned page (ok none) = last owned
page_step cfg owned page (ok (some body)) =
    let owned' = read_page cfg owned body.instances in
    if leb_ℤ (int32_value body.total_count) (int32 (pos (page * 100)))
    then last owned'
    else more owned'

-- The loop over the pages from `page` on; `none` is fuel that ran out.
unfoldable pub fetch_pages :
    Config → (ℕ → Answer (Option Page)) → ℕ → ℕ → List Instance → Option (Answer (List Instance))
unfolding page_step
fetch_pages cfg describe zero page owned = none
fetch_pages cfg describe (suc fuel) page owned = elim (page_step cfg owned page (describe page)) [
  | failed e ↦ some (err e)
  | last owned' ↦ some (ok owned')
  | more owned' ↦ fetch_pages cfg describe fuel (page + 1) owned'
]

-- The cache of `Cloud`. `cached = none` is a nil slice, `cache_at = none` the zero time.
pub record Cache : Type 0 where
  pub cached : Option (List Instance)
  pub cache_at : Option ℤ

unfoldable pub invalidate_cache : Cache → Cache
invalidate_cache c = record c { cache_at = none }

-- A slice that nothing was appended to is nil.
unfoldable pub slice : List Instance → Option (List Instance)
slice [] = none
slice (i ∷ rest) = some (i ∷ rest)

-- The age of the cache is below the time to live. The zero time is too long ago for any.
abbrev is_young : ℤ → ℤ → Option ℤ → Bool
is_young ttl now none = false
is_young ttl now (some at) = ltb_ℤ (now -ℤ at) ttl

abbrev pub second : ℕ
second = 1_000_000_000

-- The closure `fresh`: the cached inventory, if it may be served at `now`.
unfoldable pub fresh : Config → Bool → ℤ → Cache → Option (List Instance)
fresh cfg force now c = elim c.cached [
  | none ↦ none
  | some out ↦
      if not force && is_young (int64 (scale cfg.describe_ttl_seconds second)) now c.cache_at
      then some out
      else none
]

-- The cache after a fetch, or the same cache after a failed one; and the answer.
unfoldable pub store_fetch : ℤ → Cache → Answer (List Instance) → Cache × Answer (List Instance)
unfolding slice
store_fetch now c (err e) = (c, err e)
store_fetch now c (ok owned) = (record { cached = slice owned; cache_at = some now }, ok owned)

-- describeRegion. `c₁` is the cache at the first look and `c₂` the cache when the fetch lock is held,
-- after what other fetchers did in between; `now₁`, `now₂` and `now₃` are the times of the two looks
-- and of the write. `none` is fuel that ran out.
unfoldable pub describe_region :
    Config
    → Bool
    → (ℕ → Answer (Option Page))
    → ℕ
    → (now₁ now₂ now₃ : ℤ) (c₁ c₂ : Cache) → Option (Cache × Answer (List Instance))
unfolding fresh fetch_pages store_fetch
describe_region cfg force describe fuel now₁ now₂ now₃ c₁ c₂ = elim (fresh cfg force now₁ c₁) [
  | some out ↦ some (c₁, ok out)
  | none ↦ elim (fresh cfg force now₂ c₂) [
    | some out ↦ some (c₂, ok out)
    | none ↦ elim (fetch_pages cfg describe fuel 1 []) [
      | none ↦ none
      | some answer ↦ some (store_fetch now₃ c₂ answer)
    ]
  ]
]

-- OwnedInstances, given what describeRegion answered.
unfoldable pub owned_instances : Group → Answer (List Instance) → Answer (List Instance)
owned_instances g (err e) = err e
owned_instances g (ok all) = ok (filter_by (λ i. str_eq i.group_id g.id) all)

-- The loop of InstanceByID: the first item with the id decides, and a released one is not there.
unfoldable pub instance_by_id_loop : Str → List RawInstance → Option Instance
unfolding string_value is_released
instance_by_id_loop id [] = none
instance_by_id_loop id (item ∷ rest) =
    let later = instance_by_id_loop id rest in
    if not (str_eq (string_value item.instance_id) id)
    then later
    else if is_released (string_value item.status)
    then none
    else some (record {
      id = id;
      name = string_value item.instance_name;
      group_id = [];
      status = string_value item.status;
      public_ip = [];
      private_ip = [];
      creation_time = [];
    })

unfoldable pub instance_by_id : Str → Answer (Option (List RawInstance)) → Answer (Option Instance)
unfolding instance_by_id_loop sanitize_err
instance_by_id id (err e) = err (sanitize_err e)
instance_by_id id (ok none) = ok none
instance_by_id id (ok (some items)) = ok (instance_by_id_loop id items)
