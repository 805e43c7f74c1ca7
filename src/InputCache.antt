-- ===== src/InputCache.antt =====
-- sensors_input_cache.c, sensors/sensor_util_list.h: the input devices that were found, by name.
pub mod Node
pub mod Ring
pub mod Find
mod Tests
use akm_dash.Common.{
  ℕ, zero, suc, ◌-◌, ℤ, Bool, true, false, not, ◌&&◌, ◌||◌, Option, none, some, List, [], ◌∷◌, ◌++◌,
  take, ◌==◌, if◌then◌else◌, codes,
}
use akm_dash.Config.Text.{Bytes, atoi, is_prefix}
use akm_dash.Xyz.Attr.{same_text}
use akm_dash.InputCache.Node.{Nodes, node_init, node_add}

-- `struct sensors_input_cache_entry_t`.
pub record Entry : Type 0 where
  pub nr : ℤ
  pub dev_name : Bytes
  pub event_path : Bytes

-- The memory of the cache: the nodes, what stands behind each, `list_initialized`, and the number
-- of calls of `malloc` so far.
pub record Cache : Type 0 where
  pub nodes : Nodes
  pub entry : ℕ → Entry
  pub list_initialized : Bool
  pub mallocs : ℕ

-- The address of `head`.
abbrev pub head : ℕ
head = 0

-- `!strncmp(a, b, size - 1)`.
unfoldable pub same_start : ℕ → Bytes → Bytes → Bool
same_start size a b = same_text (take (size - 1) a) (take (size - 1) b)

unfoldable pub asked : (Bytes → Bool) → Option Bytes → Bool
asked test none = false
asked test (some s) = test s

-- The two tests of `lookup`; `dev_name` has 32 bytes and `event_path` 28.
unfoldable pub answers : Option Bytes → Option Bytes → Entry → Bool
unfolding same_start asked
answers name path e =
    asked (same_start 32 e.dev_name) name || asked (same_start 28 e.event_path) path

-- The loop of `lookup` from `member` on, on fuel.
unfoldable pub lookup_from : ℕ → ℕ → Option Bytes → Option Bytes → Cache → Option ℕ
unfolding answers
lookup_from zero member name path c = none
lookup_from (suc k) member name path c =
    let rest = lookup_from k (c.nodes.n member) name path c in
    if member == head
    then none
    else if answers name path (c.entry member)
    then some member
    else rest

unfoldable pub lookup : ℕ → Option Bytes → Option Bytes → Cache → Option ℕ
unfolding lookup_from
lookup fuel name path c = lookup_from fuel (c.nodes.n head) name path c

-- What the directory has: the name of an item, whether it can be opened, and the name that the
-- device gives, if it gives one.
pub record Item : Type 0 where
  pub d_name : Bytes
  pub opens : Bool
  pub dev_name : Option Bytes

-- The variables of the loop over the directory.
pub record Search : Type 0 where
  pub cache : Cache
  pub temp : Option ℕ
  pub found : Option ℕ

abbrev pub set_entry : ℕ → Entry → Cache → Cache
set_entry a e c = record c { entry = λ x. if x == a then e else c.entry x }

-- The end of the loop's body, where the device has given its name.
unfoldable pub take_in : Bytes → ℕ → Option ℕ → Bytes → Bytes → Cache → Search
unfolding node_add same_start
take_in name a found d_name dev_name c =
    let e = record (c.entry a) { dev_name = dev_name; nr = atoi (drop_event 5 d_name) } in
    let c₁ = set_entry a e c in
    let c₂ = record c₁ { nodes = node_add head a c₁.nodes } in
    record { cache = c₂; temp = none; found = first found (same_start 32 dev_name name) a }
  where
    drop_event : ℕ → Bytes → Bytes
    drop_event zero s = s
    drop_event (suc k) [] = []
    drop_event (suc k) (b ∷ s) = drop_event k s

    first : Option ℕ → Bool → ℕ → Option ℕ
    first (some f) same a = some f
    first none same a = if same then some a else none

-- The body from the allocation on, with `temp` at the address `a`.
unfoldable pub visit : ℕ → Bytes → ℕ → Item → Search → Search
unfolding take_in lookup
visit fuel name a i s =
    let path = take 27 (codes "/dev/input/" ++ i.d_name) in
    let c = set_entry a (record (s.cache.entry a) { event_path = path }) s.cache in
    let kept : Search = record { cache = c; temp = some a; found = s.found } in
    elim (lookup fuel none (some path) c) [
      | some old ↦ kept
      | none ↦ if i.opens then opened c kept i.dev_name else kept
    ]
  where
    opened : Cache → Search → Option Bytes → Search
    opened c kept none = kept
    opened c kept (some dev_name) = take_in name a s.found i.d_name dev_name c

-- The loop over the directory; `malloc` gives an address for the number of the call, or none.
unfoldable pub scan_dir : (ℕ → Option ℕ) → ℕ → Bytes → List Item → Search → Search
unfolding visit
scan_dir malloc fuel name [] s = s
scan_dir malloc fuel name (i ∷ is) s =
    if is_prefix (codes "event") i.d_name
    then (elim s.temp [
      | some a ↦ scan_dir malloc fuel name is (visit fuel name a i s)
      | none ↦ elim (malloc s.cache.mallocs) [
        | none ↦ s
        | some a ↦
            (let c = record s.cache { mallocs = suc s.cache.mallocs } in
              scan_dir malloc fuel name is (visit fuel name a i (record s { cache = c })))
      ]
    ])
    else scan_dir malloc fuel name is s

-- The first lines of `sensors_input_cache_get`.
unfoldable pub prepared : Cache → Cache
unfolding node_init
prepared c =
    if c.list_initialized
    then c
    else record c { nodes = node_init head c.nodes; list_initialized = true }

-- The rest, after the first `lookup`; `none` is a directory that cannot be opened.
unfoldable pub get_new :
    (ℕ → Option ℕ) → ℕ → Bytes → Option (List Item) → Option ℕ → Cache → Option ℕ × Cache
unfolding scan_dir
get_new malloc fuel name dir (some a) c = (some a, c)
get_new malloc fuel name none none c = (none, c)
get_new malloc fuel name (some is) none c =
    let s = scan_dir malloc fuel name is (record { cache = c; temp = none; found = none }) in
    (s.found, s.cache)

-- `sensors_input_cache_get`: the address of the entry, or NULL.
unfoldable pub sensors_input_cache_get :
    (ℕ → Option ℕ) → ℕ → Bytes → Option (List Item) → Cache → Option ℕ × Cache
unfolding prepared lookup get_new
sensors_input_cache_get malloc fuel name dir c =
    let c' = prepared c in get_new malloc fuel name dir (lookup fuel (some name) none c') c'
