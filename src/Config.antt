-- ===== src/Config.antt =====
-- sensors_config.c: the configuration file, its list of entries and their values.
pub mod Text
pub mod Lookup
pub mod Values
pub mod Lines
pub mod Reading
pub mod Written
mod Tests
use akm_dash.Common.{
  ℕ, zero, suc, ◌+◌, ◌-◌, ◌*◌, ◌<◌, ℤ, pos, negsuc, Bool, true, false, not, ◌&&◌, ◌||◌, Option,
  none, some, List, [], ◌∷◌, ◌++◌, length, ltb, ◌==◌, if◌then◌else◌,
}
use akm_dash.Config.Text.{
  Bytes, hash, equals, underscore, space, newline, scan_set, is_prefix, atoi, tokens, fgets,
}

abbrev pub max_str_len : ℕ
max_str_len = 64

-- The `char buf[64]` of `sensors_config_read`.
abbrev pub buf_size : ℕ
buf_size = 64

-- `struct config_entry_t`: its three C strings.
pub record Entry : Type 0 where
  pub prefix : Bytes
  pub key : Bytes
  pub value : Bytes

-- The memory behind `config_list`: a live list, NULL where it is empty, or nodes that were freed
-- while the pointer still leads to them.
pub data Store : Type 0 where
  live : List Entry → Store
  dangling : Store

-- The walk of `insert_entry` to the last node.
unfoldable pub insert_last : Entry → List Entry → List Entry
insert_last e [] = e ∷ []
insert_last e (p ∷ ps) = p ∷ insert_last e ps

-- `none` is a use of freed memory, here and below.
unfoldable pub insert_entry : Entry → Store → Option Store
insert_entry e (live es) = some (live (insert_last e es))
insert_entry e dangling = none

-- `sensors_config_destroy`. It does not write `config_list`.
unfoldable pub destroy : Store → Option Store
destroy (live []) = some (live [])
destroy (live (e ∷ es)) = some dangling
destroy dangling = none

-- `sensors_have_config_file`.
unfoldable pub have_config_file : Store → Bool
have_config_file (live []) = false
have_config_file (live (e ∷ es)) = true
have_config_file dangling = true

-- `enum config_type_t`.
pub data ConfigType : Type 0 where
  type_string type_array_int type_int : ConfigType

-- What `parse_value` stores through `out_value`, from its start on.
pub data Output : Type 0 where
  nothing : Output
  string : Bytes → Output
  ints : List ℤ → Output

-- The loop of TYPE_ARRAY_INT, with the token number `i`: what it returns and the numbers that it
-- has stored then.
unfoldable pub parse_tokens : ℕ → ℕ → List Bytes → ℤ × List ℤ
parse_tokens i out_size [] = (pos 0, [])
parse_tokens i out_size (t ∷ ts) =
    let (rc, stored) = parse_tokens (suc i) out_size ts in
    if ltb out_size (suc i) then (negsuc 0, atoi t ∷ []) else (rc, atoi t ∷ stored)

-- `parse_value`. An `int` has four bytes.
unfoldable pub parse_value : Bytes → ConfigType → ℕ → ℤ × Output
unfolding parse_tokens
parse_value value type_string out_size =
    if ltb out_size (length value + 1) then (negsuc 0, nothing) else (pos 0, string value)
parse_value value type_array_int out_size =
    if ltb max_str_len (length value + 1)
    then (negsuc 0, nothing)
    else (let (rc, stored) = parse_tokens 0 out_size (tokens value) in (rc, ints stored))
parse_value value type_int out_size =
    if ltb out_size 4 then (negsuc 0, nothing) else (pos 0, ints (atoi value ∷ []))

-- The test of the loop in `sensors_config_get_key`.
unfoldable pub matches : Bytes → Bytes → Entry → Bool
matches prefix key e = is_prefix e.prefix prefix && is_prefix e.key key

unfoldable pub find_entry : Bytes → Bytes → List Entry → Option Entry
find_entry prefix key [] = none
find_entry prefix key (e ∷ es) =
    let rest = find_entry prefix key es in if matches prefix key e then some e else rest

unfoldable pub value_of : Option Entry → ConfigType → ℕ → ℤ × Output
unfolding parse_value
value_of none type out_size = (negsuc 0, nothing)
value_of (some e) type out_size = parse_value e.value type out_size

-- `sensors_config_get_key`.
unfoldable pub get_key : Bytes → Bytes → ConfigType → ℕ → Store → Option (ℤ × Output)
unfolding value_of
get_key prefix key type out_size (live es) =
    some (value_of (find_entry prefix key es) type out_size)
get_key prefix key type out_size dangling = none

-- The literal `_` of the format: whether it stands there, and what follows.
unfoldable pub skip_underscore : Bytes → Option Bytes
skip_underscore [] = none
skip_underscore (c ∷ cs) = if c == underscore then some cs else none

abbrev pub not_empty : Bytes → Bool
not_empty [] = false
not_empty (c ∷ cs) = true

-- The format behind the `_`.
unfoldable pub scan_rest : Bytes → Option Bytes → Option Entry
unfolding scan_set
scan_rest prefix none = none
scan_rest prefix (some s) =
    let (key, r₁) = scan_set (λ c. not (c == space) && not (c == equals)) 64 s in
    let (between, r₂) = scan_set (λ c. c == space || c == equals) (length r₁) r₁ in
    let (value, r₃) = scan_set (λ c. not (c == newline)) 64 r₂ in
    if not_empty prefix && not_empty key && not_empty between && not_empty value
    then some (record { prefix = prefix; key = key; value = value })
    else none

-- `sscanf(buf, "%64[^_]_%64[^ =]%*[ =]%64[^\n]", …) == 3`, into arrays of 64 bytes. `buf` holds at
-- most 63 bytes, so that no field reaches 64 bytes, for which `%64[` would write a 65th one, the
-- NUL, behind its array.
unfoldable pub scan_entry : Bytes → Option Entry
unfolding scan_set skip_underscore scan_rest
scan_entry buf =
    let (prefix, r) = scan_set (λ c. not (c == underscore)) 64 buf in
    scan_rest prefix (skip_underscore r)

-- What a line of the file is to `sensors_config_read`.
pub data Line : Type 0 where
  comment : Line
  entry : Entry → Line
  bad : Line
  blank : Line

-- The last `sscanf` is `sscanf(buf, "%64[^ \n]", …) == 1`: some other byte stands first.
unfoldable pub classify_rest : Bytes → Option Entry → Line
classify_rest buf (some e) = entry e
classify_rest [] none = blank
classify_rest (c ∷ cs) none = if c == space || c == newline then blank else bad

unfoldable pub classify : Bytes → Line
unfolding classify_rest scan_entry
classify [] = blank
classify (c ∷ cs) = if c == hash then comment else classify_rest (c ∷ cs) (scan_entry (c ∷ cs))

-- The lines of the `fgets` loop. Each takes a byte at least, so the length of the file is enough.
unfoldable pub file_lines : ℕ → Bytes → List Bytes
file_lines zero s = []
file_lines (suc n) [] = []
file_lines (suc n) (c ∷ cs) =
    let (line, rest) = fgets (buf_size - 1) (c ∷ cs) in line ∷ file_lines n rest

infixl 5 ◌>>=◌
abbrev pub ◌>>=◌ : {A B : Type 0} → Option A → (A → Option B) → Option B
none >>= f = none
some a >>= f = f a

-- The body of the `while` loop. `alloc` says which calls of `malloc` succeed, `n` is the number of
-- the next one, and `rv` is `retval`.
unfoldable pub read_lines : (ℕ → Bool) → ℕ → ℤ → List Bytes → Store → Option (ℤ × Store)
read_lines alloc n rv [] st = some (rv, st)
read_lines alloc n rv (b ∷ bs) st = elim (classify b) [
  | comment ↦ read_lines alloc n rv bs st
  | entry e ↦ elim (alloc n) [
    | true ↦ (insert_entry e st >>= λ st'. read_lines alloc (suc n) rv bs st')
    | false ↦ some (negsuc 0, st)
  ]
  | bad ↦ elim (alloc n) [
    | true ↦ (destroy st >>= λ st'. read_lines alloc (suc n) (negsuc 0) bs st')
    | false ↦ some (negsuc 0, st)
  ]
  | blank ↦ elim (alloc n) [
    | true ↦ read_lines alloc (suc n) rv bs st
    | false ↦ some (negsuc 0, st)
  ]
]

-- The files that can be opened, PRIMARY_CONFIG and SECONDARY_CONFIG among them.
pub record Files : Type 0 where
  pub named : Bytes → Option Bytes
  pub primary : Option Bytes
  pub secondary : Option Bytes

unfoldable pub choose : Option Bytes → Option Bytes → Option Bytes
choose (some s) other = some s
choose none other = other

unfoldable pub open_config : Files → Option Bytes → Option Bytes
unfolding choose
open_config fs (some name) = fs.named name
open_config fs none = choose fs.primary fs.secondary

unfoldable pub read_file : (ℕ → Bool) → Option Bytes → Store → Option (ℤ × Store)
unfolding file_lines read_lines
read_file alloc none st = some (negsuc 0, st)
read_file alloc (some s) st = read_lines alloc 0 (pos 0) (file_lines (length s) s) st

-- `sensors_config_read`; `none` is a NULL file name.
unfoldable pub read : (ℕ → Bool) → Files → Option Bytes → Store → Option (ℤ × Store)
unfolding open_config read_file
read alloc fs name st = read_file alloc (open_config fs name) st
