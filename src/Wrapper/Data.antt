-- ===== src/Wrapper/Data.antt =====
-- The data of sensors_wrapper.c and sensors_wrapper.h, and its list manipulation routines.
use akm_dash.Common.{
  ℕ, zero, suc, ℤ, pos, negsuc, is_neg, to_u64, Bool, false, not, ◌&&◌, List, [], ◌∷◌, get_or, set,
  take, replicate, ltb, if◌then◌else◌,
}
use akm_dash.SensorList.{ApiPtr}

-- The bits CLOSE, INIT and ACTIVE of a client's status byte, which has no other bit.
pub data Flag : Type 0 where
  closed initialised active : Flag

pub record Status : Type 0 where
  pub is_closed : Bool
  pub is_initialised : Bool
  pub is_active : Bool

-- UNUSED.
abbrev pub unused : Status
unused = record { is_closed = false; is_initialised = false; is_active = false }

-- `status & pattern`.
abbrev pub test : Flag → Status → Bool
test closed s = s.is_closed
test initialised s = s.is_initialised
test active s = s.is_active

-- `status |= pattern` and `status &= ~pattern`.
abbrev pub put : Flag → Bool → Status → Status
put closed b s = record s { is_closed = b }
put initialised b s = record s { is_initialised = b }
put active b s = record s { is_active = b }

abbrev pub max_sensor_connections : ℕ
max_sensor_connections = 4

abbrev pub no_rate : ℤ
no_rate = negsuc 0

-- `struct wrapper_entry`.
pub record Entry : Type 0 where
  pub api : List ApiPtr
  pub status : List Status
  pub rate : List ℤ
  pub nr : ℕ

-- What `sensors_wrapper_register` writes into an entry.
abbrev pub fresh_entry : Entry
fresh_entry = record {
  api = replicate max_sensor_connections 0;
  status = replicate max_sensor_connections unused;
  rate = replicate max_sensor_connections no_rate;
  nr = 0;
}

-- `struct wrapper_list`. A `struct sensor_t *` is a number, beside the sensor that it points to.
-- Every driver registers an entry of its own, so the entry stands in the slot that points to it.
pub record Slot : Type 0 where
  pub sensor : ℕ
  pub sensor_type : ℤ
  pub api : ApiPtr
  pub entry : Entry

abbrev pub null_slot : Slot
null_slot = record { sensor = 0; sensor_type = pos 0; api = 0; entry = fresh_entry }

-- The calls that the wrapper makes: of a driver's functions, and of a client's `data`.
pub data Call : Type 0 where
  init : ApiPtr → Call
  activate : ApiPtr → ℤ → Call
  set_delay : ApiPtr → ℤ → Call
  close : ApiPtr → Call
  deliver : ApiPtr → Call

-- The static list, cut to its first `idx` elements, and the calls made so far, newest first.
pub record Wrapper : Type 0 where
  pub list : List Slot
  pub log : List Call

abbrev pub list_size : ℕ
list_size = 16

-- `struct wrapper_access`.
pub record Access : Type 0 where
  pub sensor : List ℕ
  pub client : List ℕ
  pub nr : ℕ
  pub match : List ℤ
  pub m_nr : ℕ

abbrev pub slot_at : ℕ → Wrapper → Slot
slot_at i w = get_or w.list i null_slot

abbrev pub entry_at : ℕ → Wrapper → Entry
entry_at i w = (slot_at i w).entry

unfoldable pub set_entry : ℕ → Entry → Wrapper → Wrapper
set_entry i e w = record w { list = set w.list i (record (slot_at i w) { entry = e }) }

-- How many of these clients have the bit.
unfoldable pub count_flag : Flag → List Status → ℕ
count_flag p [] = 0
count_flag p (s ∷ ss) = let rest = count_flag p ss in if test p s then suc rest else rest

unfoldable pub list_get_status : ℕ → Flag → Wrapper → ℕ
list_get_status i p w = count_flag p (take (entry_at i w).nr (entry_at i w).status)

-- `list_set_status` at `true`, `list_clear_status` at `false`.
unfoldable pub list_put_status : ℕ → ℕ → Flag → Bool → Wrapper → Wrapper
list_put_status i c p b w =
    let e = entry_at i w in
    set_entry i (record e { status = set e.status c (put p b (get_or e.status c unused)) }) w

-- The loop of `list_get_rate`. `<` compares a rate with the unsigned form of the least so far.
unfoldable pub least_rate : ℤ → List ℤ → ℤ
least_rate least [] = least
least_rate least (r ∷ rs) =
    least_rate (if not (is_neg r) && ltb (to_u64 r) (to_u64 least) then r else least) rs

unfoldable pub list_get_rate : ℕ → Wrapper → ℤ
list_get_rate i w = least_rate no_rate (take (entry_at i w).nr (entry_at i w).rate)

unfoldable pub list_set_rate : ℕ → ℕ → ℤ → Wrapper → Wrapper
list_set_rate i c r w = let e = entry_at i w in set_entry i (record e { rate = set e.rate c r }) w

unfoldable pub list_set_api : ℕ → ℕ → ApiPtr → Wrapper → Wrapper
list_set_api i c p w = let e = entry_at i w in set_entry i (record e { api = set e.api c p }) w

-- A sensor and a client number of it.
abbrev pub Link : Type 0
Link = ℕ × ℕ

abbrev pub pairs : ℕ → List ℕ → List ℕ → List Link
pairs zero ss cs = []
pairs (suc n) [] cs = []
pairs (suc n) (s ∷ ss) [] = []
pairs (suc n) (s ∷ ss) (c ∷ cs) = (s, c) ∷ pairs n ss cs

-- What the loops over `access` go through: the first `nr` places of its two arrays.
abbrev pub links : Access → List Link
links a = pairs a.nr a.sensor a.client
