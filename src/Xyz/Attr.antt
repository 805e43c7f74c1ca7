-- ===== src/Xyz/Attr.antt =====
-- The sysfs attributes, rates and modes of sensors/sensor_xyz.c.
use akm_dash.Common.{
  ℕ, zero, suc, ◌+◌, ◌-◌, ◌/◌, ◌%◌, ◌^◌, ℤ, pos, negsuc, is_pos, Bool, true, false, ◌&&◌, Option,
  none, some, List, [], ◌∷◌, ◌++◌, length, take, ltb, leb, ltb_ℤ, ◌==◌, if◌then◌else◌,
}
use akm_dash.Config.Text.{Bytes, newline}

-- `phys_path`, a C string, and the attributes that were opened with the value to be written, the
-- latest first.
pub record Attrs : Type 0 where
  pub phys_path : Bytes
  pub writes : List (Bytes × Bytes)

-- What becomes of the newest one: `none` is a failed `open`, else the result of `write`.
abbrev pub Reply : Type 0
Reply = List (Bytes × Bytes) → Option ℤ

-- PHYS_PATH_LEN + ATTR_NAME_LEN.
abbrev pub phys_path_size : ℕ
phys_path_size = 62

-- What `snprintf` leaves in `phys_path`, and its restoration at `exit`.
unfoldable pub append_attr : Bytes → Attrs → Attrs
append_attr attr a = record a {
  phys_path = a.phys_path ++ take (phys_path_size - length a.phys_path - 1) attr;
}

unfoldable pub cut : ℕ → Attrs → Attrs
cut l a = record a { phys_path = take l a.phys_path }

unfoldable pub written : Option ℤ → ℤ
written none = negsuc 0
written (some rc) = if is_pos rc then pos 0 else rc

module _ (reply : Reply) where
  unfoldable pub open_attr : Bytes → Attrs → ℤ × Attrs
  unfolding written
  open_attr val a =
      let log = (a.phys_path, val) ∷ a.writes in (written (reply log), record a { writes = log })

  -- `store_str_attr`.
  unfoldable pub store_str_attr : Bytes → Bytes → Attrs → ℤ × Attrs
  unfolding append_attr cut open_attr
  store_str_attr attr val a =
      let l = length a.phys_path in
      if l == 0
      then (pos 0, a)
      else if leb (phys_path_size - l) (length attr)
      then (negsuc 0, cut l (append_attr attr a))
      else (let (rc, a') = open_attr val (append_attr attr a) in (rc, cut l a'))

-- The digits of a number, before those that stand in the last argument; an `int` has at most ten.
unfoldable pub decimal_from : ℕ → ℕ → Bytes → Bytes
decimal_from zero n s = s
decimal_from (suc k) n s =
    let more = decimal_from k (n / 10) ((48 + n % 10) ∷ s) in
    if ltb n 10 then (48 + n % 10) ∷ s else more

-- The text that `%d` gives.
unfoldable pub decimal : ℤ → Bytes
unfolding decimal_from
decimal (pos n) = decimal_from 10 n []
decimal (negsuc n) = b'-' ∷ decimal_from 10 (suc n) []

unfoldable pub store_int_attr : Reply → Bytes → ℤ → Attrs → ℤ × Attrs
unfolding decimal
store_int_attr reply attr value a =
    let b = decimal value ++ newline ∷ [] in
    if leb 16 (length b) then (negsuc 0, a) else store_str_attr reply attr b a

pub data DevMode : Type 0 where
  fastest game ui normal : DevMode

-- RATE_GAME, RATE_UI and RATE_NORMAL are 20, 60 and 200.
unfoldable pub rate2mode : ℤ → DevMode
rate2mode ms =
    if ltb_ℤ ms (pos 20)
    then fastest
    else if ltb_ℤ ms (pos 60)
    then game
    else if ltb_ℤ ms (pos 200)
    then ui
    else normal

-- The conversion to `int` of a number that is given by its remainder modulo 2 ^ 32.
unfoldable pub to_int : ℕ → ℤ
to_int r = if ltb r (2 ^ 31) then pos r else negsuc (2 ^ 32 - 1 - r)

-- `int ms = ns/NS_TO_MS`, whose division goes towards zero.
unfoldable pub to_ms : ℤ → ℤ
unfolding to_int
to_ms (pos n) = to_int (n / 1000000 % 2 ^ 32)
to_ms (negsuc n) = to_int ((2 ^ 32 - suc n / 1000000 % 2 ^ 32) % 2 ^ 32)

-- `strcmp(a, b) == 0`.
unfoldable pub same_text : Bytes → Bytes → Bool
same_text [] [] = true
same_text [] (y ∷ b) = false
same_text (x ∷ a) [] = false
same_text (x ∷ a) (y ∷ b) = x == y && same_text a b
