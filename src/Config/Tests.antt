-- ===== src/Config/Tests.antt =====
-- sensors_config.c on the test's file test/config_test_1 and on lines that it cannot read.
use akm_dash.Common.{
  ℕ, ◌<◌, ◌≤◌, ◌≡◌, refl, pos, negsuc, Bool, true, none, some, [], ◌∷◌, ◌++◌, map, arith, length,
  take, codes,
}
use akm_dash.Config.{
  Entry, live, dangling, ConfigType, type_string, type_array_int, type_int, nothing, ints,
  parse_value, insert_entry, get_key, find_entry, matches, classify, bad, entry, file_lines,
  read_lines, read, open_config, choose, Files, insert_last,
}
use akm_dash.Config.Text.{Bytes, newline, atoi, tokens, is_prefix, fgets}
use akm_dash.Config.Values.{parse_value_array}
use akm_dash.Config.Lookup.{Answers, get_key_first}
use akm_dash.Config.Lines.{joined, AllShort, file_lines_whole, IsWritable}
use akm_dash.Config.Written.{lines_of, read_written}
use akm_dash.Config.Reading.{entries, read_lines-entries, read_lines_after_bad}

abbrev line : Bytes → Bytes
line s = s ++ newline ∷ []

abbrev axis_x : Bytes
axis_x = line (codes "bma150_axis_x=0,0,1")

abbrev name : Bytes
name = line (codes "akm8973_name = Hej")

abbrev stray : Bytes
stray = line (codes "nonsense")

abbrev file : Bytes
file = line (codes "# Test") ++ (axis_x ++ (newline ∷ name))

abbrev axis_entry : Entry
axis_entry = record { prefix = codes "bma150"; key = codes "axis_x"; value = codes "0,0,1" }

abbrev name_entry : Entry
name_entry = record { prefix = codes "akm8973"; key = codes "name"; value = codes "Hej" }

abbrev files : Files
files = record { named = λ n. none; primary = none; secondary = some file }

abbrev always : ℕ → Bool
always n = true

read_runs : read always files none (live []) ≡ some (pos 0, live (axis_entry ∷ name_entry ∷ []))
unfolding read classify insert_entry insert_last fgets
read_runs = refl

array_of_three :
    get_key (codes "bma150") (codes "axis_x") type_array_int 3 (live (axis_entry ∷ name_entry ∷ []))
    ≡ some (pos 0, ints (pos 0 ∷ pos 0 ∷ pos 1 ∷ []))
unfolding get_key find_entry matches is_prefix tokens atoi
array_of_three = refl

-- The test's last request: room for two numbers, and three are stored.
array_too_long :
    get_key (codes "bma150") (codes "axis_x") type_array_int 2 (live (axis_entry ∷ []))
    ≡ some (negsuc 0, ints (pos 0 ∷ pos 0 ∷ pos 1 ∷ []))
unfolding get_key find_entry matches is_prefix tokens atoi
array_too_long = refl

name_too_short :
    get_key (codes "akm8973") (codes "name") type_string 3 (live (axis_entry ∷ name_entry ∷ []))
    ≡ some (negsuc 0, nothing)
unfolding get_key find_entry matches is_prefix
name_too_short = refl

parse_value_array_example :
    let value = codes "0,0,1" in
    let ts = tokens value in
    (length ts ≤ 2 → parse_value value type_array_int 2 ≡ (pos 0, ints (map atoi ts)))
    × (2 < length ts → parse_value value type_array_int 2 ≡ (negsuc 0, ints (map atoi (take 3 ts))))
parse_value_array_example = parse_value_array (codes "0,0,1") 2 (omega arith)

-- An entry for `bma` answers a request for `bma150`.
abbrev short_entry : Entry
short_entry = record { prefix = codes "bma"; key = codes "axis"; value = codes "9" }

get_key_first_example :
    (Answers (codes "bma150") (codes "axis_x") short_entry
      → get_key
          (codes "bma150")
          (codes "axis_x")
          type_int
          4
          (live ([] ++ short_entry ∷ axis_entry ∷ []))
        ≡ some (parse_value (codes "9") type_int 4))
    × (get_key (codes "bma150") (codes "axis_x") type_int 4 (live []) ≡ some (negsuc 0, nothing))
get_key_first_example =
    get_key_first (codes "bma150") (codes "axis_x") type_int 4 [] (axis_entry ∷ []) short_entry tt

file_lines_whole_run :
    (joined (file_lines (length file) file) ≡ file) × AllShort (file_lines (length file) file)
file_lines_whole_run = file_lines_whole file

-- A file of one line, `akm8973_name = Hej`.
abbrev one_line : Files
one_line = record {
  named = λ n. none;
  primary = none;
  secondary = some (joined (lines_of ((name_entry, codes " = ") ∷ [])));
}

name_entry-IsWritable : IsWritable name_entry (codes " = ")
name_entry-IsWritable = record {
  prefix_some = refl;
  key_some = refl;
  between_some = refl;
  value_some = refl;
  prefix_all = (refl, (refl, (refl, (refl, (refl, (refl, (refl, tt)))))));
  key_all = (refl, (refl, (refl, (refl, tt))));
  between_all = (refl, (refl, (refl, tt)));
  value_all = (refl, (refl, (refl, tt)));
  value_first = refl;
  prefix_first = refl;
  prefix_line = (refl, (refl, (refl, (refl, (refl, (refl, (refl, tt)))))));
  key_line = (refl, (refl, (refl, (refl, tt))));
  line_short = omega arith;
}

one_line-opened :
    open_config one_line none ≡ some (joined (lines_of ((name_entry, codes " = ") ∷ [])))
unfolding open_config choose
one_line-opened = refl

read_written_example :
    read always one_line none (live (axis_entry ∷ []))
    ≡ some (pos 0, live (axis_entry ∷ name_entry ∷ []))
read_written_example =
    read_written always one_line none ((name_entry, codes " = ") ∷ []) (axis_entry ∷ []) (λ k. refl)
      (name_entry-IsWritable, tt) one_line-opened

axis_x_class : classify axis_x ≡ entry axis_entry
unfolding classify
axis_x_class = refl

stray_class : classify stray ≡ bad
unfolding classify
stray_class = refl

read_lines-entries_run :
    read_lines always 0 (pos 0) (axis_x ∷ []) (live []) ≡ some (pos 0, live (entries (axis_x ∷ [])))
read_lines-entries_run =
    read_lines-entries always (axis_x ∷ []) 0 (pos 0) [] ((λ e. entry_not_bad e), tt) (λ k. refl)
  where
    entry_not_bad : classify axis_x ≡ bad → ⊥
    entry_not_bad e = cc axis_x_class

read_lines_after_bad_example :
    (read_lines always 0 (pos 0) (stray ∷ []) (live (axis_entry ∷ [])) ≡ some (negsuc 0, dangling))
    × ((prefix key : Bytes) (type : ConfigType) (out_size : ℕ)
        → get_key prefix key type out_size dangling ≡ none)
    × ((g : Bytes) (e : Entry)
        → classify g ≡ entry e
        → read_lines always 0 (pos 0) (stray ∷ g ∷ []) (live (axis_entry ∷ [])) ≡ none)
    × ((g : Bytes)
        → classify g ≡ bad
        → read_lines always 0 (pos 0) (stray ∷ g ∷ []) (live (axis_entry ∷ [])) ≡ none)
read_lines_after_bad_example =
    read_lines_after_bad always stray [] [] 0 (pos 0) axis_entry [] stray_class refl refl tt
