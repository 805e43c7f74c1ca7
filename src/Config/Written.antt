-- ===== src/Config/Written.antt =====
-- `sensors_config_read` on a file that was written entry by entry.
use akm_dash.Common.{
  ℕ, zero, suc, ◌≤◌, ◌<◌, ◌≡◌, refl, ap, ◌∙◌, pos, Bool, true, false, Option, some, List, [], ◌∷◌,
  ◌++◌, arith, length, length-append, ◌==◌, ◌⊎◌, inl, inr,
}
use akm_dash.Config
use akm_dash.Config.{
  Entry, Line, entry, bad, Store, live, Files, classify, classify_rest, scan_entry, file_lines,
  read_lines, read_file, open_config, buf_size, not_empty,
}
use akm_dash.Config.Text.{Bytes, newline, hash, fgets}
use akm_dash.Config.Lines.{
  joined, AllOf, Stops, in_between, in_value, IsWritable, line_of, scan_entry_line,
}
use akm_dash.Config.Reading.{AllGood, entries, read_lines-entries}

-- A newline at the end, and none before it.
abbrev OneLine : Bytes → Type 0
OneLine [] = ⊥
OneLine (c ∷ cs) = (((c == newline) ≡ true) × (cs ≡ [])) ⊎ (((c == newline) ≡ false) × OneLine cs)

OneLine-append : (a b : Bytes) → AllOf in_value a → OneLine b → OneLine (a ++ b)
OneLine-append [] b h l = l
OneLine-append (c ∷ a) b h l = inr (not_newline (h.0), OneLine-append a b h.1 l)
  where
    not_newline : in_value c ≡ true → (c == newline) ≡ false
    not_newline e = ground arith

between_line : (between : Bytes) → AllOf in_between between → AllOf in_value between
between_line [] h = tt
between_line (c ∷ cs) h = (no_newline h.0, between_line cs h.1)
  where
    no_newline : in_between c ≡ true → in_value c ≡ true
    no_newline e = ground arith

line_of-OneLine : (e : Entry) (between : Bytes) → IsWritable e between → OneLine (line_of e between)
line_of-OneLine e between w = OneLine-append e.prefix _ w.prefix_line (
    inr (
      refl,
      OneLine-append e.key _ w.key_line (
          OneLine-append between _ (between_line between w.between_all)
            (OneLine-append e.value _ w.value_all (inl (refl, refl)))),
    ))

fgets-OneLine :
    (n : ℕ) (l rest : Bytes) → OneLine l → length l ≤ n → fgets n (l ++ rest) ≡ (l, rest)
unfolding fgets
fgets-OneLine zero [] rest o h = absurd o
fgets-OneLine zero (c ∷ l) rest o h = absurd (omega arith)
fgets-OneLine (suc n) [] rest o h = absurd o
fgets-OneLine (suc n) (c ∷ l) rest (inl (e, z)) h = rw (e, z) refl
fgets-OneLine (suc n) (c ∷ l) rest (inr (e, o)) h =
    rw (e, fgets-OneLine n l rest o (omega arith)) refl

-- Lines that fit into `buf`.
abbrev AllLines : List Bytes → Type 0
AllLines [] = Unit
AllLines (l ∷ ls) = (OneLine l × (length l < buf_size)) × AllLines ls

file_lines-joined :
    (n : ℕ) (ls : List Bytes) → AllLines ls → length (joined ls) ≤ n → file_lines n (joined ls) ≡ ls
unfolding file_lines
file_lines-joined zero [] a h = refl
file_lines-joined (suc n) [] a h = refl
file_lines-joined n ([] ∷ ls) a h = absurd a.0.0
file_lines-joined zero ((c ∷ l) ∷ ls) a h = absurd (omega arith)
file_lines-joined (suc n) ((c ∷ l) ∷ ls) a h =
    rw (fgets-OneLine 63 (c ∷ l) (joined ls) a.0.0 (omega (arith, a.0.1))) (
      ap (◌∷◌ (c ∷ l))
        (file_lines-joined n ls a.1 (omega (arith, length-append {0} l (joined ls)))))

-- An entry and what stands between its key and its value.
abbrev pub Written : Type 0
Written = Entry × Bytes

abbrev pub AllWritable : List Written → Type 0
AllWritable [] = Unit
AllWritable ((e, between) ∷ ws) = IsWritable e between × AllWritable ws

abbrev pub lines_of : List Written → List Bytes
lines_of [] = []
lines_of ((e, between) ∷ ws) = line_of e between ∷ lines_of ws

abbrev pub entries_of : List Written → List Entry
entries_of [] = []
entries_of ((e, between) ∷ ws) = e ∷ entries_of ws

lines_of-AllLines : (ws : List Written) → AllWritable ws → AllLines (lines_of ws)
lines_of-AllLines [] a = tt
lines_of-AllLines ((e, between) ∷ ws) a =
    ((line_of-OneLine e between a.0, a.0.line_short), lines_of-AllLines ws a.1)

classify-entry :
    (buf : Bytes) (e : Entry)
    → not_empty buf ≡ true
    → Stops (λ c. c == hash) buf
    → scan_entry buf ≡ some e
    → classify buf ≡ entry e
unfolding classify classify_rest
classify-entry [] e n h s = cc
classify-entry (c ∷ cs) e n h s = rw (h, s) refl

classify-line_of :
    (e : Entry) (between : Bytes) → IsWritable e between → classify (line_of e between) ≡ entry e
classify-line_of e between w =
    classify-entry (line_of e between) e (not_empty-append e.prefix _ w.prefix_some)
      (Stops-append e.prefix _ w.prefix_some w.prefix_first) (scan_entry_line e between w)
  where
    not_empty-append : (a b : Bytes) → not_empty a ≡ true → not_empty (a ++ b) ≡ true
    not_empty-append [] b h = cc
    not_empty-append (c ∷ a) b h = refl

    Stops-append :
        (a b : Bytes)
        → not_empty a ≡ true
        → Stops (λ c. c == hash) a
        → Stops (λ c. c == hash) (a ++ b)
    Stops-append [] b n h = cc
    Stops-append (c ∷ a) b n h = h

lines_of-AllGood : (ws : List Written) → AllWritable ws → AllGood (lines_of ws)
lines_of-AllGood [] a = tt
lines_of-AllGood ((e, between) ∷ ws) a =
    ((λ b. cc (classify-line_of e between a.0, b)), lines_of-AllGood ws a.1)

entries-lines_of : (ws : List Written) → AllWritable ws → entries (lines_of ws) ≡ entries_of ws
entries-lines_of [] a = refl
entries-lines_of ((e, between) ∷ ws) a =
    rw (classify-line_of e between a.0) (ap (◌∷◌ e) (entries-lines_of ws a.1))

-- The text of any list of entries, one in each line, is read back by `sensors_config_read` where no
-- allocation fails: it returns 0 and appends these entries to the live list in their order. Between
-- key and value stands any run of blanks and `=`. A prefix has no `_` and no `#` at its start, a
-- key no blank and no `=`, a value does not begin with either, none of them is empty or has a
-- newline, and no line is longer than the 63 bytes that `buf` holds beside the NUL.
pub read_written :
    (alloc : ℕ → Bool) (files : Files) (name : Option Bytes) (ws : List Written) (es : List Entry)
    → ((k : ℕ) → alloc k ≡ true)
    → AllWritable ws
    → open_config files name ≡ some (joined (lines_of ws))
    → Config.read alloc files name (live es) ≡ some (pos 0, live (es ++ entries_of ws))
unfolding Config.read read_file
read_written alloc files name ws es a w o =
    let s = joined (lines_of ws) in
    rw (o, file_lines-joined (length s) (lines_of ws) (lines_of-AllLines ws w) (omega arith))
      (read_lines-entries alloc (lines_of ws) 0 (pos 0) es (lines_of-AllGood ws w) a
        ∙ ap (λ xs. some (pos 0, live (es ++ xs))) (entries-lines_of ws w))
