-- ===== src/Config/Lines.antt =====
-- How sensors_config.c cuts its file into lines and reads an entry from one.
use akm_dash.Common.{
  ℕ, zero, suc, ◌+◌, ◌≤◌, ◌<◌, ◌≡◌, refl, ap, ◌∙◌, Bool, true, false, not, ◌&&◌, ◌||◌, some, List,
  [], ◌∷◌, ◌++◌, arith, length, length-append, ◌==◌, Bool-cases, inl, inr,
}
use Prim.Native.Nat.{suc-le-suc}
use native.Mathlib.Nat.{le_trans}
use akm_dash.Config.{Entry, skip_underscore, scan_rest, scan_entry, file_lines, buf_size, not_empty}
use akm_dash.Config.Text.{Bytes, newline, hash, space, equals, underscore, scan_set, fgets}

-- All lines, one after the other.
abbrev pub joined : List Bytes → Bytes
joined [] = []
joined (l ∷ ls) = l ++ joined ls

abbrev pub AllShort : List Bytes → Type 0
AllShort [] = Unit
AllShort (l ∷ ls) = (length l < buf_size) × AllShort ls

fgets_splits :
    (n : ℕ) (s : Bytes)
    → ((fgets n s).0 ++ (fgets n s).1 ≡ s)
      × (length (fgets n s).0 ≤ n)
      × (length (fgets n s).1 ≤ length s)
unfolding fgets
fgets_splits zero s = (refl, omega arith, omega arith)
fgets_splits (suc n) [] = (refl, omega arith, omega arith)
fgets_splits (suc n) (c ∷ cs) =
    let (e, l, r) = fgets_splits n cs in
    elim (Bool-cases (c == newline)) [
      | inl end ↦ rw end (refl, omega arith, omega arith)
      | inr more ↦ rw more (ap (◌∷◌ c) e, omega arith, omega arith)
    ]

fgets_shrinks : (n c : ℕ) (cs : Bytes) → length (fgets (suc n) (c ∷ cs)).1 ≤ length cs
unfolding fgets
fgets_shrinks n c cs =
    let (e, l, r) = fgets_splits n cs in
    elim (Bool-cases (c == newline)) [ inl end ↦ rw end (omega arith) | inr more ↦ rw more r ]

fgets-line :
    (c : ℕ) (cs : Bytes)
    → let (line, rest) = fgets 63 (c ∷ cs) in
      (line ++ rest ≡ c ∷ cs) × (length line < buf_size) × (length rest ≤ length cs)
fgets-line c cs =
    let (e, l, r) = fgets_splits 63 (c ∷ cs) in (e, suc-le-suc l, fgets_shrinks 62 c cs)

file_lines_split :
    (n : ℕ) (s : Bytes) → length s ≤ n → (joined (file_lines n s) ≡ s) × AllShort (file_lines n s)
unfolding file_lines
file_lines_split zero [] h = (refl, tt)
file_lines_split zero (c ∷ cs) h = absurd (omega arith)
file_lines_split (suc n) [] h = (refl, tt)
file_lines_split (suc n) (c ∷ cs) h =
    let rest = (fgets 63 (c ∷ cs)).1 in
    let (e, l, r) = fgets-line c cs in
    let (e', l') = file_lines_split n rest (le_trans r (le_down h)) in
    (ap (◌++◌ (fgets 63 (c ∷ cs)).0) e' ∙ e, (l, l'))
  where
    le_down : {a b : ℕ} → suc a ≤ suc b → a ≤ b
    le_down h = omega arith

-- As many rounds as the file has bytes are enough: the lines of `sensors_config_read`, put
-- together, are the whole file, and each of them fits into `buf`.
pub file_lines_whole :
    (s : Bytes) → (joined (file_lines (length s) s) ≡ s) × AllShort (file_lines (length s) s)
file_lines_whole s = file_lines_split (length s) s (omega arith)

abbrev pub AllOf : (ℕ → Bool) → Bytes → Type 0
AllOf p [] = Unit
AllOf p (c ∷ cs) = (p c ≡ true) × AllOf p cs

abbrev pub Stops : (ℕ → Bool) → Bytes → Type 0
Stops p [] = Unit
Stops p (c ∷ cs) = p c ≡ false

scan_set_takes :
    (p : ℕ → Bool) (a r : Bytes) (n : ℕ)
    → AllOf p a
    → Stops p r
    → length a ≤ n
    → scan_set p n (a ++ r) ≡ (a, r)
unfolding scan_set
scan_set_takes p [] [] zero h s l = refl
scan_set_takes p [] [] (suc n) h s l = refl
scan_set_takes p [] (c ∷ r) zero h s l = refl
scan_set_takes p [] (c ∷ r) (suc n) h s l = rw s
scan_set_takes p (c ∷ a) r zero h s l = absurd (omega arith)
scan_set_takes p (c ∷ a) r (suc n) h s l = rw (h.0, scan_set_takes p a r n h.1 s (omega arith))

abbrev pub in_prefix : ℕ → Bool
in_prefix c = not (c == underscore)

abbrev pub in_key : ℕ → Bool
in_key c = not (c == space) && not (c == equals)

abbrev pub in_between : ℕ → Bool
in_between c = c == space || c == equals

abbrev pub in_value : ℕ → Bool
in_value c = not (c == newline)

-- The line of an entry.
abbrev pub line_of : Entry → Bytes → Bytes
line_of e between = e.prefix ++ underscore ∷ (e.key ++ (between ++ (e.value ++ newline ∷ [])))

-- What an entry must be for a line of the file to express it, between these separators. The whole
-- line fits into `buf`, beside its NUL.
pub record IsWritable (e : Entry) (between : Bytes) : Type 0 where
  pub prefix_some : not_empty e.prefix ≡ true
  pub key_some : not_empty e.key ≡ true
  pub between_some : not_empty between ≡ true
  pub value_some : not_empty e.value ≡ true
  pub prefix_all : AllOf in_prefix e.prefix
  pub key_all : AllOf in_key e.key
  pub between_all : AllOf in_between between
  pub value_all : AllOf in_value e.value
  pub value_first : Stops in_between e.value
  pub prefix_first : Stops (λ c. c == hash) e.prefix
  pub prefix_line : AllOf in_value e.prefix
  pub key_line : AllOf in_value e.key
  pub line_short : length (line_of e between) < buf_size

Stops-between :
    (between r : Bytes)
    → not_empty between ≡ true
    → AllOf in_between between
    → Stops in_key (between ++ r)
Stops-between [] r n h = cc
Stops-between (c ∷ cs) r n h = ground arith

Stops-value : (v r : Bytes) → not_empty v ≡ true → Stops in_between v → Stops in_between (v ++ r)
Stops-value [] r n h = cc
Stops-value (c ∷ cs) r n h = h

length-line_of :
    (e : Entry) (between : Bytes)
    → length (line_of e between)
      ≡ length e.prefix + suc (length e.key + (length between + (length e.value + 1)))
length-line_of e between =
    let v = e.value ++ newline ∷ [] in
    omega (
      arith,
      length-append {0} e.prefix (underscore ∷ (e.key ++ (between ++ v))),
      length-append {0} e.key (between ++ v),
      length-append {0} between v,
      length-append {0} e.value (newline ∷ []),
    )

scan_rest_line :
    (e : Entry) (between : Bytes)
    → IsWritable e between
    → scan_rest e.prefix (some (e.key ++ (between ++ (e.value ++ newline ∷ [])))) ≡ some e
unfolding scan_rest
scan_rest_line e between w =
    rw
      (scan_set_takes in_key e.key (between ++ (e.value ++ newline ∷ [])) 64 w.key_all
        (Stops-between between (e.value ++ newline ∷ []) w.between_some w.between_all)
        (omega (arith, length-line_of e between, w.line_short)))
      (rw
        (scan_set_takes in_between between (e.value ++ newline ∷ [])
          (length (between ++ (e.value ++ newline ∷ []))) w.between_all
          (Stops-value e.value (newline ∷ []) w.value_some w.value_first)
          (omega (arith, length-append {0} between (e.value ++ newline ∷ []))))
        (rw
          (scan_set_takes in_value e.value (newline ∷ []) 64 w.value_all refl
            (omega (arith, length-line_of e between, w.line_short)))
          (rw (w.prefix_some, w.key_some, w.between_some, w.value_some))))

-- An entry that a line can express is read back from its line, with any run of blanks and `=`
-- between key and value: prefix up to the first `_`, key, and value up to the end of the line.
pub scan_entry_line :
    (e : Entry) (between : Bytes) → IsWritable e between → scan_entry (line_of e between) ≡ some e
unfolding scan_entry skip_underscore
scan_entry_line e between w =
    rw
      (scan_set_takes in_prefix e.prefix
        (underscore ∷ (e.key ++ (between ++ (e.value ++ newline ∷ [])))) 64 w.prefix_all refl
        (omega (arith, length-line_of e between, w.line_short)))
      (scan_rest_line e between w)
