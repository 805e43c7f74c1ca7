-- ===== src/Config/Reading.antt =====
-- `sensors_config_read` over a whole file: the entries that it collects, and a line that it cannot
-- read.
use akm_dash.Common.{
  ℕ, suc, ◌≡◌, refl, ◌∙◌, ℤ, negsuc, Bool, true, none, some, List, [], ◌∷◌, ◌++◌, append-nil,
  append_assoc, arith,
}
use akm_dash.Config.{
  Entry, Line, comment, entry, bad, blank, Store, live, dangling, ◌>>=◌, insert_entry, destroy,
  classify, read_lines, get_key, ConfigType,
}
use akm_dash.Config.Text.{Bytes}
use akm_dash.Config.Lookup.{insert_last_append}

-- No line of these is one that cannot be read.
abbrev pub AllGood : List Bytes → Type 0
AllGood [] = Unit
AllGood (b ∷ bs) = (classify b ≡ bad → ⊥) × AllGood bs

abbrev entry_of : Line → List Entry
entry_of (entry e) = e ∷ []
entry_of comment = []
entry_of bad = []
entry_of blank = []

-- The entries of these lines, in order.
abbrev pub entries : List Bytes → List Entry
entries [] = []
entries (b ∷ bs) = entry_of (classify b) ++ entries bs

abbrev pub AllComments : List Bytes → Type 0
AllComments [] = Unit
AllComments (b ∷ bs) = (classify b ≡ comment) × AllComments bs

module _ (alloc : ℕ → Bool) where
  read_comment :
      (n : ℕ) (rv : ℤ) (b : Bytes) (bs : List Bytes) (st : Store)
      → classify b ≡ comment
      → read_lines alloc n rv (b ∷ bs) st ≡ read_lines alloc n rv bs st
  unfolding read_lines
  read_comment n rv b bs st h = rw (h, read_lines)

  read_entry :
      (n : ℕ) (rv : ℤ) (b : Bytes) (bs : List Bytes) (st : Store) (e : Entry)
      → classify b ≡ entry e
      → alloc n ≡ true
      → read_lines alloc n rv (b ∷ bs) st
        ≡ (insert_entry e st >>= λ st'. read_lines alloc (suc n) rv bs st')
  unfolding read_lines
  read_entry n rv b bs st e h a = ground arith

  read_bad :
      (n : ℕ) (rv : ℤ) (b : Bytes) (bs : List Bytes) (st : Store)
      → classify b ≡ bad
      → alloc n ≡ true
      → read_lines alloc n rv (b ∷ bs) st
        ≡ (destroy st >>= λ st'. read_lines alloc (suc n) (negsuc 0) bs st')
  unfolding read_lines
  read_bad n rv b bs st h a = ground arith

  read_blank :
      (n : ℕ) (rv : ℤ) (b : Bytes) (bs : List Bytes) (st : Store)
      → classify b ≡ blank
      → alloc n ≡ true
      → read_lines alloc n rv (b ∷ bs) st ≡ read_lines alloc (suc n) rv bs st
  unfolding read_lines
  read_blank n rv b bs st h a = ground arith

  -- Where every line can be read and no allocation fails, `sensors_config_read` returns what
  -- `retval` was, and appends the entries of the file to the list in their order.
  pub read_lines-entries :
      (bs : List Bytes) (n : ℕ) (rv : ℤ) (es : List Entry)
      → AllGood bs
      → ((k : ℕ) → alloc k ≡ true)
      → read_lines alloc n rv bs (live es) ≡ some (rv, live (es ++ entries bs))
  read_lines-entries [] n rv es g a = unfold read_lines in rw append-nil
  read_lines-entries (b ∷ bs) n rv es g a =
      go (classify b) refl (λ es' k. read_lines-entries bs k rv es' g.1 a)
    where
      go :
          (l : Line)
          → classify b ≡ l
          → ((es' : List Entry) (k : ℕ)
              → read_lines alloc k rv bs (live es') ≡ some (rv, live (es' ++ entries bs)))
          → read_lines alloc n rv (b ∷ bs) (live es)
            ≡ some (rv, live (es ++ (entry_of (classify b) ++ entries bs)))
      go comment h ih = rw (read_comment n rv b bs (live es) h, h) (ih es n)
      go (entry e) h ih =
          rw (read_entry n rv b bs (live es) e h (a n), h)
            (unfold insert_entry in
              (rw insert_last_append (rw (ih (es ++ e ∷ []) (suc n), append_assoc))))
      go bad h ih = absurd (g.0 h)
      go blank h ih = rw (read_blank n rv b bs (live es) h (a n), h) (ih es (suc n))

  comments_only :
      (mid rest : List Bytes) (n : ℕ) (rv : ℤ) (st : Store)
      → AllComments mid
      → read_lines alloc n rv (mid ++ rest) st ≡ read_lines alloc n rv rest st
  comments_only [] rest n rv st c = refl
  comments_only (b ∷ mid) rest n rv st c =
      read_comment n rv b (mid ++ rest) st c.0 ∙ comments_only mid rest n rv st c.1

  after_bad :
      (b : Bytes) (mid rest : List Bytes) (n : ℕ) (rv : ℤ) (x : Entry) (es : List Entry)
      → classify b ≡ bad
      → alloc n ≡ true
      → AllComments mid
      → read_lines alloc n rv (b ∷ (mid ++ rest)) (live (x ∷ es))
        ≡ read_lines alloc (suc n) (negsuc 0) rest dangling
  after_bad b mid rest n rv x es h a c =
      read_bad n rv b (mid ++ rest) (live (x ∷ es)) h a
      ∙ (unfold destroy in comments_only mid rest (suc n) (negsuc 0) dangling c)

  -- Where the first two allocations do not fail, a line that cannot be read makes
  -- `sensors_config_read` free a list that is not empty and go on. If only comments follow it
  -- returns -1, and every later request of a key reads freed memory; behind such comments, a line
  -- with an entry makes it write to freed memory itself, and another line that cannot be read makes
  -- it free the list a second time.
  pub read_lines_after_bad :
      (b : Bytes) (mid rest : List Bytes) (n : ℕ) (rv : ℤ) (x : Entry) (es : List Entry)
      → classify b ≡ bad
      → alloc n ≡ true
      → alloc (suc n) ≡ true
      → AllComments mid
      → (read_lines alloc n rv (b ∷ (mid ++ [])) (live (x ∷ es)) ≡ some (negsuc 0, dangling))
        × ((prefix key : Bytes) (type : ConfigType) (out_size : ℕ)
            → get_key prefix key type out_size dangling ≡ none)
        × ((g : Bytes) (e : Entry)
            → classify g ≡ entry e
            → read_lines alloc n rv (b ∷ (mid ++ g ∷ rest)) (live (x ∷ es)) ≡ none)
        × ((g : Bytes)
            → classify g ≡ bad
            → read_lines alloc n rv (b ∷ (mid ++ g ∷ rest)) (live (x ∷ es)) ≡ none)
  read_lines_after_bad b mid rest n rv x es h a a' c = (
    after_bad b mid [] n rv x es h a c ∙ (unfold read_lines in refl),
    (λ prefix key type out_size. unfold get_key in refl),
    (λ g e k.
        after_bad b mid (g ∷ rest) n rv x es h a c
        ∙ read_entry (suc n) (negsuc 0) g rest dangling e k a'
        ∙ (unfold insert_entry in refl)),
    (λ g k.
        after_bad b mid (g ∷ rest) n rv x es h a c
        ∙ read_bad (suc n) (negsuc 0) g rest dangling k a'
        ∙ (unfold destroy in refl)),
  )
