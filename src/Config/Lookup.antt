-- ===== src/Config/Lookup.antt =====
-- The list of sensors_config.c: which entry a request finds.
use akm_dash.Common.{
  ℕ, ◌≡◌, refl, sym, ap, ◌↔◌, negsuc, true, false, none, some, List, [], ◌∷◌, ◌++◌, arith, ==_iff,
  ==_refl, Bool-cases, inl, inr,
}
use mathlib.Core.Path.{ap₂}
use akm_dash.Common.{append_assoc}
use akm_dash.Config.{
  ◌>>=◌, Entry, live, insert_last, insert_entry, ConfigType, nothing, parse_value, matches,
  find_entry, value_of, get_key,
}
use akm_dash.Config.Text.{Bytes, is_prefix}

-- The second text goes on where the first ends.
abbrev pub Begins : Bytes → Bytes → Type 0
Begins a b = (rest : Bytes) × (b ≡ a ++ rest)

is_prefix→Begins : (a b : Bytes) → is_prefix a b ≡ true → Begins a b
unfolding is_prefix
is_prefix→Begins [] b h = (b, refl)
is_prefix→Begins (x ∷ a) [] h = cc
is_prefix→Begins (x ∷ a) (y ∷ b) h =
    let (rest, e) = is_prefix→Begins a b (ground arith) in
    (rest, ap₂ ◌∷◌ (sym ((==_iff x y).0 (ground arith))) e)

is_prefix_append : (a rest : Bytes) → is_prefix a (a ++ rest) ≡ true
unfolding is_prefix
is_prefix_append [] rest = refl
is_prefix_append (x ∷ a) rest = rw (==_refl x) (is_prefix_append a rest)

-- The entry's prefix and key are beginnings of those that are asked for.
abbrev pub Answers : Bytes → Bytes → Entry → Type 0
Answers prefix key e = Begins e.prefix prefix × Begins e.key key

matches_iff :
    (prefix key : Bytes) (e : Entry) → (matches prefix key e ≡ true) ↔ Answers prefix key e
unfolding matches
matches_iff prefix key e = (
  (λ h.
      (is_prefix→Begins e.prefix prefix (ground arith), is_prefix→Begins e.key key (ground arith))),
  (λ h. rw (h.0.1, h.1.1, is_prefix_append e.prefix h.0.0, is_prefix_append e.key h.1.0)),
)

-- None of these entries answers.
abbrev pub NoneAnswers : Bytes → Bytes → List Entry → Type 0
NoneAnswers prefix key [] = Unit
NoneAnswers prefix key (e ∷ es) = (¬ Answers prefix key e) × NoneAnswers prefix key es

matches_not :
    (prefix key : Bytes) (e : Entry) → ¬ Answers prefix key e → matches prefix key e ≡ false
matches_not prefix key e n = elim (Bool-cases (matches prefix key e)) [
  | inl t ↦ absurd (n ((matches_iff prefix key e).0 t))
  | inr f ↦ f
]

find_entry_first :
    (prefix key : Bytes) (l r : List Entry) (e : Entry)
    → NoneAnswers prefix key l
    → Answers prefix key e
    → find_entry prefix key (l ++ e ∷ r) ≡ some e
unfolding find_entry
find_entry_first prefix key [] r e n a = rw ((matches_iff prefix key e).1 a)
find_entry_first prefix key (x ∷ l) r e n a =
    rw (matches_not prefix key x n.0) (find_entry_first prefix key l r e n.1 a)

find_entry-none :
    (prefix key : Bytes) (l : List Entry)
    → NoneAnswers prefix key l
    → find_entry prefix key l ≡ none
unfolding find_entry
find_entry-none prefix key [] n = refl
find_entry-none prefix key (x ∷ l) n =
    rw (matches_not prefix key x n.0) (find_entry-none prefix key l n.1)

pub insert_last_append : (e : Entry) (es : List Entry) → insert_last e es ≡ es ++ e ∷ []
unfolding insert_last
insert_last_append e [] = refl
insert_last_append e (x ∷ es) = ap (◌∷◌ x) (insert_last_append e es)

-- `sensors_config_get_key` reads the value of the first entry of the file whose prefix and key are
-- beginnings of the prefix and the key that are asked for, which may be longer than the entry's.
-- Where no entry answers it returns -1 and stores nothing.
pub get_key_first :
    (prefix key : Bytes) (type : ConfigType) (out_size : ℕ) (l r : List Entry) (e : Entry)
    → NoneAnswers prefix key l
    → (Answers prefix key e
        → get_key prefix key type out_size (live (l ++ e ∷ r))
          ≡ some (parse_value e.value type out_size))
      × (get_key prefix key type out_size (live l) ≡ some (negsuc 0, nothing))
unfolding get_key
get_key_first prefix key type out_size l r e n = (
  (λ a. ap (λ o. some (value_of o type out_size)) (find_entry_first prefix key l r e n a)),
  ap (λ o. some (value_of o type out_size)) (find_entry-none prefix key l n),
)

-- An entry that `insert_entry` adds is found where no earlier entry answers, and takes no request
-- from an earlier one.
pub get_key-insert_entry :
    (prefix key : Bytes) (type : ConfigType) (out_size : ℕ) (l r : List Entry) (x e : Entry)
    → NoneAnswers prefix key l
    → (Answers prefix key e
        → (insert_entry e (live l) >>= get_key prefix key type out_size)
          ≡ some (parse_value e.value type out_size))
      × (Answers prefix key x
          → (insert_entry e (live (l ++ x ∷ r)) >>= get_key prefix key type out_size)
            ≡ some (parse_value x.value type out_size))
unfolding insert_entry
get_key-insert_entry prefix key type out_size l r x e n = (
  (λ a. rw insert_last_append ((get_key_first prefix key type out_size l [] e n).0 a)),
  (λ a.
      rw (insert_last_append, append_assoc)
        ((get_key_first prefix key type out_size l (r ++ e ∷ []) x n).0 a)),
)
