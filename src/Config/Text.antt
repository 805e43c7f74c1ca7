-- ===== src/Config/Text.antt =====
-- The functions of the C library on texts that sensors_config.c uses. A C string is the list of
-- its bytes before the terminating NUL.
use akm_dash.Common.{
  ℕ, zero, suc, ◌+◌, ◌-◌, ◌*◌, ℤ, pos, negsuc, Bool, true, false, ◌&&◌, ◌||◌, List, [], ◌∷◌, ◌++◌,
  ltb, ◌==◌, if◌then◌else◌,
}

abbrev pub Bytes : Type 0
Bytes = List ℕ

abbrev pub newline : ℕ
newline = 10

abbrev pub space : ℕ
space = b' '

abbrev pub hash : ℕ
hash = b'#'

abbrev pub comma : ℕ
comma = b','

abbrev pub equals : ℕ
equals = b'='

abbrev pub underscore : ℕ
underscore = b'_'

-- One `%[…]` of `sscanf`, of at most this width: what it takes, and the rest. It fails where it
-- takes nothing.
unfoldable pub scan_set : (ℕ → Bool) → ℕ → Bytes → Bytes × Bytes
scan_set p zero s = ([], s)
scan_set p (suc n) [] = ([], [])
scan_set p (suc n) (c ∷ cs) =
    let (taken, rest) = scan_set p n cs in if p c then (c ∷ taken, rest) else ([], c ∷ cs)

-- `strncmp(a, b, strlen(a)) == 0`.
unfoldable pub is_prefix : Bytes → Bytes → Bool
is_prefix [] b = true
is_prefix (x ∷ a) [] = false
is_prefix (x ∷ a) (y ∷ b) = x == y && is_prefix a b

abbrev is_space : ℕ → Bool
is_space c = c == 32 || ltb 8 c && ltb c 14

abbrev is_digit : ℕ → Bool
is_digit c = ltb 47 c && ltb c 58

unfoldable pub skip_spaces : Bytes → Bytes
skip_spaces [] = []
skip_spaces (c ∷ cs) = let rest = skip_spaces cs in if is_space c then rest else c ∷ cs

unfoldable pub digits : ℕ → Bytes → ℕ
digits acc [] = acc
digits acc (c ∷ cs) = let rest = digits (acc * 10 + (c - 48)) cs in if is_digit c then rest else acc

unfoldable pub negate : ℕ → ℤ
negate zero = pos 0
negate (suc n) = negsuc n

unfoldable pub signed : Bytes → ℤ
unfolding negate digits
signed [] = pos 0
signed (c ∷ cs) =
    if c == b'-'
    then negate (digits 0 cs)
    else if c == b'+'
    then pos (digits 0 cs)
    else pos (digits 0 (c ∷ cs))

-- `atoi`, on values that an `int` holds.
unfoldable pub atoi : Bytes → ℤ
unfolding skip_spaces signed
atoi s = signed (skip_spaces s)

unfoldable pub emit : Bytes → List Bytes → List Bytes
emit [] ts = ts
emit (c ∷ cs) ts = (c ∷ cs) ∷ ts

unfoldable pub tokens_from : Bytes → Bytes → List Bytes
unfolding emit
tokens_from token [] = emit token []
tokens_from token (c ∷ cs) =
    let next = tokens_from [] cs in
    let same = tokens_from (token ++ c ∷ []) cs in if c == comma then emit token next else same

-- The tokens of `strtok_r(…, ",", …)`, which are never empty.
unfoldable pub tokens : Bytes → List Bytes
unfolding tokens_from
tokens s = tokens_from [] s

-- `fgets` with room for this many bytes beside the NUL: the line, and the rest of the file.
unfoldable pub fgets : ℕ → Bytes → Bytes × Bytes
fgets zero s = ([], s)
fgets (suc n) [] = ([], [])
fgets (suc n) (c ∷ cs) =
    let (line, rest) = fgets n cs in if c == newline then (c ∷ [], cs) else (c ∷ line, rest)
