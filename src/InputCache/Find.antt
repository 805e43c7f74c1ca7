-- ===== src/InputCache/Find.antt =====
-- `lookup` of sensors_input_cache.c.
use akm_dash.Common.{
  ℕ, zero, suc, ◌<◌, ◌≡◌, refl, Option, none, some, List, [], ◌∷◌, length, ==_ne, if◌then◌else◌,
  arith,
}
use akm_dash.Config.Text.{Bytes}
use akm_dash.InputCache.{Cache, head, answers, lookup_from, lookup}
use akm_dash.InputCache.Ring.{Linked, Absent, IsRing}

-- The first of these nodes whose entry has the name or the path.
abbrev pub first_answer : Option Bytes → Option Bytes → Cache → List ℕ → Option ℕ
first_answer name path c [] = none
first_answer name path c (x ∷ xs) =
    if answers name path (c.entry x) then some x else first_answer name path c xs

lookup_from-Linked :
    (k a : ℕ) (name path : Option Bytes) (c : Cache) (xs : List ℕ)
    → length xs < k
    → Absent head xs
    → Linked c.nodes a xs head
    → lookup_from k (c.nodes.n a) name path c ≡ first_answer name path c xs
unfolding lookup_from
lookup_from-Linked zero a name path c xs h o l = absurd (omega arith)
lookup_from-Linked (suc k) a name path c [] h o (f, b) = rw f refl
lookup_from-Linked (suc k) a name path c (x ∷ xs) h (o, os) (f, b, l) =
    rw (f, ==_ne x head o, lookup_from-Linked k x name path c xs (omega arith) os l) refl

-- Where the cache is a ring of fewer nodes than the rounds that are allowed, `lookup` gives the
-- first node, the one that was added last, whose entry has the name or the path, and NULL exactly
-- where none has: it does not run past the ring.
pub lookup_refines :
    (fuel : ℕ) (name path : Option Bytes) (c : Cache) (xs : List ℕ)
    → IsRing c.nodes head xs
    → length xs < fuel
    → lookup fuel name path c ≡ first_answer name path c xs
unfolding lookup
lookup_refines fuel name path c xs (l, o, d) h = lookup_from-Linked fuel head name path c xs h o l
