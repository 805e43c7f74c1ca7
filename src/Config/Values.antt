-- ===== src/Config/Values.antt =====
-- `parse_value` of sensors_config.c on a list of numbers.
use akm_dash.Common.{
  ℕ, zero, suc, ◌+◌, ◌≤◌, ◌<◌, ◌≡◌, refl, ap, ℤ, pos, negsuc, List, [], ◌∷◌, map, arith, length,
  take, lt→ltb, le→ltb,
}
use akm_dash.Config.{type_array_int, ints, max_str_len, parse_tokens, parse_value}
use akm_dash.Config.Text.{Bytes, atoi, tokens}

parse_tokens_fit :
    (ts : List Bytes) (i out : ℕ)
    → i + length ts ≤ out
    → parse_tokens i out ts ≡ (pos 0, map atoi ts)
unfolding parse_tokens
parse_tokens_fit [] i out h = refl
parse_tokens_fit (t ∷ ts) i out h =
    rw (le→ltb out (suc i) (omega arith))
      (ap (λ (r : ℤ × List ℤ). (r.0, atoi t ∷ r.1)) (parse_tokens_fit ts (suc i) out (omega arith)))

parse_tokens_overrun :
    (ts : List Bytes) (i n out : ℕ)
    → i + n ≡ out
    → n < length ts
    → parse_tokens i out ts ≡ (negsuc 0, map atoi (take (suc n) ts))
unfolding parse_tokens
parse_tokens_overrun [] i n out e h = absurd (omega arith)
parse_tokens_overrun (t ∷ ts) i zero out e h = rw (lt→ltb out (suc i) (omega arith))
parse_tokens_overrun (t ∷ ts) i (suc n) out e h = rw (le→ltb out (suc i) (omega arith)) (
    ap (λ (r : ℤ × List ℤ). (r.0, atoi t ∷ r.1))
      (parse_tokens_overrun ts (suc i) n out (omega arith) (omega arith)))

-- A value of less than 64 bytes that holds at most `out_size` numbers, separated by commas, is
-- read whole: each number is stored and 0 is returned. If it holds more, -1 is returned, and the
-- first `out_size + 1` of them have been stored: the last one goes behind the caller's array.
pub parse_value_array :
    (value : Bytes) (out_size : ℕ)
    → length value < max_str_len
    → let ts = tokens value in
      (length ts ≤ out_size
        → parse_value value type_array_int out_size ≡ (pos 0, ints (map atoi ts)))
      × (out_size < length ts
          → parse_value value type_array_int out_size
            ≡ (negsuc 0, ints (map atoi (take (suc out_size) ts))))
unfolding parse_value
parse_value_array value out_size h = rw (le→ltb 64 (length value + 1) (omega arith)) (
  (λ fits.
      ap (λ (r : ℤ × List ℤ). (r.0, ints r.1))
        (parse_tokens_fit (tokens value) 0 out_size (omega arith))),
  (λ over.
      ap (λ (r : ℤ × List ℤ). (r.0, ints r.1))
        (parse_tokens_overrun (tokens value) 0 out_size out_size (omega arith) over)),
)
