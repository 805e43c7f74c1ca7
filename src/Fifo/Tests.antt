-- ===== src/Fifo/Tests.antt =====
-- Runs of sensors_fifo.c on numbers as events.
use akm_dash.Common.{ℕ, ◌<◌, ◌≡◌, refl, List, [], ◌∷◌, ◌++◌, arith, replicate, take}
use akm_dash.Fifo.{
  Fifo, fifo_len, put, get_all, apply, idle, Event, put_one, enter, leave, State, run,
}
use akm_dash.Fifo.Queue.{IsValid, contents, put_refines, get_all_refines}
use akm_dash.Fifo.Trace.{Subsequence, puts, run_in_order, enter_waits}

abbrev three : Fifo ℕ
three = record { fifo_i = 3; fifo = 5 ∷ 6 ∷ 7 ∷ replicate 5 0 }

three-IsValid : IsValid three
three-IsValid = omega arith

abbrev empty : State ℕ
empty = record { queue = record { fifo_i = 0; fifo = replicate 8 0 }; reader = idle; given = [] }

abbrev stocked : State ℕ
stocked = record { queue = three; reader = idle; given = [] }

abbrev calls : List (Event ℕ)
calls = put_one 1 ∷ enter ∷ put_one 2 ∷ put_one 3 ∷ leave 2 ∷ put_one 4 ∷ []

-- The event past the room of the reader is lost.
given_two : (run 0 calls empty).given ≡ 1 ∷ 2 ∷ []
unfolding run apply get_all put
given_two = refl

put_refines_run :
    IsValid (put 8 three)
    × (3 < fifo_len → contents (put 8 three) ≡ contents three ++ 8 ∷ [])
    × ((◌≡◌ {A = ℕ} 3 fifo_len) → put 8 three ≡ three)
put_refines_run = put_refines 8 {f = three} three-IsValid

get_all_refines_run :
    let (xs, f) = get_all 0 2 three in
    (xs ≡ take 2 (contents three)) × (contents f ≡ []) × IsValid f
get_all_refines_run = get_all_refines 0 2 {f = three} three-IsValid

run_in_order_example :
    Subsequence ((run 0 calls empty).given ++ contents (run 0 calls empty).queue) (puts calls)
run_in_order_example = run_in_order 0 calls empty (omega arith) refl refl

enter_waits_example :
    ((run 0 (enter ∷ leave 8 ∷ []) stocked).given ≡ [])
    × ((run 0 (enter ∷ leave 8 ∷ []) stocked).queue ≡ three)
enter_waits_example = enter_waits 0 (enter ∷ leave 8 ∷ []) stocked tt (λ e. cc)
