-- ===== src/Clock/Tests.antt =====
-- internal/clock/clocktest/fake.go: the theorems at concrete inputs.
use gokvx.Prelude.{false, List, [], ◌∷◌, get_elem?, none, some, ◌≡◌, refl}
use gokvx.Prelude.Int.{pos, negsuc, ◌+ℤ◌, ltb_ℤ}
use gokvx.Clock.{FakeTicker, new, new_ticker, catch_up, fire, advance, change_at}
use gokvx.Clock.Ticks.{IsFired}
use gokvx.Clock.Runs.{
  Call, create, move, read, step, run_calls, IsTicking, run_calls-IsTicking, advance-IsFired,
}

-- A ticker every 10, an invalid one, and time that goes on by 35.
abbrev calls : List Call
calls = create (pos 10) ∷ create (negsuc 0) ∷ move (pos 35) ∷ read 0 ∷ move (pos 1) ∷ []

run_calls-IsTicking_example : IsTicking (run_calls calls (new (pos 100)))
run_calls-IsTicking_example = run_calls-IsTicking calls (new (pos 100)) tt

abbrev ticker : FakeTicker
ticker = record { interval = pos 10; next = pos 140; channel = none; is_stopped = false }

ticker_made : get_elem? (run_calls calls (new (pos 100))).tickers 0 ≡ some ticker
unfolding run_calls step new_ticker advance fire catch_up change_at ◌+ℤ◌
ticker_made = refl

ticker_due : ltb_ℤ ((run_calls calls (new (pos 100))).now +ℤ pos 4) ticker.next ≡ false
unfolding run_calls step new_ticker advance fire catch_up change_at ◌+ℤ◌
ticker_due = refl

advance-IsFired_example :
    (u : FakeTicker) × (get_elem? (advance (pos 4) (run_calls calls (new (pos 100)))).tickers 0
      ≡ some u)
    × IsFired ((run_calls calls (new (pos 100))).now +ℤ pos 4) ticker u
advance-IsFired_example =
    advance-IsFired (pos 100) calls (pos 4) 0 ticker ticker_made refl ticker_due
