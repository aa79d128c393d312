-- ===== src/Clock.antt =====
-- internal/clock: the interfaces Clock and Ticker, and clocktest/fake.go, their fake. A time is a
-- number of nanoseconds, and so is a duration. A ticker is named by its number in the order of
-- creation; the map of the tickers that have not been stopped is a flag on each, since Advance
-- treats every ticker by itself. The system's clock is not modelled.
pub mod Ticks
pub mod Runs
mod Tests
use gokvx.Prelude.{
  ℕ, zero, suc, ◌+◌, ◌-◌, if◌then◌else◌, Bool, true, false, List, [], ◌∷◌, ◌++◌, map, length,
  get_elem?, Option, none, some,
}
use gokvx.Prelude.Int.{ℤ, pos, ◌+ℤ◌, ltb_ℤ, pos_part, neg_part}

-- `channel` is the tick that has not been read, of a channel with room for one.
pub record FakeTicker : Type 0 where
  pub interval : ℤ
  pub next : ℤ
  pub channel : Option ℤ
  pub is_stopped : Bool

pub record Fake : Type 0 where
  pub now : ℤ
  pub tickers : List FakeTicker

-- New, and Now is the field.
abbrev pub new : ℤ → Fake
new start = record { now = start; tickers = [] }

-- NewTicker; none is the panic.
unfoldable pub new_ticker : ℤ → Fake → Option (ℕ × Fake)
unfolding ◌+ℤ◌
new_ticker d f =
    if ltb_ℤ (pos 0) d
    then some (
      length f.tickers,
      record f {
        tickers =
            f.tickers
            ++ record { interval = d; next = f.now +ℤ d; channel = none; is_stopped = false } ∷ [];
      },
    )
    else none

-- The inner loop of Advance. An interval is at least 1, so the distance is fuel enough.
unfoldable pub catch_up : ℕ → ℤ → ℤ → ℤ → ℤ
unfolding ◌+ℤ◌
catch_up zero now interval next = next
catch_up (suc fuel) now interval next =
    let rest = catch_up fuel now interval (next +ℤ interval) in
    if ltb_ℤ now next then next else rest

-- The distance from `next` to a time that is not before it, and one more.
abbrev pub distance : ℤ → ℤ → ℕ
distance now next = suc (pos_part now + neg_part next - (pos_part next + neg_part now))

-- A send that does not wait: an unread tick stays.
abbrev pub offer : ℤ → Option ℤ → Option ℤ
offer now none = some now
offer now (some earlier) = some earlier

-- The body of Advance's loop.
unfoldable pub fire : ℤ → FakeTicker → FakeTicker
unfolding catch_up
fire now t = if t.is_stopped then t else if ltb_ℤ now t.next then t else record t {
  channel = offer now t.channel;
  next = catch_up (distance now t.next) now t.interval t.next;
}

unfoldable pub advance : ℤ → Fake → Fake
unfolding ◌+ℤ◌ fire
advance d f = let now = f.now +ℤ d in record { now = now; tickers = map (fire now) f.tickers }

-- Stop, and a receive from the channel, of one ticker.
unfoldable pub change_at : ℕ → (FakeTicker → FakeTicker) → List FakeTicker → List FakeTicker
change_at n g [] = []
change_at zero g (t ∷ ts) = g t ∷ ts
change_at (suc n) g (t ∷ ts) = t ∷ change_at n g ts

abbrev pub stop : ℕ → Fake → Fake
stop n f = record f { tickers = change_at n (λ t. record t { is_stopped = true }) f.tickers }

abbrev pub receive : ℕ → Fake → Fake
receive n f = record f { tickers = change_at n (λ t. record t { channel = none }) f.tickers }
