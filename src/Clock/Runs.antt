-- ===== src/Clock/Runs.antt =====
-- internal/clock/clocktest/fake.go: any calls on a fake clock.
use gokvx.Prelude.{
  ℕ, zero, suc, true, false, Bool-cases, All, List, [], ◌∷◌, ◌++◌, map, get_elem?, none, some,
  arith, ◌≡◌, refl, ap, sym, ◌∙◌, ◌⊎◌, inl, inr,
}
use mathlib.Core.Path.{subst}
use gokvx.Prelude.Int.{ℤ, pos, ◌+ℤ◌, ltb_ℤ, +ℤ_parts}
use gokvx.Clock.{FakeTicker, Fake, new, new_ticker, fire, advance, change_at, stop, receive}
use gokvx.Clock.Ticks.{IsFired, fire-IsFired, fire_waiting, fire_stopped}

pub data Call : Type 0 where
  create : ℤ → Call
  move : ℤ → Call
  halt : ℕ → Call
  read : ℕ → Call

-- A call of NewTicker that panics makes no ticker.
unfoldable pub step : Call → Fake → Fake
unfolding new_ticker advance
step (create d) f = elim (new_ticker d f) [ none ↦ f | some made ↦ made.1 ]
step (move d) f = advance d f
step (halt n) f = stop n f
step (read n) f = receive n f

unfoldable pub run_calls : List Call → Fake → Fake
run_calls [] f = f
run_calls (c ∷ cs) f = run_calls cs (step c f)

-- Every interval is positive, and the next tick of a ticker that runs is after the clock's time.
abbrev pub IsAhead : ℤ → FakeTicker → Type 0
IsAhead now t =
    (ltb_ℤ (pos 0) t.interval ≡ true) × ((t.is_stopped ≡ true) ⊎ (ltb_ℤ now t.next ≡ true))

abbrev pub IsTicking : Fake → Type 0
IsTicking f = All (IsAhead f.now) f.tickers

All-append {ℓ κ} :
    {A : Type ℓ} (P : A → Type κ) (xs : List A) (y : A) → All P xs → P y → All P (xs ++ y ∷ [])
All-append P [] y h p = (p, tt)
All-append P (x ∷ xs) y (h, hs) p = (h, All-append P xs y hs p)

fire-IsAhead : (now old : ℤ) (t : FakeTicker) → IsAhead old t → IsAhead now (fire now t)
fire-IsAhead now old t (p, h) = elim (Bool-cases t.is_stopped) [
  | inl s ↦ subst (IsAhead now) (sym (fire_stopped now t s)) (p, inl s)
  | inr s ↦ elim (Bool-cases (ltb_ℤ now t.next)) [
    | inl e ↦ subst (IsAhead now) (sym (fire_waiting now t e)) (p, inr e)
    | inr e ↦ let (c, i, r, l, u, k) = fire-IsFired now t p s e in (ap (ltb_ℤ (pos 0)) i ∙ p, inr l)
  ]
]

fired-IsAhead :
    (now old : ℤ) (ts : List FakeTicker)
    → All (IsAhead old) ts
    → All (IsAhead now) (map (fire now) ts)
fired-IsAhead now old [] h = tt
fired-IsAhead now old (t ∷ ts) (h, hs) = (fire-IsAhead now old t h, fired-IsAhead now old ts hs)

change_at-IsAhead :
    (n : ℕ) (now : ℤ) (g : FakeTicker → FakeTicker) (ts : List FakeTicker)
    → ((t : FakeTicker) → IsAhead now t → IsAhead now (g t))
    → All (IsAhead now) ts
    → All (IsAhead now) (change_at n g ts)
unfolding change_at
change_at-IsAhead n now g [] k h = tt
change_at-IsAhead zero now g (t ∷ ts) k (h, hs) = (k t h, hs)
change_at-IsAhead (suc n) now g (t ∷ ts) k (h, hs) = (h, change_at-IsAhead n now g ts k hs)

after_now : (now d : ℤ) → ltb_ℤ (pos 0) d ≡ true → ltb_ℤ now (now +ℤ d) ≡ true
after_now now d h = ground (arith, h, +ℤ_parts now d)

step-IsTicking : (c : Call) (f : Fake) → IsTicking f → IsTicking (step c f)
unfolding step new_ticker advance
step-IsTicking (create d) f h = elim (Bool-cases (ltb_ℤ (pos 0) d)) [
  | inl e ↦ rw (step, e) (All-append (IsAhead f.now) f.tickers _ h (e, inr (after_now f.now d e)))
  | inr e ↦ rw (step, e) h
]
step-IsTicking (move d) f h = fired-IsAhead (f.now +ℤ d) f.now f.tickers h
step-IsTicking (halt n) f h = change_at-IsAhead n f.now _ f.tickers (λ t k. (k.0, inl refl)) h
step-IsTicking (read n) f h = change_at-IsAhead n f.now _ f.tickers (λ t k. k) h

-- Whatever calls of NewTicker, Advance, Stop and receives follow each other on a clock, with any
-- durations, every ticker has a positive interval, and one that was not stopped has its next tick
-- after the time of the clock, if this held at first, as it does on a new clock.
pub run_calls-IsTicking : (cs : List Call) (f : Fake) → IsTicking f → IsTicking (run_calls cs f)
unfolding run_calls
run_calls-IsTicking [] f h = h
run_calls-IsTicking (c ∷ cs) f h = run_calls-IsTicking cs (step c f) (step-IsTicking c f h)

fired_at :
    (now : ℤ) (n : ℕ) (ts : List FakeTicker) (t : FakeTicker)
    → get_elem? ts n ≡ some t
    → get_elem? (map (fire now) ts) n ≡ some (fire now t)
fired_at now n [] t h = absurd (cc)
fired_at now zero (x ∷ ts) t h = ap (λ o. elim o [ none ↦ none | some y ↦ some (fire now y) ]) h
fired_at now (suc n) (x ∷ ts) t h = fired_at now n ts t h

IsAhead-get :
    (now : ℤ) (n : ℕ) (ts : List FakeTicker) (t : FakeTicker)
    → All (IsAhead now) ts
    → get_elem? ts n ≡ some t
    → IsAhead now t
IsAhead-get now n [] t h e = absurd (cc)
IsAhead-get now zero (x ∷ ts) t h e = subst (IsAhead now) (same e) h.0
  where
    same : some x ≡ some t → x ≡ t
    same p = cc
IsAhead-get now (suc n) (x ∷ ts) t h e = IsAhead-get now n ts t h.1 e

-- After any calls on a new clock, a move of the time to or past the next tick of a ticker that was
-- not stopped fires it: then its channel holds the tick of the new time, or the earlier one if one was
-- unread, and its next tick is the first one after the new time on the grid of its interval.
pub advance-IsFired :
    (start : ℤ) (cs : List Call) (d : ℤ) (n : ℕ) (t : FakeTicker)
    → get_elem? (run_calls cs (new start)).tickers n ≡ some t
    → t.is_stopped ≡ false
    → ltb_ℤ ((run_calls cs (new start)).now +ℤ d) t.next ≡ false
    → (u : FakeTicker) × (get_elem? (advance d (run_calls cs (new start))).tickers n ≡ some u)
      × IsFired ((run_calls cs (new start)).now +ℤ d) t u
unfolding advance
advance-IsFired start cs d n t h s e =
    let f = run_calls cs (new start) in
    let (p, _) = IsAhead-get f.now n f.tickers t (run_calls-IsTicking cs (new start) tt) h in
    (fire (f.now +ℤ d) t, fired_at (f.now +ℤ d) n f.tickers t h, fire-IsFired (f.now +ℤ d) t p s e)
