-- ===== src/Clock/Ticks.antt =====
-- internal/clock/clocktest/fake.go: what Advance does to a ticker.
use gokvx.Prelude.{
  ℕ, zero, suc, ◌+◌, ◌<◌, if◌then◌else◌, Bool, true, false, Bool-cases, arith, Option, none, some,
  ◌≡◌, ◌⊎◌, refl, sym, inl, inr,
}
use mathlib.Core.Path.{subst}
use gokvx.Prelude.Int.{ℤ, pos, ◌+ℤ◌, ltb_ℤ, ◌≤ℤ◌, pos_part, neg_part, +ℤ_parts}
use gokvx.Clock.{FakeTicker, catch_up, distance, offer, fire}

-- The time `k` intervals later.
unfoldable pub later : ℕ → ℤ → ℤ → ℤ
later zero interval t = t
later (suc k) interval t = later k interval (t +ℤ interval)

-- The loop ends with the first tick after `now`.
not_before : (a b : ℤ) → ltb_ℤ a b ≡ false → b ≤ℤ a
not_before a b h = ground (arith, h)

positive : (i : ℤ) → ltb_ℤ (pos 0) i ≡ true → neg_part i < pos_part i
positive i h = ground (arith, h)

reach_next :
    (fuel : ℕ) (now interval next : ℤ)
    → neg_part interval < pos_part interval
    → pos_part now + neg_part next < pos_part next + neg_part now + suc fuel
    → pos_part now + neg_part (next +ℤ interval) < pos_part (next +ℤ interval) + neg_part now + fuel
reach_next fuel now interval next p h = omega (arith, p, h, +ℤ_parts next interval)

stays_near : (now interval next : ℤ) → next ≤ℤ now → next +ℤ interval ≤ℤ now +ℤ interval
stays_near now interval next h = omega (arith, h, +ℤ_parts next interval, +ℤ_parts now interval)

-- The loop ends with the first tick after `now`.
catch_up_exact :
    (fuel : ℕ) (now interval next : ℤ)
    → ltb_ℤ (pos 0) interval ≡ true
    → pos_part now + neg_part next < pos_part next + neg_part now + fuel
    → next ≤ℤ now +ℤ interval
    → (k : ℕ) × (catch_up fuel now interval next ≡ later k interval next)
      × (ltb_ℤ now (catch_up fuel now interval next) ≡ true)
      × (catch_up fuel now interval next ≤ℤ now +ℤ interval)
unfolding catch_up later
catch_up_exact zero now interval next p h b = (0, refl, ground (arith, h), b)
catch_up_exact (suc fuel) now interval next p h b = elim (Bool-cases (ltb_ℤ now next)) [
  | inl e ↦ (0, rw e refl, rw e e, rw e b)
  | inr e ↦
      let (k, q, l, u) =
        catch_up_exact fuel now interval (next +ℤ interval) p
          (reach_next fuel now interval next (positive interval p) h)
          (stays_near now interval next (not_before now next e)) in
      (suc k, rw e q, rw e l, rw e u)
]

enough :
    (now next : ℤ) → pos_part now + neg_part next < pos_part next + neg_part now + distance now next
enough now next = omega arith

soon :
    (now interval next : ℤ)
    → neg_part interval < pos_part interval
    → next ≤ℤ now
    → next ≤ℤ now +ℤ interval
soon now interval next p h = omega (arith, p, h, +ℤ_parts now interval)

-- A channel of one place after a tick is sent to it without waiting: one that is empty holds the
-- tick, and one that is full holds what it held.
abbrev pub Offered : ℤ → Option ℤ → Option ℤ → Type 0
Offered now before after =
    ((before ≡ none) × (after ≡ some now))
    ⊎ ((earlier : ℤ) × (before ≡ some earlier) × (after ≡ some earlier))

offer-Offered : (now : ℤ) (c : Option ℤ) → Offered now c (offer now c)
offer-Offered now none = inl (refl, refl)
offer-Offered now (some earlier) = inr (earlier, refl, refl)

-- The ticker after a tick at `now`: the tick is in its channel, unless an earlier one was not read,
-- and the next is the first one after `now` that is a number of intervals later than the old.
abbrev pub IsFired : ℤ → FakeTicker → FakeTicker → Type 0
IsFired now t u =
    Offered now t.channel u.channel
    × (u.interval ≡ t.interval)
    × (u.is_stopped ≡ false)
    × (ltb_ℤ now u.next ≡ true)
    × (u.next ≤ℤ now +ℤ t.interval)
    × ((k : ℕ) × (u.next ≡ later k t.interval t.next))

neither :
    {A : Type 0} (a b : Bool) (x y : A)
    → a ≡ false
    → b ≡ false
    → (if a then x else if b then x else y) ≡ y
neither false false x y h k = refl
neither false true x y h k = absurd (cc)
neither true b x y h k = absurd (cc)

fire_due :
    (now : ℤ) (t : FakeTicker)
    → t.is_stopped ≡ false
    → ltb_ℤ now t.next ≡ false
    → fire now t ≡ record t {
      channel = offer now t.channel;
      next = catch_up (distance now t.next) now t.interval t.next;
    }
unfolding fire
fire_due now t s e = neither t.is_stopped (ltb_ℤ now t.next) t _ s e

pub fire-IsFired :
    (now : ℤ) (t : FakeTicker)
    → ltb_ℤ (pos 0) t.interval ≡ true
    → t.is_stopped ≡ false
    → ltb_ℤ now t.next ≡ false
    → IsFired now t (fire now t)
fire-IsFired now t p s e =
    let near = soon now t.interval t.next (positive t.interval p) (not_before now t.next e) in
    let (k, q, l, u) =
      catch_up_exact (distance now t.next) now t.interval t.next p (enough now t.next) near in
    subst (IsFired now t) (sym (fire_due now t s e))
      (offer-Offered now t.channel, refl, s, l, u, (k, q))

pub fire_waiting : (now : ℤ) (t : FakeTicker) → ltb_ℤ now t.next ≡ true → fire now t ≡ t
unfolding fire
fire_waiting now t e = ground (arith, e)

pub fire_stopped : (now : ℤ) (t : FakeTicker) → t.is_stopped ≡ true → fire now t ≡ t
unfolding fire
fire_stopped now t e = ground (arith, e)
