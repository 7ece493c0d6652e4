-- ===== src/Pricing/Earliest.antt =====
-- What cleanStreakDays of packages/pricing/src/index.ts counts, said without its loops.
use repayd.Common.{
  ℕ, ◌-◌, ◌/◌, ◌≤◌, ◌≡◌, ◌⊎◌, refl, Bool, true, false, ◌&&◌, Option, none, some, List, [], ◌∷◌,
  arith, ltb, any, keep, All, ltb→lt, ltb→le, Bool-cases, inl, inr,
}
use repayd.Pricing.Record.{Kind, clean_day, attempted_breach, denied_claim, PricingEvent}
use repayd.Pricing.Streak.{loop, is_infraction, is_clean_day, days_since, clean_streak_days}
use repayd.Pricing.Reset.{infraction_after, stands, earliest, clean_streak_days-earliest}

-- e is an attempted breach or a denied claim
abbrev pub Infraction : PricingEvent → Type 0
Infraction e = (e.kind ≡ attempted_breach) ⊎ (e.kind ≡ denied_claim)

-- a clean day of the log that no attempted breach and no denied claim of the log follows
pub record Standing (events : List PricingEvent) (c : PricingEvent) : Type 0 where
  pub clean : c.kind ≡ clean_day
  pub unbroken : All (λ e. Infraction e → e.at ≤ c.at) events

infraction_after-none :
    (t : ℕ) (events : List PricingEvent)
    → any (infraction_after t) events ≡ false
    → All (λ e. Infraction e → e.at ≤ t) events
unfolding any
infraction_after-none t [] h = tt
infraction_after-none t (e ∷ es) h =
    (λ i. first e.kind i (ground arith), infraction_after-none t es (ground arith))
  where
    first :
        (k : Kind)
        → (k ≡ attempted_breach) ⊎ (k ≡ denied_claim)
        → (is_infraction k && ltb t e.at) ≡ false
        → e.at ≤ t
    first k (inl same) off = ltb→le t e.at (rw same at off)
    first k (inr same) off = ltb→le t e.at (rw same at off)

infraction_after-All :
    (t : ℕ) (events : List PricingEvent)
    → All (λ e. Infraction e → e.at ≤ t) events
    → any (infraction_after t) events ≡ false
unfolding any
infraction_after-All t [] h = refl
infraction_after-All t (e ∷ es) (h, hs) = rw (first e.kind h, infraction_after-All t es hs) refl
  where
    first :
        (k : Kind)
        → ((k ≡ attempted_breach) ⊎ (k ≡ denied_claim) → e.at ≤ t)
        → (is_infraction k && ltb t e.at) ≡ false
    first attempted_breach h = ground (arith, h (inl refl))
    first denied_claim h = ground (arith, h (inr refl))
    first k h = refl

clean_day_iff :
    (k : Kind) → (is_clean_day k ≡ true → k ≡ clean_day) × (k ≡ clean_day → is_clean_day k ≡ true)
clean_day_iff k = ground arith

stands-Standing :
    (events : List PricingEvent) (c : PricingEvent) → stands events c ≡ true → Standing events c
stands-Standing events c h = record {
  clean = (clean_day_iff c.kind).0 (ground arith);
  unbroken = infraction_after-none c.at events (ground arith);
}

Standing-stands :
    (events : List PricingEvent) (c : PricingEvent) → Standing events c → stands events c ≡ true
Standing-stands events c s =
    rw ((clean_day_iff c.kind).1 s.clean, infraction_after-All c.at events s.unbroken) refl

-- some event of the log satisfies a predicate
abbrev pub OneOf : (PricingEvent → Type 0) → List PricingEvent → Type 0
OneOf P [] = ⊥
OneOf P (e ∷ es) = P e ⊎ OneOf P es

-- an instant is not after another one, if there is one
abbrev UpTo : ℕ → Option ℕ → Type 0
UpTo t none = Unit
UpTo t (some a) = t ≤ a

-- the least instant of the events that pass a test, and of a first one
abbrev IsLeast : (PricingEvent → Bool) → Option ℕ → List PricingEvent → Option ℕ → Type 0
IsLeast p b events none = (b ≡ none) × All (λ e. p e ≡ false) events
IsLeast p b events (some t) =
    ((b ≡ some t) ⊎ OneOf (λ e. (p e ≡ true) × (e.at ≡ t)) events)
    × UpTo t b
    × All (λ e. p e ≡ true → t ≤ e.at) events

module _ (p : PricingEvent → Bool) (e : PricingEvent) (es : List PricingEvent) where
  skip-IsLeast : (b o : Option ℕ) → p e ≡ false → IsLeast p b es o → IsLeast p b (e ∷ es) o
  skip-IsLeast b none off (hb, hs) = (hb, (off, hs))
  skip-IsLeast b (some t) off (inl hb, up, hs) = (inl hb, up, (λ on. absurd (ground arith), hs))
  skip-IsLeast b (some t) off (inr one, up, hs) =
      (inr (inr one), up, (λ on. absurd (ground arith), hs))

  -- the event is the least so far
  take-IsLeast :
      (b o : Option ℕ)
      → p e ≡ true
      → ((t : ℕ) → t ≤ e.at → UpTo t b)
      → IsLeast p (some e.at) es o
      → IsLeast p b (e ∷ es) o
  take-IsLeast b none on below (hb, hs) = absurd (ground arith)
  take-IsLeast b (some t) on below (inl hb, up, hs) =
      (inr (inl (on, ground arith)), below t up, (λ _. up, hs))
  take-IsLeast b (some t) on below (inr one, up, hs) = (inr (inr one), below t up, (λ _. up, hs))

  -- a first instant stays the least
  stay-IsLeast :
      (a : ℕ) (o : Option ℕ) → a ≤ e.at → IsLeast p (some a) es o → IsLeast p (some a) (e ∷ es) o
  stay-IsLeast a none le (hb, hs) = absurd (ground arith)
  stay-IsLeast a (some t) le (inl hb, up, hs) = (inl hb, up, (λ _. omega (arith, up), hs))
  stay-IsLeast a (some t) le (inr one, up, hs) = (inr (inr one), up, (λ _. omega (arith, up), hs))

  earliest-IsLeast :
      (b : Option ℕ) (rest : Option ℕ → Option ℕ)
      → p e ≡ true
      → ((c : Option ℕ) → IsLeast p c es (rest c))
      → IsLeast p b (e ∷ es) (rest (earliest b e))
  earliest-IsLeast none rest on h =
      take-IsLeast none (rest (some e.at)) on (λ t le. tt) (h (some e.at))
  earliest-IsLeast (some a) rest on h = elim (Bool-cases (ltb e.at a)) [
    | inl before ↦ rw before (
        take-IsLeast (some a) (rest (some e.at)) on
          (λ t le. omega (arith, le, ltb→lt e.at a before)) (h (some e.at)))
    | inr after ↦ rw after (stay-IsLeast a (rest (some a)) (ltb→le e.at a after) (h (some a)))
  ]

loop-IsLeast :
    (p : PricingEvent → Bool) (b : Option ℕ) (events : List PricingEvent)
    → IsLeast p b events (loop earliest b (keep p events))
unfolding loop keep
loop-IsLeast p none [] = (refl, tt)
loop-IsLeast p (some a) [] = (inl refl, omega arith, tt)
loop-IsLeast p b (e ∷ es) = elim (Bool-cases (p e)) [
  | inr off ↦ rw off (skip-IsLeast p e es b _ off (loop-IsLeast p b es))
  | inl on ↦
      rw on
        (earliest-IsLeast p e es b (λ c. loop earliest c (keep p es)) on (λ c. loop-IsLeast p c es))
]

-- a number of days is what counts from the earliest clean day that stands, or 0 when none does
abbrev pub CountsFromEarliest : List PricingEvent → ℕ → ℕ → Type 0
CountsFromEarliest events now days =
    (All (λ e. ¬ Standing events e) events × (days ≡ 0))
    ⊎ ((t : ℕ) × OneOf (λ c. Standing events c × (c.at ≡ t)) events
        × All (λ c. Standing events c → t ≤ c.at) events
        × (days ≡ (now - t) / 86_400_000))

module _ (events : List PricingEvent) where
  none-Standing :
      (es : List PricingEvent)
      → All (λ e. stands events e ≡ false) es
      → All (λ e. ¬ Standing events e) es
  none-Standing [] h = tt
  none-Standing (e ∷ es) (h, hs) =
      (λ s. refused e h (Standing-stands events e s), none-Standing es hs)
    where
      refused : (e : PricingEvent) → stands events e ≡ false → stands events e ≡ true → ⊥
      refused e off on = ground arith

  all-Standing :
      (t : ℕ) (es : List PricingEvent)
      → All (λ e. stands events e ≡ true → t ≤ e.at) es
      → All (λ c. Standing events c → t ≤ c.at) es
  all-Standing t [] h = tt
  all-Standing t (e ∷ es) (h, hs) = (λ s. h (Standing-stands events e s), all-Standing t es hs)

  one-Standing :
      (t : ℕ) (es : List PricingEvent)
      → OneOf (λ e. (stands events e ≡ true) × (e.at ≡ t)) es
      → OneOf (λ c. Standing events c × (c.at ≡ t)) es
  one-Standing t [] h = h
  one-Standing t (e ∷ es) (inl (on, same)) = inl (stands-Standing events e on, same)
  one-Standing t (e ∷ es) (inr h) = inr (one-Standing t es h)

  counts :
      (now : ℕ) (o : Option ℕ)
      → IsLeast (stands events) none events o
      → CountsFromEarliest events now (days_since now o)
  counts now none (hb, hs) = inl (none-Standing events hs, refl)
  counts now (some t) (inl hb, up, hs) = absurd (ground arith)
  counts now (some t) (inr one, up, hs) =
      inr (t, one-Standing t events one, all-Standing t events hs, refl)

-- The clean streak is zero when no clean day of the log stands, that is has no attempted breach and no
-- denied claim after it. Otherwise it is the number of whole spans of 86400000 ms from the earliest
-- clean day that stands to now, and zero if that day is later than now.
pub clean_streak_days_lem :
    (events : List PricingEvent) (now : ℕ)
    → CountsFromEarliest events now (clean_streak_days events now)
clean_streak_days_lem events now = rw (clean_streak_days-earliest events now) (
    counts events now (loop earliest none (keep (stands events) events))
      (loop-IsLeast (stands events) none events))
