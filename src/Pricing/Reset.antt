-- ===== src/Pricing/Reset.antt =====
-- What cleanStreakDays of packages/pricing/src/index.ts counts: the days since the earliest clean day
-- that no infraction follows.
use repayd.Common.{
  ℕ, ◌-◌, ◌*◌, ◌≤◌, ◌<◌, ◌≡◌, refl, ap, ◌∙◌, Bool, true, ◌&&◌, ◌||◌, not, Option, none, some, List,
  [], ◌∷◌, arith, ltb, ◌==◌, any, keep, if◌then◌else◌, ltb→lt, ltb→le, Bool-cases, inl, inr,
}
use repayd.Pricing.Record.{PricingEvent, day_ms}
use repayd.Pricing.Streak.{
  loop, later_infraction, earlier_anchor, last_infraction, anchor_of, clean_streak_days,
  is_infraction, is_clean_day, is_from, is_before, days_since,
}

-- an infraction after an instant
abbrev pub infraction_after : ℕ → PricingEvent → Bool
infraction_after t e = is_infraction e.kind && ltb t e.at

-- a clean day of a log that none of its infractions follows
abbrev pub stands : List PricingEvent → PricingEvent → Bool
stands events c = is_clean_day c.kind && not (any (infraction_after c.at) events)

abbrev pub earliest : Option ℕ → PricingEvent → Option ℕ
earliest b e = if is_before e.at b then some e.at else b

later_infraction-is_from :
    (t : ℕ) (last : Option ℕ) (e : PricingEvent)
    → is_from t (later_infraction last e) ≡ (is_from t last && not (infraction_after t e))
later_infraction-is_from t none e = ground arith
later_infraction-is_from t (some l) e = ground arith

and_not_or : (a b c : Bool) → ((a && not b) && not c) ≡ (a && not (b || c))
and_not_or a b c = ground arith

loop-is_from :
    (t : ℕ) (last : Option ℕ) (events : List PricingEvent)
    → is_from t (loop later_infraction last events)
      ≡ (is_from t last && not (any (infraction_after t) events))
unfolding loop any
loop-is_from t last [] = ground arith
loop-is_from t last (e ∷ es) =
    rw (loop-is_from t (later_infraction last e) es, later_infraction-is_from t last e)
      (and_not_or (is_from t last) (infraction_after t e) (any (infraction_after t) es))

loop-keep :
    (last b : Option ℕ) (events : List PricingEvent)
    → loop (earlier_anchor last) b events
      ≡ loop earliest b (keep (λ c. is_clean_day c.kind && is_from c.at last) events)
unfolding loop keep
loop-keep last b [] = refl
loop-keep last b (e ∷ es) = elim (Bool-cases (is_clean_day e.kind && is_from e.at last)) [
  | inl eligible ↦ rw eligible (loop-keep last (earliest b e) es)
  | inr other ↦ rw other (loop-keep last b es)
]

keep_same :
    (p q : PricingEvent → Bool) (events : List PricingEvent)
    → ((e : PricingEvent) → p e ≡ q e)
    → keep p events ≡ keep q events
unfolding keep
keep_same p q [] h = refl
keep_same p q (e ∷ es) h = rw (h e, keep_same p q es h) refl

pub clean_streak_days-earliest :
    (events : List PricingEvent) (now : ℕ)
    → clean_streak_days events now
      ≡ days_since now (loop earliest none (keep (stands events) events))
unfolding clean_streak_days last_infraction anchor_of
clean_streak_days-earliest events now =
    let last = loop later_infraction none events in
    ap (days_since now) (
      loop-keep last none events
      ∙ ap (loop earliest none) (
          keep_same (λ c. is_clean_day c.kind && is_from c.at last) (stands events) events
            (λ c. ap (λ b. is_clean_day c.kind && b) (loop-is_from c.at none events))))

-- whether an infraction of that instant is in the log
abbrev pub infraction_at : ℕ → PricingEvent → Bool
infraction_at t e = is_infraction e.kind && (e.at == t)

abbrev From : ℕ → Option ℕ → Type 0
From t none = Unit
From t (some a) = t ≤ a

earliest-From :
    (p : PricingEvent → Bool) (t : ℕ) (b : Option ℕ) (events : List PricingEvent)
    → ((c : PricingEvent) → p c ≡ true → t ≤ c.at)
    → From t b
    → From t (loop earliest b (keep p events))
unfolding loop keep
earliest-From p t b [] h hb = hb
earliest-From p t b (e ∷ es) h hb = elim (Bool-cases (p e)) [
  | inl kept ↦ rw kept (earliest-From p t (earliest b e) es h (step b hb (h e kept)))
  | inr dropped ↦ rw dropped (earliest-From p t b es h hb)
]
  where
    step : (b : Option ℕ) → From t b → t ≤ e.at → From t (earliest b e)
    step none hb he = he
    step (some a) hb he = ground arith

any_later :
    (t c : ℕ) (events : List PricingEvent)
    → any (infraction_at t) events ≡ true
    → c < t
    → any (infraction_after c) events ≡ true
unfolding any
any_later t c [] h lt = ground arith
any_later t c (e ∷ es) h lt = ground (arith, any_later t c es)

days_since-From : (now t : ℕ) (a : Option ℕ) → From t a → days_since now a * day_ms ≤ now - t
days_since-From now t none h = omega arith
days_since-From now t (some a) h = omega (arith, h)

-- An attempted breach or a denied claim anywhere in the log resets the streak: it is never longer than
-- the time since then.
pub clean_streak_days-infraction :
    (events : List PricingEvent) (now t : ℕ)
    → any (infraction_at t) events ≡ true
    → clean_streak_days events now * day_ms ≤ now - t
clean_streak_days-infraction events now t h =
    rw (clean_streak_days-earliest events now)
      (days_since-From now t _ (earliest-From (stands events) t none events (λ c. stands-le c) tt))
  where
    stands-le : (c : PricingEvent) → stands events c ≡ true → t ≤ c.at
    stands-le c stood = elim (Bool-cases (ltb c.at t)) [
      | inl before ↦ absurd (ground (arith, any_later t c.at events h (ltb→lt c.at t before)))
      | inr after ↦ ltb→le c.at t after
    ]
