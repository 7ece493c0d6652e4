-- ===== src/Pricing/Order.antt =====
-- packages/pricing/src/index.ts prices a set of events: their order in the log does not count.
use mathlib.Core.List.{Permᴰ}
use mathlib.Core.List.Permᴰ
use repayd.Common.{
  ℕ, suc, ◌≡◌, refl, ap, ◌∙◌, Bool, true, false, ◌&&◌, Option, none, some, List, arith, leb, length,
  any, keep, if◌then◌else◌, Bool-cases, inl, inr,
}
use repayd.Pricing.Record.{PricingEvent, PricingPolicy, claim_window_ms, attempt_window_ms}
use repayd.Pricing.Streak.{
  loop, later_infraction, earlier_anchor, last_infraction, anchor_of, clean_streak_days,
  is_infraction, is_covered_claim, is_mitigation, is_attempted_breach, is_kya_verified,
  is_sdk_installed, is_watch_only, is_clean_day, is_from, is_before,
}
use repayd.Pricing.Claims.{recent_claims, is_within, claim_load, anomaly_load, near_misses}
use repayd.Pricing.Sorted.{latest, claim_load_lem}
use repayd.Pricing.Multipliers.{recent_attempts, multipliers_at}
use repayd.Pricing.Premium.{
  later, evaluation_instant, premium_at, compute_premium, cap_not_positive, no_events, premium,
}

module _ {ℓ κ} {A : Type ℓ} {B : Type κ} where
  loop_perm :
      (step : B → A → B)
      → ((b : B) (x y : A) → step (step b x) y ≡ step (step b y) x)
      → (b : B) {xs ys : List A} → Permᴰ xs ys
      → loop step b xs ≡ loop step b ys
  unfolding loop
  loop_perm step swaps b Permᴰ.nil = refl
  loop_perm step swaps b (Permᴰ.cons {a = x} {b = y} e p) = rw e (loop_perm step swaps (step b y) p)
  loop_perm step swaps b (Permᴰ.swap {a = x} {b = y} {l = l} e f) =
      rw (← e, ← f) (ap (λ s. loop step s l) (swaps b x y))
  loop_perm step swaps b (Permᴰ.trans p q) = loop_perm step swaps b p ∙ loop_perm step swaps b q

module _ {ℓ} {A : Type ℓ} (p : A → Bool) where
  any_perm : {xs ys : List A} → Permᴰ xs ys → any p xs ≡ any p ys
  unfolding any
  any_perm Permᴰ.nil = refl
  any_perm (Permᴰ.cons {b = y} e q) = rw (e, any_perm q) refl
  any_perm (Permᴰ.swap {a = x} {b = y} {l = l} e f) = rw (← e, ← f) (ground arith)
  any_perm (Permᴰ.trans q r) = any_perm q ∙ any_perm r

  keep_perm : {xs ys : List A} → Permᴰ xs ys → Permᴰ (keep p xs) (keep p ys)
  unfolding keep
  keep_perm Permᴰ.nil = Permᴰ.nil
  keep_perm (Permᴰ.cons {a = x} {b = y} {l₁ = l₁} {l₂ = l₂} e q) = rw e (elim (Bool-cases (p y)) [
    | inl kept ↦ rw kept (Permᴰ.cons refl (keep_perm q))
    | inr dropped ↦ rw dropped (keep_perm q)
  ])
  keep_perm (Permᴰ.swap {a = x} {b = y} {l = l} e f) =
      rw (← e, ← f)
        (elim (Bool-cases (p x)) [
          | inl kept_x ↦ elim (Bool-cases (p y)) [
            | inl kept_y ↦ rw (kept_x, kept_y) (Permᴰ.swap refl refl)
            | inr dropped_y ↦ rw (kept_x, dropped_y) (Permᴰ.refl _)
          ]
          | inr dropped_x ↦ rw dropped_x (Permᴰ.refl _)
        ])
  keep_perm (Permᴰ.trans q r) = Permᴰ.trans (keep_perm q) (keep_perm r)

length_perm {ℓ} : {A : Type ℓ} {xs ys : List A} → Permᴰ xs ys → length xs ≡ length ys
length_perm Permᴰ.nil = refl
length_perm (Permᴰ.cons e p) = ap suc (length_perm p)
length_perm (Permᴰ.swap e f) = refl
length_perm (Permᴰ.trans p q) = length_perm p ∙ length_perm q

later_infraction-swaps :
    (b : Option ℕ) (x y : PricingEvent)
    → later_infraction (later_infraction b x) y ≡ later_infraction (later_infraction b y) x
later_infraction-swaps none x y = ground arith
later_infraction-swaps (some b) x y = ground arith

earlier_anchor-swaps :
    (last b : Option ℕ) (x y : PricingEvent)
    → earlier_anchor last (earlier_anchor last b x) y
      ≡ earlier_anchor last (earlier_anchor last b y) x
earlier_anchor-swaps from b x y =
    earliest (is_clean_day x.kind && is_from x.at from) (is_clean_day y.kind && is_from y.at from) b
      x.at y.at
  where
    choose : Bool → ℕ → Option ℕ → Option ℕ
    choose ok at anchor = if ok && is_before at anchor then some at else anchor

    earliest :
        (p q : Bool) (b : Option ℕ) (m n : ℕ)
        → choose q n (choose p m b) ≡ choose p m (choose q n b)
    earliest false q b m n = refl
    earliest true false b m n = refl
    earliest true true none m n = ground arith
    earliest true true (some a) m n = ground arith

later-swaps : (b : Option ℕ) (x y : PricingEvent) → later (later b x) y ≡ later (later b y) x
later-swaps none x y = ground arith
later-swaps (some b) x y = ground arith

clean_streak_days_perm :
    (now : ℕ) {xs ys : List PricingEvent}
    → Permᴰ xs ys
    → clean_streak_days xs now ≡ clean_streak_days ys now
unfolding clean_streak_days last_infraction anchor_of
clean_streak_days_perm now {xs} {ys} p =
    rw (loop_perm later_infraction later_infraction-swaps none p) (
      rw
        (loop_perm (earlier_anchor (last_infraction ys)) (earlier_anchor-swaps (last_infraction ys))
          none p)
        refl)

later_claim-swaps : (b : ℕ) (x y : PricingEvent) → latest (latest b x) y ≡ latest (latest b y) x
later_claim-swaps b x y = ground arith

claim_load_perm :
    (now : ℕ) {xs ys : List PricingEvent} → Permᴰ xs ys → claim_load xs now ≡ claim_load ys now
claim_load_perm now {xs} {ys} p =
    let q = keep_perm (λ e. is_covered_claim e.kind && is_within claim_window_ms now e) p in
    rw
      (
        claim_load_lem xs now,
        claim_load_lem ys now,
        length_perm q,
        loop_perm latest later_claim-swaps 0 q,
        any_perm (λ e. is_mitigation e.kind && leb (loop latest 0 (recent_claims ys now)) e.at) p,
      )
      refl

near_misses_perm :
    (now : ℕ) {xs ys : List PricingEvent} → Permᴰ xs ys → near_misses xs now ≡ near_misses ys now
unfolding near_misses
near_misses_perm now p =
    length_perm (keep_perm (λ e. is_infraction e.kind && is_within attempt_window_ms now e) p)

recent_attempts_perm :
    (now : ℕ) {xs ys : List PricingEvent}
    → Permᴰ xs ys
    → recent_attempts xs now ≡ recent_attempts ys now
unfolding recent_attempts
recent_attempts_perm now p =
    length_perm (keep_perm (λ e. is_attempted_breach e.kind && is_within attempt_window_ms now e) p)

recent_claims_perm :
    (now : ℕ) {xs ys : List PricingEvent}
    → Permᴰ xs ys
    → length (recent_claims xs now) ≡ length (recent_claims ys now)
recent_claims_perm now p =
    length_perm (keep_perm (λ e. is_covered_claim e.kind && is_within claim_window_ms now e) p)

multipliers_at_perm :
    (now : ℕ) {xs ys : List PricingEvent}
    → Permᴰ xs ys
    → multipliers_at xs now ≡ multipliers_at ys now
unfolding multipliers_at anomaly_load
multipliers_at_perm now p =
    rw
      (
        clean_streak_days_perm now p,
        claim_load_perm now p,
        near_misses_perm now p,
        recent_attempts_perm now p,
        recent_claims_perm now p,
        any_perm (λ e. is_kya_verified e.kind) p,
        any_perm (λ e. is_sdk_installed e.kind) p,
        any_perm (λ e. is_watch_only e.kind) p,
      )
      refl

premium_at_perm :
    (policy : PricingPolicy) (now : ℕ) {xs ys : List PricingEvent}
    → Permᴰ xs ys
    → premium_at policy xs now ≡ premium_at policy ys now
unfolding premium_at
premium_at_perm policy now p = rw (multipliers_at_perm now p) refl

-- Two logs of the same events, in whatever order each lists them, price alike: the same error, or the
-- same premium with the same multipliers and texts.
pub compute_premium_perm :
    (policy : PricingPolicy) {xs ys : List PricingEvent}
    → Permᴰ xs ys
    → compute_premium policy xs ≡ compute_premium policy ys
unfolding compute_premium evaluation_instant
compute_premium_perm policy {xs} {ys} p =
    rw (loop_perm later later-swaps none p) (go (loop later none ys))
  where
    go :
        (o : Option ℕ)
        → (if leb policy.coverage_cap_usd.num 0
            then cap_not_positive
            else elim o [ none ↦ no_events | some now ↦ premium (premium_at policy xs now) ])
          ≡ (if leb policy.coverage_cap_usd.num 0
              then cap_not_positive
              else elim o [ none ↦ no_events | some now ↦ premium (premium_at policy ys now) ])
    go none = refl
    go (some now) = rw (premium_at_perm policy now p) refl
