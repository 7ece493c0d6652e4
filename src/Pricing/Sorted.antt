-- ===== src/Pricing/Sorted.antt =====
-- The sort in claimLoad of packages/pricing/src/index.ts: the last of the sorted claims is the latest.
use repayd.Common.{
  ℕ, ◌+◌, ◌≤◌, ◌≡◌, refl, Bool, ◌&&◌, List, [], ◌∷◌, arith, ltb, leb, max, length, any,
  if◌then◌else◌, ltb→lt, ltb→le, ap, ◌∙◌, Bool-cases, inl, inr,
}
use repayd.Pricing.Record.{PricingEvent}
use repayd.Pricing.Streak.{loop, is_mitigation}
use repayd.Pricing.Claims.{
  no_load, load_first, load_repeat, load_mitigated, is_mitigated, insert_by_at, sort_by_at, last,
  recent_claims, claim_load,
}

abbrev pub latest : ℕ → PricingEvent → ℕ
latest m e = max m e.at

-- the instant of the last event, or one before them all
abbrev last_from : ℕ → List PricingEvent → ℕ
last_from b [] = b
last_from b (x ∷ xs) = last_from x.at xs

abbrev SortedFrom : ℕ → List PricingEvent → Type 0
SortedFrom b [] = Unit
SortedFrom b (x ∷ xs) = (b ≤ x.at) × SortedFrom x.at xs

last_from-SortedFrom : (b : ℕ) (xs : List PricingEvent) → SortedFrom b xs → b ≤ last_from b xs
last_from-SortedFrom b [] s = omega arith
last_from-SortedFrom b (x ∷ xs) (h, s) = omega (arith, h, last_from-SortedFrom x.at xs s)

insert_by_at_lem :
    (b : ℕ) (e : PricingEvent) (xs : List PricingEvent)
    → b ≤ e.at
    → SortedFrom b xs
    → SortedFrom b (insert_by_at e xs)
      × (last_from b (insert_by_at e xs) ≡ max (last_from b xs) e.at)
      × (length (insert_by_at e xs) ≡ 1 + length xs)
unfolding insert_by_at
insert_by_at_lem b e [] h s = ((h, tt), omega arith, refl)
insert_by_at_lem b e (x ∷ xs) h (hx, s) = elim (Bool-cases (ltb e.at x.at)) [
  | inl before ↦ rw before (
    (h, (omega (arith, ltb→lt e.at x.at before), s)),
    omega (arith, ltb→lt e.at x.at before, last_from-SortedFrom x.at xs s),
    omega arith,
  )
  | inr after ↦
      let (sorted, end, count) = insert_by_at_lem x.at e xs (ltb→le e.at x.at after) s in
      rw after ((hx, sorted), end, omega (arith, count))
]

sort_by_at_lem :
    (acc es : List PricingEvent)
    → SortedFrom 0 acc
    → (last_from 0 (sort_by_at acc es) ≡ loop latest (last_from 0 acc) es)
      × (length (sort_by_at acc es) ≡ length acc + length es)
unfolding sort_by_at loop
sort_by_at_lem acc [] s = (refl, omega arith)
sort_by_at_lem acc (e ∷ es) s =
    let (sorted, end, count) = insert_by_at_lem 0 e acc (omega arith) s in
    let (rest_end, rest_count) = sort_by_at_lem (insert_by_at e acc) es sorted in
    (rest_end ∙ ap (λ m. loop latest m es) end, omega (arith, count, rest_count))

-- a mitigation at or after an instant
abbrev pub mitigated_from : List PricingEvent → ℕ → Bool
mitigated_from events t = any (λ e. is_mitigation e.kind && leb t e.at) events

is_mitigated-last :
    (events s : List PricingEvent)
    → is_mitigated events (last s) ≡ (ltb 0 (length s) && mitigated_from events (last_from 0 s))
unfolding is_mitigated last any
is_mitigated-last events [] = refl
is_mitigated-last events (x ∷ []) = refl
is_mitigated-last events (x ∷ y ∷ ys) = ground (arith, is_mitigated-last events (y ∷ ys))

-- The claim load of an instant: none without a covered claim in the window; else mitigated when a
-- mitigation stands at or after the latest of these claims, whatever came before it; else the load of
-- one claim, or of several.
pub claim_load_lem :
    (events : List PricingEvent) (now : ℕ)
    → let claims = recent_claims events now in
      claim_load events now ≡ (
        if leb (length claims) 0
        then no_load
        else if mitigated_from events (loop latest 0 claims)
        then load_mitigated
        else if leb 2 (length claims)
        then load_repeat
        else load_first)
unfolding claim_load
claim_load_lem events now =
    let claims = recent_claims events now in
    let (end, count) = sort_by_at_lem [] claims tt in
    rw (is_mitigated-last events (sort_by_at [] claims), end, count) (ground arith)
