-- ===== src/Coverage/Assoc.antt =====
-- The Map of the runtime: entries in the order of insertion, one for each key.
use mathlib.Core.Path.{subst}
use repayd.Common.{
  sym, ℕ, ◌+◌, ◌≡◌, refl, Bool, true, false, ◌&&◌, Option, none, some, List, [], ◌∷◌, arith,
  if◌then◌else◌, Bool-cases, inl, inr,
}

module _ {ℓ κ} {K : Type ℓ} {V : Type κ} (eq : K → K → Bool) where
  -- Map.get
  unfoldable pub get : List (K × V) → K → Option V
  get [] k = none
  get ((j, v) ∷ m) k = if eq j k then some v else get m k

  -- Map.set, which keeps the place of a key that is there
  unfoldable pub set : List (K × V) → K → V → List (K × V)
  set [] k v = (k, v) ∷ []
  set ((j, w) ∷ m) k v = let rest = set m k v in if eq j k then (j, v) ∷ m else (j, w) ∷ rest

  override :
      (b : Bool) (v w : V) (o : Option V)
      → (if b then some v else o) ≡ (if b then some v else if b then some w else o)
  override b v w o = ground arith

  exchange :
      (b c : Bool) (v w : V) (o : Option V)
      → (b && c) ≡ false
      → (if b then some w else if c then some v else o)
        ≡ (if c then some v else if b then some w else o)
  exchange b c v w o h = ground arith

  pub get-set :
      (sound : (j k : K) → eq j k ≡ true → j ≡ k) (m : List (K × V)) (k i : K) (v : V)
      → get (set m k v) i ≡ (if eq k i then some v else get m i)
  unfolding get set
  get-set sound [] k i v = refl
  get-set sound ((j, w) ∷ m) k i v = elim (Bool-cases (eq j k)) [
    | inl same ↦ rw (same, sound j k same) (override (eq k i) v w (get m i))
    | inr other ↦
        rw (other, get-set sound m k i v) (exchange (eq j i) (eq k i) v w (get m i) (apart other))
  ]
    where
      apart : eq j k ≡ false → (eq j i && eq k i) ≡ false
      apart other = elim (Bool-cases (eq j i)) [
        | inr f ↦ rw f refl
        | inl t ↦ elim (Bool-cases (eq k i)) [
          | inr f ↦ rw (t, f) refl
          | inl u ↦ absurd (ground (arith, subst (λ x. eq j x ≡ true) (sym (sound k i u)) t))
        ]
      ]

-- a sum over the values
abbrev pub total {ℓ κ} : {K : Type ℓ} {V : Type κ} → (V → ℕ) → List (K × V) → ℕ
total f [] = 0
total f ((k, v) ∷ m) = f v + total f m

abbrev pub of_option {κ} : {V : Type κ} → (V → ℕ) → Option V → ℕ
of_option f none = 0
of_option f (some v) = f v

module _ {ℓ κ} {K : Type ℓ} {V : Type κ} (eq : K → K → Bool) where
  -- Setting a key adds what its value counts for and takes away what the value before it did.
  pub total-set :
      (f : V → ℕ) (m : List (K × V)) (k : K) (v : V)
      → total f (set eq m k v) + of_option f (get eq m k) ≡ total f m + f v
  unfolding get set
  total-set f [] k v = omega arith
  total-set f ((j, w) ∷ m) k v = elim (Bool-cases (eq j k)) [
    | inl same ↦ rw same (omega arith)
    | inr other ↦ rw other (omega (arith, total-set f m k v))
  ]
