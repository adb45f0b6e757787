-- ===== src/Metrics/Histogram/Buckets.antt =====
-- The bucket counts of a histogram: the two loops of `format` against a direct definition, and their
-- being cumulative, as the exposition format demands.
use computer_service_system.Common.{
  ℕ, ◌+◌, ◌%◌, ◌^◌, ◌≤◌, ◌<◌, ◌≡◌, refl, sym, ◌∙◌, List, [], ◌∷◌, Bool, true, false, map,
  if◌then◌else◌, arith, inl, inr, Bool-cases, length,
}
use computer_service_system.Std.Floating.{Floating}
use computer_service_system.Metrics.Histogram.{
  Histogram, next_u64, bump, tally, zeros, bucket_counts,
}
use computer_service_system.Metrics.Registry.Start.{duration_buckets}

-- Each number is at most the next, and the last at most `top`.
abbrev pub Ascends : List ℕ → ℕ → Type 0
Ascends [] top = Unit
Ascends (n ∷ []) top = n ≤ top
Ascends (n ∷ m ∷ ns) top = (n ≤ m) × Ascends (m ∷ ns) top

abbrev Grows : List ℕ → Type 0
Grows [] = Unit
Grows (m ∷ []) = Unit
Grows (m ∷ n ∷ ms) = (m ≤ n) × Grows (n ∷ ms)

module _ (fl : Floating) where
  open fl use {Double, thousandths, le, le_trans, thousandths_mono}

  -- How many values do not exceed a bound.
  abbrev pub below : Double → List Double → ℕ
  below b [] = 0
  below b (v ∷ vs) = (if le v b then 1 else 0) + below b vs

  -- The counts after some values, each starting from its own number, modulo 2^64.
  abbrev raised : List Double → List Double → List ℕ → List ℕ
  raised vs [] counts = counts
  raised vs (b ∷ bs) [] = []
  raised vs (b ∷ bs) (n ∷ counts) = ((n + below b vs) % 2 ^ 64) ∷ raised vs bs counts

  abbrev InRange : List ℕ → Type 0
  InRange [] = Unit
  InRange (n ∷ counts) = (n < 2 ^ 64) × InRange counts

  bump-InRange :
      (v : Double) (bs : List Double) (counts : List ℕ)
      → InRange counts
      → InRange (bump fl v bs counts)
  unfolding bump
  bump-InRange v [] counts h = h
  bump-InRange v (b ∷ bs) [] h = tt
  bump-InRange v (b ∷ bs) (n ∷ counts) h = elim (Bool-cases (le v b)) [
    | inl hit ↦ rw hit (omega arith, bump-InRange v bs counts h.1)
    | inr miss ↦ rw miss (h.0, bump-InRange v bs counts h.1)
  ]

  raised-bump :
      (v : Double) (vs bs : List Double) (counts : List ℕ)
      → raised vs bs (bump fl v bs counts) ≡ raised (v ∷ vs) bs counts
  unfolding bump
  raised-bump v vs [] counts = refl
  raised-bump v vs (b ∷ bs) [] = refl
  raised-bump v vs (b ∷ bs) (n ∷ counts) =
      λ i. head (le v b) (below b vs) n i ∷ raised-bump v vs bs counts i
    where
      head :
          (t : Bool) (k n : ℕ)
          → ((if t then next_u64 n else n) + k) % 2 ^ 64 ≡ (n + ((if t then 1 else 0) + k)) % 2 ^ 64
      head true k n = unfold next_u64 in omega arith
      head false k n = omega arith

  raised-nil : (bs : List Double) (counts : List ℕ) → InRange counts → raised [] bs counts ≡ counts
  raised-nil [] counts h = refl
  raised-nil (b ∷ bs) [] h = refl
  raised-nil (b ∷ bs) (n ∷ counts) h =
      λ i. (let e : (n + 0) % 2 ^ 64 ≡ n = omega arith in e) i ∷ raised-nil bs counts h.1 i

  tally-raised :
      (vs bs : List Double) (counts : List ℕ)
      → InRange counts
      → tally fl vs bs counts ≡ raised vs bs counts
  unfolding tally
  tally-raised [] bs counts h = sym (raised-nil bs counts h)
  tally-raised (v ∷ vs) bs counts h =
      tally-raised vs bs (bump fl v bs counts) (bump-InRange v bs counts h)
      ∙ raised-bump v vs bs counts

  zeros-InRange : (bs : List Double) → InRange (zeros fl bs)
  unfolding zeros
  zeros-InRange [] = tt
  zeros-InRange (b ∷ bs) = (omega arith, zeros-InRange bs)

  raised-zeros :
      (vs bs : List Double) → raised vs bs (zeros fl bs) ≡ map (λ b. below b vs % 2 ^ 64) bs
  unfolding zeros
  raised-zeros vs [] = refl
  raised-zeros vs (b ∷ bs) = λ i.
      (let e : (0 + below b vs) % 2 ^ 64 ≡ below b vs % 2 ^ 64 = omega arith in e) i
      ∷ raised-zeros vs bs i

  -- The loops give each bucket the number of the values that do not exceed its bound, modulo 2^64.
  pub bucket_counts_lem :
      (h : Histogram Double) → bucket_counts fl h ≡ map (λ b. below b h.values % 2 ^ 64) h.buckets
  unfolding bucket_counts
  bucket_counts_lem h =
      tally-raised h.values h.buckets (zeros fl h.buckets) (zeros-InRange h.buckets)
      ∙ raised-zeros h.values h.buckets

  below_mono : (b c : Double) (vs : List Double) → le b c ≡ true → below b vs ≤ below c vs
  below_mono b c [] h = omega arith
  below_mono b c (v ∷ vs) h = ground (arith, le_trans v b c, below_mono b c vs h)

  below-le-length : (b : Double) (vs : List Double) → below b vs ≤ length vs
  below-le-length b [] = omega arith
  below-le-length b (v ∷ vs) = ground (arith, below-le-length b vs)

  ascends :
      (ms : List ℕ) (vs : List Double)
      → length vs < 2 ^ 64
      → Grows ms
      → Ascends (map (λ b. below b vs % 2 ^ 64) (map thousandths ms)) (length vs)
  ascends [] vs h g = tt
  ascends (m ∷ []) vs h g = omega (arith, below-le-length (thousandths m) vs)
  ascends (m ∷ n ∷ ms) vs h g = (
    omega (
      arith,
      below-le-length (thousandths m) vs,
      below-le-length (thousandths n) vs,
      below_mono (thousandths m) (thousandths n) vs (thousandths_mono m n g.0),
    ),
    ascends (n ∷ ms) vs h g.1,
  )

  -- With the ten bounds of the request durations, and fewer than 2^64 values, the bucket counts are
  -- cumulative: none is above the next, and the last is not above the number of the values.
  pub bucket_counts-Ascends :
      (h : Histogram Double)
      → h.buckets ≡ duration_buckets fl
      → length h.values < 2 ^ 64
      → Ascends (bucket_counts fl h) (length h.values)
  unfolding duration_buckets
  bucket_counts-Ascends h e fits = rw (bucket_counts_lem h) (
      rw e (
        ascends (10 ∷ 25 ∷ 50 ∷ 100 ∷ 250 ∷ 500 ∷ 1000 ∷ 2500 ∷ 5000 ∷ 10000 ∷ []) h.values fits
          (omega arith)))
