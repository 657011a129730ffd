-- ===== src/Aggregator/Group.antt =====
-- apps/plugins/aggregator/plugin/stats.go: what a sample stands for.
use debug_bootstrap.Prelude.{
  ℕ, suc, ◌+◌, ◌*◌, ◌/◌, ◌%◌, ◌^◌, ◌<◌, true, false, Option, none, some, List, [], ◌∷◌, ◌++◌, ◌≡◌,
  refl, ap, ◌∙◌, length, ltb, nat_beq, if◌then◌else◌, arith, All, append_assoc, length-append,
  append-nil,
}
use debug_bootstrap.Aggregator.{Floats, Sample, feed}

-- A value, and the second at which it is fed.
pub record Reading (F : Type 0) : Type 0 where
  pub now : ℕ
  pub value : F

-- The readings of one period, in the order in which they are fed: the first, and those behind it.
pub record Group (F : Type 0) : Type 0 where
  pub period : ℕ
  pub first : Reading F
  pub more : List (Reading F)

abbrev pub readings : {F : Type 0} → List (Group F) → List (Reading F)
readings [] = []
readings (g ∷ gs) = g.first ∷ (g.more ++ readings gs)

abbrev pub In : {F : Type 0} → ℕ → ℕ → Reading F → Type 0
In duration period r = r.now / duration * duration ≡ period

abbrev pub IsGroup : {F : Type 0} → ℕ → Group F → Type 0
IsGroup duration g =
    In duration g.period g.first × All (In duration g.period) g.more × (length g.more + 1 < 2 ^ 64)

-- Each period is later than the one before it.
abbrev pub Later : {F : Type 0} → ℕ → List (Group F) → Type 0
Later before [] = Unit
Later before (g ∷ gs) = (before < g.period) × Later g.period gs

module _ {F : Type 0} (fl : Floats F) where
  -- The sum, and the largest, from the first value on
  abbrev pub sum : F → List (Reading F) → F
  sum v [] = v
  sum v (r ∷ rs) = sum (fl.add v r.value) rs

  abbrev pub largest : F → List (Reading F) → F
  largest v [] = v
  largest v (r ∷ rs) = largest (if fl.greater r.value v then r.value else v) rs

  -- The one value of a period is its average, without a division.
  abbrev pub mean : F → List (Reading F) → F
  mean v [] = v
  mean v (r ∷ rs) = fl.div (sum v (r ∷ rs)) (fl.from_nat (length (r ∷ rs) + 1))

  abbrev pub summary_of : ℕ → F → List (Reading F) → Sample F
  summary_of period v rs = record {
    avg = mean v rs;
    total = sum v rs;
    max = largest v rs;
    count = length rs + 1;
    start = period;
  }

  abbrev pub summary : Group F → Sample F
  summary g = summary_of g.period g.first.value g.more

  abbrev pub extend : Option (Sample F) → Sample F × List (Sample F) → Sample F × List (Sample F)
  extend none result = result
  extend (some s) result = (result.0, s ∷ result.1)

  -- A sample that is fed readings, and those that it closes.
  unfoldable pub run : ℕ → Sample F → List (Reading F) → Sample F × List (Sample F)
  run duration m [] = (m, [])
  run duration m (r ∷ rs) =
      let (m', update) = feed fl m r.value r.now duration in extend update (run duration m' rs)

  run-feed :
      (duration : ℕ) (m m' : Sample F) (update : Option (Sample F)) (r : Reading F)
      (rs : List (Reading F))
      → feed fl m r.value r.now duration ≡ (m', update)
      → run duration m (r ∷ rs) ≡ extend update (run duration m' rs)
  unfolding run
  run-feed duration m m' update r rs h = rw (run, h) refl

  sum-snoc :
      (v : F) (rs : List (Reading F)) (r : Reading F)
      → sum v (rs ++ r ∷ []) ≡ fl.add (sum v rs) r.value
  sum-snoc v [] r = refl
  sum-snoc v (s ∷ rs) r = sum-snoc (fl.add v s.value) rs r

  largest-snoc :
      (v : F) (rs : List (Reading F)) (r : Reading F)
      → largest v (rs ++ r ∷ [])
        ≡ (if fl.greater r.value (largest v rs) then r.value else largest v rs)
  largest-snoc v [] r = refl
  largest-snoc v (s ∷ rs) r = largest-snoc (if fl.greater s.value v then s.value else v) rs r

  mean-snoc :
      (v : F) (rs : List (Reading F)) (r : Reading F)
      → mean v (rs ++ r ∷ []) ≡ fl.div (fl.add (sum v rs) r.value) (fl.from_nat (length rs + 2))
  mean-snoc v [] r = refl
  mean-snoc v (s ∷ rs) r =
      let count : length (rs ++ r ∷ []) ≡ length rs + 1 = length-append rs (r ∷ []) in
      let more : suc (length rs + 1) + 1 ≡ suc (length rs) + 2 = omega arith in
      rw (sum-snoc (fl.add v s.value) rs r, count, more) refl

  -- A reading of the same period is added.
  feed-same :
      (duration period : ℕ) (v : F) (rs : List (Reading F)) (r : Reading F)
      → 0 < period
      → In duration period r
      → length rs + 2 < 2 ^ 64
      → feed fl (summary_of period v rs) r.value r.now duration
        ≡ (summary_of period v (rs ++ r ∷ []), none)
  unfolding feed
  feed-same duration period v rs r p i l =
      let nonzero : nat_beq period 0 ≡ false = ground arith in
      let same : ltb period period ≡ false = ground arith in
      let count : (length rs + 1 + 1) % 2 ^ 64 ≡ length rs + 2 = omega arith in
      let counted : length (rs ++ r ∷ []) + 1 ≡ length rs + 2 =
        omega (arith, length-append rs (r ∷ [])) in
      rw
        (
          feed,
          i,
          nonzero,
          same,
          count,
          counted,
          mean-snoc v rs r,
          sum-snoc v rs r,
          largest-snoc v rs r,
        )
        refl

  -- One of a later period closes the sample.
  feed-later :
      (duration period : ℕ) (m : Sample F) (r : Reading F)
      → m.start < period
      → In duration period r
      → feed fl m r.value r.now duration ≡ (summary_of period r.value [], some m)
  unfolding feed
  feed-later duration period m r p i =
      let nonzero : nat_beq period 0 ≡ false = ground arith in
      let later : ltb m.start period ≡ true = ground arith in rw (feed, i, nonzero, later) refl

  -- The readings of the period, one after the other
  run-more :
      (duration period : ℕ) (v : F) (fed rs rest : List (Reading F))
      → 0 < period
      → All (In duration period) rs
      → length fed + length rs + 1 < 2 ^ 64
      → run duration (summary_of period v fed) (rs ++ rest)
        ≡ run duration (summary_of period v (fed ++ rs)) rest
  unfolding run
  run-more duration period v fed [] rest p i l = rw (append-nil fed) refl
  run-more duration period v fed (r ∷ rs) rest p i l =
      let joined = append_assoc fed (r ∷ []) rs in
      run-feed duration (summary_of period v fed) (summary_of period v (fed ++ r ∷ [])) none r
        (rs ++ rest) (feed-same duration period v fed r p i.0 (omega arith))
      ∙ run-more duration period v (fed ++ r ∷ []) rs rest p i.1
          (omega (arith, length-append fed (r ∷ [])))
      ∙ ap (λ all. run duration (summary_of period v all) rest) joined

  -- The sample in which the last group ends, and the samples that are closed before.
  abbrev pub last_of : Sample F → List (Group F) → Sample F
  last_of m [] = m
  last_of m (g ∷ gs) = last_of (summary g) gs

  abbrev pub closed_by : Sample F → List (Group F) → List (Sample F)
  closed_by m [] = []
  closed_by m (g ∷ gs) = m ∷ closed_by (summary g) gs

  -- When readings come in groups, each within one period and each period later than the one before
  -- and than the sample's, feeding them all leaves the sample that sums up the last group, with its
  -- total, average, largest value and count, and each earlier group closes as the sample that sums it
  -- up, behind the sample that there was.
  pub run-groups :
      (duration : ℕ) (m : Sample F) (gs : List (Group F))
      → All (IsGroup duration) gs
      → Later m.start gs
      → run duration m (readings gs) ≡ (last_of m gs, closed_by m gs)
  unfolding run
  run-groups duration m [] i p = refl
  run-groups duration m (g ∷ gs) i p =
      let (first_in, more_in, few) = i.0 in
      let closing = feed-later duration g.period m g.first p.0 first_in in
      let after =
        run-more duration g.period g.first.value [] g.more (readings gs) (omega arith) more_in
          (omega arith) in
      run-feed duration m (summary_of g.period g.first.value []) (some m) g.first
        (g.more ++ readings gs) closing
      ∙ ap (extend (some m)) (after ∙ run-groups duration (summary g) gs i.1 p.1)
