-- ===== src/Mgr/Backoff.antt =====
-- base/mgr/backoff.go: how long a protected job waits before it is started again. Times are
-- nanoseconds. The factor `Multiply` is a float in the program; here it is counted in halves, and
-- the product is rounded down, as the conversion to a Duration does: jobs use 1.5, the default is
-- 2, and for delays up to some minutes the product of the floats is exact.
use debug_bootstrap.Prelude.{
  ℕ, ◌-◌, ◌*◌, ◌/◌, ◌≤◌, ◌<◌, ◌≡◌, ◌⊎◌, inl, inr, Bool, true, nat_beq, ltb, leb, if◌then◌else◌,
  arith, ◌∙◌, ap,
}

abbrev pub second : ℕ
second = 1_000_000_000

-- `ready` is the `sync.Once` of the defaults.
pub record BackOff : Type 0 where
  pub delay : ℕ
  pub multiply_halves : ℕ
  pub limit : ℕ
  pub last_delay : ℕ
  pub last_call : ℕ
  pub ready : Bool

unfoldable pub defaults : ℕ → BackOff → BackOff
defaults now b = record b {
  last_call = now;
  delay = if nat_beq b.delay 0 then 30 * second else b.delay;
  multiply_halves = if nat_beq b.multiply_halves 0 then 4 else b.multiply_halves;
  limit = if nat_beq b.limit 0 then 600 * second else b.limit;
  ready = true;
}

-- Whole seconds, and no more than the limit.
unfoldable pub cut : ℕ → ℕ → ℕ
cut limit d = let d' = d / second * second in if leb limit d' then limit else d'

-- Before the cut: a call that comes too fast makes the delay grow, any other starts again.
unfoldable pub policy : ℕ → BackOff → ℕ
policy now b =
    if ltb (now - b.last_call) (b.last_delay * 2)
    then b.last_delay * b.multiply_halves / 2
    else b.delay

unfoldable pub duration : ℕ → BackOff → BackOff × ℕ
unfolding defaults cut policy
duration now b =
    let b' = if b.ready then b else defaults now b in
    let d = cut b'.limit (policy now b') in (record b' { last_call = now; last_delay = d }, d)

-- The delay that a back-off remembers is one that it gave: whole seconds, or the limit.
pub record IsBackOff (b : BackOff) : Type 0 where
  pub prepared : b.ready ≡ true
  pub capped : b.last_delay ≤ b.limit
  pub whole : (b.last_delay ≡ b.last_delay / second * second) ⊎ (b.last_delay ≡ b.limit)

-- Each call gives a delay within the limit and leaves a back-off whose remembered delay is whole
-- seconds or the limit, also the first call.
pub duration-IsBackOff :
    (now : ℕ) (b : BackOff)
    → IsBackOff (duration now b).0 × ((duration now b).1 ≤ (duration now b).0.limit)
unfolding duration
duration-IsBackOff now b = ground arith

grown : (m x : ℕ) → 2 ≤ m → x ≤ x * m / 2
grown m x h = let doubled : x * 2 ≤ x * m = grind arith in omega (arith, doubled)

policy-grows :
    (now : ℕ) (b : BackOff)
    → 2 ≤ b.multiply_halves
    → now - b.last_call < b.last_delay * 2
    → b.last_delay ≤ policy now b
unfolding policy
policy-grows now b h fast = ground (arith, grown b.multiply_halves b.last_delay h)

cut-keeps :
    (limit d last : ℕ)
    → limit ≡ limit / second * second
    → last ≤ limit
    → (last ≡ last / second * second) ⊎ (last ≡ limit)
    → last ≤ d
    → last ≤ cut limit d
unfolding cut
cut-keeps limit d last r c (inl w) h = ground arith
cut-keeps limit d last r c (inr w) h = ground arith

duration-ready :
    (now : ℕ) (b : BackOff) → b.ready ≡ true → (duration now b).1 ≡ cut b.limit (policy now b)
unfolding duration
duration-ready now b e = rw e

policy-late :
    (now : ℕ) (b : BackOff) → b.last_delay * 2 ≤ now - b.last_call → policy now b ≡ b.delay
unfolding policy
policy-late now b h = ground arith

-- With a factor of one or more and a limit of whole seconds, a call within twice the last delay
-- never gives a shorter delay.
pub duration_growth :
    (now : ℕ) (b : BackOff)
    → IsBackOff b
    → 2 ≤ b.multiply_halves
    → b.limit ≡ b.limit / second * second
    → now - b.last_call < b.last_delay * 2
    → b.last_delay ≤ (duration now b).1
duration_growth now b v h r fast =
    rw (duration-ready now b v.prepared)
      (cut-keeps b.limit (policy now b) b.last_delay r v.capped v.whole (policy-grows now b h fast))

-- A call at least twice the last delay after the one before goes back to the first delay, cut to
-- whole seconds and the limit, however long the delays had become.
pub duration_reset :
    (now : ℕ) (b : BackOff)
    → IsBackOff b
    → b.last_delay * 2 ≤ now - b.last_call
    → (duration now b).1 ≡ cut b.limit b.delay
duration_reset now b v late =
    duration-ready now b v.prepared ∙ ap (cut b.limit) (policy-late now b late)
