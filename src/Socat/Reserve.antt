-- ===== src/Socat/Reserve.antt =====
-- apps/plugins/socat/plugin/socat.go, `Reserve`: free ports of the host, the lowest first.
-- `listening` are the ports on which the host listens over TCP.
pub mod Free
use debug_bootstrap.Prelude.{
  ℕ, zero, suc, ◌+◌, ◌-◌, Bool, true, false, ◌||◌, Option, none, some, List, [], ◌∷◌, ◌++◌, ltb,
  nat_beq, nat_equal, contains, if◌then◌else◌,
}
use debug_bootstrap.Prelude.Dict.{lookup}
use debug_bootstrap.Socat.Source.{Rule}
use debug_bootstrap.Socat.Forwards.{Cache, SocatManager}

-- The inner loop, from `p` on.
unfoldable pub next_free : ℕ → (ℕ → Bool) → ℕ → ℕ
next_free zero is_taken p = p
next_free (suc fuel) is_taken p = elim (is_taken p) [
  | true ↦ next_free fuel is_taken (suc p)
  | false ↦ p
]

module _ {C : Type 0} (cache : Cache C) where
  has_rule : Option Rule → Bool
  has_rule none = false
  has_rule (some r) = true

  -- Is the port in `used`, or reserved?
  unfoldable pub taken : List ℕ → SocatManager C → ℕ → Bool
  unfolding has_rule
  taken listening m p =
      contains listening p || has_rule (lookup p m.rules) || cache.get p m.reserved

  -- The outer loop, for `n` ports more. The second part is false for "pool is exhausted".
  unfoldable pub reserve_from : ℕ → List ℕ → ℕ → SocatManager C → SocatManager C × List ℕ × Bool
  reserve_from zero listening p m = (m, [], true)
  reserve_from (suc n) listening p m =
      let free = next_free (65537 - p) (taken listening m) p in
      elim (nat_beq free 65536) [
        | true ↦ (m, [], false)
        | false ↦
            let (m', ports, ok) =
              reserve_from n listening free (record m { reserved = cache.set free m.reserved }) in
            (m', free ∷ ports, ok)
      ]

  unfoldable pub reserve : ℕ → List ℕ → SocatManager C → SocatManager C × List ℕ × Bool
  unfolding reserve_from
  reserve n listening m = reserve_from n listening 1024 m
