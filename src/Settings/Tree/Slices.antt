-- ===== src/Settings/Tree/Slices.antt =====
-- The slices of the startup tree of base/settings/tree.go.
use debug_bootstrap.Prelude.{
  ◌≡◌, refl, true, false, List, [], ◌∷◌, ◌++◌, All, arith, Bool-cases, inl, inr, ◌⊎◌, bytes_equal,
}
use debug_bootstrap.Prelude.Int.{ℤ, ◌≤ℤ◌, ltz}
use debug_bootstrap.Settings.Tree.{Weighted, IsSorted, is_end, inside, slice}

-- A bound that the next slice may begin with: not the mark of the end.
abbrev pub IsBound : ℤ → Type 0
IsBound m = is_end m ≡ false

slice-none :
    (m e : ℤ) (t : List Weighted) → IsBound m → All (λ p. m ≤ℤ p.1) t → (s : ℤ) → slice s m t ≡ []
unfolding slice
slice-none m e [] b h s = refl
slice-none m e ((p, w) ∷ t) b h s = ground (arith, slice-none m e t b h.1 s)

inside_below :
    (s m e w : ℤ)
    → (m ≤ℤ e) ⊎ (is_end e ≡ true)
    → ltz w m ≡ true
    → (inside m e w ≡ false) × (inside s m w ≡ inside s e w)
unfolding inside
inside_below s m e w k h = (ground arith, ground arith)

inside_above :
    (s m e w : ℤ)
    → IsBound m
    → s ≤ℤ m
    → ltz w m ≡ false
    → (inside s m w ≡ false) × (inside m e w ≡ inside s e w)
unfolding inside
inside_above s m e w b k h = (ground arith, ground arith)

All-le_trans :
    (m w : ℤ) (t : List Weighted) → m ≤ℤ w → All (λ p. w ≤ℤ p.1) t → All (λ p. m ≤ℤ p.1) t
All-le_trans m w [] h a = tt
All-le_trans m w ((p, v) ∷ t) h a = (omega (arith, a.0), All-le_trans m w t h a.1)

-- A sorted tree falls into consecutive slices: [s, m[ and then [m, e[ are [s, e[, where `e` lies
-- behind `m` or is the mark of the end.
pub slice-append :
    (s m e : ℤ) (t : List Weighted)
    → IsSorted t
    → IsBound m
    → s ≤ℤ m
    → (m ≤ℤ e) ⊎ (is_end e ≡ true)
    → slice s m t ++ slice m e t ≡ slice s e t
unfolding slice
slice-append s m e [] o b h k = refl
slice-append s m e ((p, w) ∷ t) o b h k =
    let rest = slice-append s m e t o.1 b h k in
    elim (Bool-cases (ltz w m)) [
      | inl low ↦
          let (outside, same) = inside_below s m e w k low in ground (arith, outside, same, rest)
      | inr high ↦
          let (outside, same) = inside_above s m e w b h high in
          let none_before : slice s m t ≡ [] =
            slice-none m e t b (All-le_trans m w t (ground (arith, high)) o.0) s in
          ground (arith, outside, same, rest, none_before)
    ]
