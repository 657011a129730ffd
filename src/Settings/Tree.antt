-- ===== src/Settings/Tree.antt =====
-- base/settings/tree.go: the services that have a weight, in the order of their weights. The map
-- `weights` holds the weight of the service at each index, so the tree is a list of pairs; Less and
-- Swap read and move both. `sort.Sort` is any function that orders such a list.
pub mod Slices
use debug_bootstrap.Prelude.{
  ℕ, suc, ◌≡◌, Bool, true, false, List, [], ◌∷◌, ◌++◌, Bytes, not, ◌&&◌, if◌then◌else◌, length, All,
  nat_beq,
}
use debug_bootstrap.Prelude.Int.{ℤ, pos, negsuc, ◌≤ℤ◌, ltz}
use debug_bootstrap.Prelude.Dict.{Dict}
use debug_bootstrap.Settings.Startup.{
  Startup, Weighed, weighs, cyclic, out_of_fuel, unknown, weight, prepare,
}
use mathlib.Core.List.{Perm}

abbrev pub Weighted : Type 0
Weighted = Startup × ℤ

-- Every weight is at most each one behind it.
abbrev pub IsSorted : List Weighted → Type 0
IsSorted [] = Unit
IsSorted ((s, w) ∷ rest) = All (λ p. w ≤ℤ p.1) rest × IsSorted rest

-- What sort.Sort does with the tree: its order among equal weights is not fixed.
pub record Sorter : Type 0 where
  pub sort : List Weighted → List Weighted
  pub sort-IsSorted : (xs : List Weighted) → IsSorted (sort xs)
  pub sort-perm : (xs : List Weighted) → Perm (sort xs) xs

-- Less
unfoldable pub less : Weighted → Weighted → Bool
less (s, v) (t, w) = ltz v w

-- The loop of GetStartupTree: services with a weight, and those with an error.
with_weight : Startup → Weighed → List Weighted × List Startup → List Weighted × List Startup
with_weight s (weighs w) (good, bad) = ((s, w) ∷ good, bad)
with_weight s cyclic (good, bad) = (good, s ∷ bad)
with_weight s out_of_fuel (good, bad) = (good, s ∷ bad)
with_weight s (unknown a) (good, bad) = (good, s ∷ bad)

unfoldable pub weigh_services :
    Dict Bytes Startup → List (Bytes × Startup) → List Weighted × List Startup
unfolding with_weight
weigh_services services [] = ([], [])
weigh_services services ((k, s) ∷ rest) =
    with_weight s (weight (suc (length services)) services [] s) (weigh_services services rest)

-- The map's order of iteration is that of the list.
unfoldable pub get_startup_tree : Sorter → Dict Bytes Startup → List Weighted × List Startup
get_startup_tree sorter startups =
    let services = prepare startups in
    let (good, bad) = weigh_services services services in (sorter.sort good, bad)

-- -1 stands for the end of the list.
unfoldable pub is_end : ℤ → Bool
is_end (pos n) = false
is_end (negsuc n) = nat_beq n 0

-- Does a weight lie in [s, e[ ?
unfoldable pub inside : ℤ → ℤ → ℤ → Bool
unfolding is_end
inside s e w = if ltz w s then false else if not (ltz w e) && not (is_end e) then false else true

-- Slice
unfoldable pub slice : ℤ → ℤ → List Weighted → List Startup
unfolding inside
slice s e [] = []
slice s e ((p, w) ∷ rest) = if inside s e w then p ∷ slice s e rest else slice s e rest
