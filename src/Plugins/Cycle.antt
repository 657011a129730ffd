-- ===== src/Plugins/Cycle.antt =====
-- What openRecursive of apps/core0/plugin/manager.go does with plugins that require one another
-- in a circle.
use debug_bootstrap.Prelude.{
  ℕ, zero, suc, ◌≡◌, refl, sym, ◌∙◌, ap, subst, Bool, false, some, List, ◌∷◌, Bytes, bytes_equal,
}
use mathlib.Core.Option.{some-injective}
use debug_bootstrap.Prelude.Dict.{Dict, lookup}
use debug_bootstrap.Plugins.{Plugin, PluginManager, out_of_fuel, and_then, open_all, open_recursive}
use debug_bootstrap.Plugins.Opened.{open_all-found}

-- A plugin of the circle is not open, and the first that it requires is in the circle.
pub record InRing {A : Type 0} (ring : Bytes → Type 0) (t : Dict Bytes (Plugin A)) (k : Bytes)
    : Type 0 where
  pub plugin : Plugin A
  pub next : Bytes
  pub rest : List Bytes
  pub found : lookup k t ≡ some plugin
  pub shut : plugin.is_open ≡ false
  pub first : plugin.requires ≡ next ∷ rest
  pub member : ring next

-- Where each plugin of a circle of plugins is not open and requires one of the circle first,
-- openRecursive for one of them ends with no fuel at all, and so never.
pub open_recursive-ring :
    {A : Type 0} (works : List Bytes → Bytes → Bool) (ring : Bytes → Type 0) (m : PluginManager A)
    → ((k : Bytes) → ring k → InRing ring m.plugins k)
    → (fuel : ℕ) (k : Bytes) (pl : Plugin A) → ring k
    → lookup k m.plugins ≡ some pl
    → open_recursive works fuel k pl m ≡ (m, out_of_fuel)
unfolding open_recursive
open_recursive-ring works ring m circle zero k pl at e = refl
open_recursive-ring {A = A} works ring m circle (suc fuel) k pl at e =
    let here = circle k at in
    let there = circle here.next here.member in
    let same : here.plugin ≡ pl = some-injective _ _ (sym here.found ∙ e) in
    let shut : pl.is_open ≡ false = subst (λ (p : Plugin A). p.is_open ≡ false) same here.shut in
    let requires : pl.requires ≡ here.next ∷ here.rest =
      subst (λ (p : Plugin A). p.requires ≡ here.next ∷ here.rest) same here.first in
    let first : open_all (open_recursive works fuel) k (here.next ∷ here.rest) m
        ≡ (m, out_of_fuel) =
      open_all-found (open_recursive works fuel) k here.next here.rest m there.found
      ∙ ap (λ r. and_then r (open_all (open_recursive works fuel) k here.rest))
          (open_recursive-ring works ring m circle fuel here.next there.plugin here.member
            there.found) in
    rw (open_recursive, shut, requires, first) refl
