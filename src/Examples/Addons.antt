-- ===== src/Examples/Addons.antt =====
-- The plugins of core0 at concrete inputs.
use debug_bootstrap.Prelude.{
  ℕ, ◌<◌, ◌≡◌, refl, sym, ◌∙◌, ap, subst, Bool, true, false, none, some, List, [], ◌∷◌, Bytes,
  codes, split_two, bytes_equal, ◌==◌, if◌then◌else◌, not, All, Names, here, there, ◌⊎◌, inl, inr,
  Option-cases, arith,
}
use mathlib.Core.Option.{some-injective}
use debug_bootstrap.Prelude.Dict.{Dict, lookup, lookup-All}
use debug_bootstrap.Plugins.{
  handler, Plugin, PluginManager, out_of_fuel, open_recursive, open_plugins,
}
use debug_bootstrap.Plugins.Opened.{Shape, shape_of, IsOpened}
use debug_bootstrap.Plugins.Rank.{IsRanked, Dead}
use debug_bootstrap.Plugins.Loaded.{open_plugins-opened}
use debug_bootstrap.Plugins.Cycle.{InRing, open_recursive-ring}
use debug_bootstrap.Plugins.Router.{new_router, router_get}
use debug_bootstrap.Plugins.Manage.{Item, list_action, plugin_action, get, load}

abbrev addon : List Bytes → Plugin ℕ
addon requires = record {
  version = codes "1";
  can_update = true;
  requires = requires;
  has_open = true;
  api = handler;
  actions = (codes "run", 7) ∷ [];
  is_open = false;
}

-- `zt` needs `net`, `kvm` needs a plugin that is not there, and the Open of `bad` has an error.
abbrev addons : PluginManager ℕ
addons = record {
  plugins =
      (codes "zt", addon (codes "net" ∷ []))
      ∷ (codes "kvm", addon (codes "btrfs" ∷ []))
      ∷ (codes "net", addon [])
      ∷ (codes "bad", addon [])
      ∷ [];
  calls = [];
}

abbrev works : Bytes → Bool
works name = not (name == codes "bad")

abbrev names : List Bytes
names = codes "zt" ∷ codes "kvm" ∷ codes "net" ∷ codes "bad" ∷ []

abbrev rank : Bytes → ℕ
rank name = if name == codes "btrfs" then 0 else if name == codes "net" then 0 else 1

-- Three calls of Open: that of `net` comes first, since `zt` needs it.
calls-open_plugins :
    (open_plugins (λ calls. works) 2 names addons).0.calls
    ≡ codes "net" ∷ codes "zt" ∷ codes "bad" ∷ []
unfolding open_plugins
calls-open_plugins = refl

fresh :
    (k : Bytes) (pl : Plugin ℕ)
    → lookup k addons.plugins ≡ some pl
    → Names k names × (pl.is_open ≡ false)
fresh k pl found =
    lookup-All (λ i p. Names i names × (p.is_open ≡ false)) addons.plugins k pl
      (
        (here, refl),
        (
          (there here, refl),
          ((there (there here), refl), ((there (there (there here)), refl), tt)),
        ),
      )
      found

ranked : IsRanked rank (λ k. shape_of (lookup k addons.plugins))
ranked k s found = elim (Option-cases (lookup k addons.plugins)) [
  | inl gone ↦ absurd (cc (found, gone))
  | inr (pl, there_is) ↦
      subst (λ (x : Shape). All (λ r. rank r < rank k) x.0)
        (some-injective _ _ (ap shape_of (sym there_is) ∙ found))
        (lookup-All (λ i p. All (λ r. rank r < rank i) p.requires) addons.plugins k pl
          ((omega arith, tt), ((omega arith, tt), (tt, (tt, tt)))) there_is)
]

enough : (k : Bytes) → rank k < 2
enough k = ground arith

open_plugins-opened_example :
    let t = (open_plugins (λ calls. works) 2 names addons).0.plugins in
    ((lookup (codes "zt") t ≡ none)
      × ((lookup (codes "zt") addons.plugins ≡ none)
          ⊎ Dead (λ calls. works) (λ j. shape_of (lookup j addons.plugins)) (codes "zt")))
    ⊎ ((pl : Plugin ℕ) × (lookup (codes "zt") t ≡ some pl)
        × (pl.is_open ≡ true)
        × All (IsOpened t) pl.requires)
open_plugins-opened_example =
    open_plugins-opened works rank 2 names addons fresh ranked enough (codes "zt")

-- Two plugins that need each other
abbrev circle : PluginManager ℕ
circle = record {
  plugins = (codes "zt", addon (codes "net" ∷ [])) ∷ (codes "net", addon (codes "zt" ∷ [])) ∷ [];
  calls = [];
}

abbrev Both : Bytes → Type 0
Both k = (k ≡ codes "zt") ⊎ (k ≡ codes "net")

Both-InRing : (k : Bytes) → Both k → InRing Both circle.plugins k
Both-InRing k (inl e) = subst (InRing Both circle.plugins) (sym e) (record {
  plugin = addon (codes "net" ∷ []);
  next = codes "net";
  rest = [];
  found = refl;
  shut = refl;
  first = refl;
  member = inr refl;
})
Both-InRing k (inr e) = subst (InRing Both circle.plugins) (sym e) (record {
  plugin = addon (codes "zt" ∷ []);
  next = codes "zt";
  rest = [];
  found = refl;
  shut = refl;
  first = refl;
  member = inl refl;
})

open_recursive-ring_example :
    open_recursive (λ calls. works) 100 (codes "zt") (addon (codes "net" ∷ [])) circle
    ≡ (circle, out_of_fuel)
open_recursive-ring_example =
    open_recursive-ring (λ calls. works) Both circle Both-InRing 100 (codes "zt")
      (addon (codes "net" ∷ [])) (inl refl) refl

-- The files of a directory: only the shared objects are loaded.
abbrev files : List (Item ℕ)
files =
    record { name = codes "net.so"; is_dir = false; symbols = some ((codes "net", addon []) ∷ []) }
    ∷ record {
      name = codes "README";
      is_dir = false;
      symbols = some ((codes "readme", addon []) ∷ []);
    }
    ∷ record { name = codes "old.so"; is_dir = false; symbols = none }
    ∷ []

names_in : {V : Type 0} → Dict Bytes V → List Bytes
names_in [] = []
names_in ((k, v) ∷ t) = k ∷ names_in t

load-files :
    load (λ calls. works) 1 names_in (some files ∷ []) (record { plugins = []; calls = [] })
    ≡ some (
      record {
        plugins = (codes "net", record (addon []) { is_open = true }) ∷ [];
        calls = codes "net" ∷ [];
      },
      codes "net" ∷ [],
    )
unfolding load names_in
load-files = refl

get-routes :
    (get (codes "net.run") (record { plugins = (codes "net", addon []) ∷ []; calls = [] })
      ≡ some (plugin_action 7))
    × (get (codes "plugin.list") addons ≡ some list_action)
unfolding get split_two
get-routes = (refl, refl)

-- In coreX a plugin is opened whatever it requires, and a circle is no matter.
new_router-circle : new_router (λ calls. works) names_in circle.plugins ≡ some circle.plugins
unfolding new_router names_in
new_router-circle = refl

router_get-run : router_get (codes "net.run") circle.plugins ≡ some 7
unfolding router_get split_two
router_get-run = refl
