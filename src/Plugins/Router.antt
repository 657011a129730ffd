-- ===== src/Plugins/Router.antt =====
-- apps/coreX/router.go: the plugins of a container's core, which are all opened in turn, whatever
-- they require. What an Open does is an argument, as for the plugins of core0.
use debug_bootstrap.Prelude.{
  ◌≡◌, ◌≢◌, refl, Bool, true, false, Option, none, some, List, [], ◌∷◌, ◌++◌, Bytes, codes,
  bytes_equal, bytes_eq_iff, split_two, ◌==◌, if◌then◌else◌, Bool-cases, Option-cases, inl, inr,
}
use debug_bootstrap.Prelude.Dict.{Dict, lookup, insert}
use debug_bootstrap.Plugins.{Plugin, PluginManager}
use debug_bootstrap.Plugins.Manage.{Routed, plugin_action, plugin_get, get}

module _ {A : Type 0} where
  -- The table that NewRouter fills
  unfoldable pub route_table :
      List (Bytes × Plugin A) → Dict Bytes (Plugin A) → Dict Bytes (Plugin A)
  route_table [] t = t
  route_table ((name, pl) ∷ pls) t = route_table pls (insert name pl t)

  -- Its loop over the names in the table: the calls of Open, and whether none had an error
  unfoldable pub open_routes :
      (List Bytes → Bytes → Bool)
      → Dict Bytes (Plugin A)
      → List Bytes
      → List Bytes
      → List Bytes × Bool
  open_routes works t [] calls = (calls, true)
  open_routes works t (name ∷ names) calls =
      let rest = open_routes works t names in
      elim (lookup name t) [
        | none ↦ rest calls
        | some pl ↦
            if pl.has_open
            then (if works calls name
                then rest (calls ++ name ∷ [])
                else (calls ++ name ∷ [], false))
            else rest calls
      ]

  -- func NewRouter: the table, if each Open went well
  unfoldable pub new_router :
      (List Bytes → Bytes → Bool)
      → (Dict Bytes (Plugin A) → List Bytes)
      → List (Bytes × Plugin A)
      → Option (Dict Bytes (Plugin A))
  unfolding route_table open_routes
  new_router works walk pls =
      let t = route_table pls [] in
      let (calls, fine) = open_routes works t (walk t) [] in if fine then some t else none

  unfoldable pub route : Bytes → Bytes → Dict Bytes (Plugin A) → Option A
  route name target t = elim (lookup name t) [ none ↦ none | some pl ↦ lookup target pl.actions ]

  -- func (m *Router) Get
  unfoldable pub router_get : Bytes → Dict Bytes (Plugin A) → Option A
  unfolding route
  router_get name t =
      let (first, second) = split_two b'.' name in
      let target : Bytes = elim second [ none ↦ [] | some rest ↦ rest ] in route first target t

  -- An action of a plugin, as core0 has it
  abbrev pub as_routed : Option A → Option (Routed A)
  as_routed none = none
  as_routed (some a) = some (plugin_action a)

  plugin_get-route :
      (name target : Bytes) (m : PluginManager A)
      → plugin_get name target m ≡ as_routed (route name target m.plugins)
  unfolding plugin_get route
  plugin_get-route name target m = elim (Option-cases (lookup name m.plugins)) [
    | inl gone ↦ rw (plugin_get, route, gone) refl
    | inr (pl, found) ↦ elim (Option-cases (lookup target pl.actions)) [
      | inl no_action ↦ rw (plugin_get, route, found, no_action) refl
      | inr (a, at) ↦ rw (plugin_get, route, found, at) refl
    ]
  ]

  -- A name of another namespace than that of the manager's own actions means in core0 the same
  -- action of a plugin as in coreX, for the same plugins.
  pub get-router_get :
      (name : Bytes) (m : PluginManager A)
      → (split_two b'.' name).0 ≢ codes "plugin"
      → get name m ≡ as_routed (router_get name m.plugins)
  unfolding get router_get
  get-router_get name m other_space =
      let (first, second) = split_two b'.' name in
      let target : Bytes = elim second [ none ↦ [] | some rest ↦ rest ] in
      elim (Bool-cases (first == codes "plugin")) [
        | inl own ↦ absurd (other_space ((bytes_eq_iff first (codes "plugin")).0 own))
        | inr plain ↦ rw plain (plugin_get-route first target m)
      ]
