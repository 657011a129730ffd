-- ===== src/Plugins/Manage.antt =====
-- apps/core0/plugin/manager.go, actions.go, api.go and store.go: how the files of a directory come
-- to the table of plugins, how an action is found, how a plugin is loaded while the process runs,
-- and the stores of the plugins. What a shared object of Go's plugin package shows is an argument.
use debug_bootstrap.Prelude.{
  ℕ, Bool, true, false, Option, none, some, List, [], ◌∷◌, Bytes, codes, bytes_equal, split_two,
  ◌==◌, if◌then◌else◌, nat_beq, not,
}
use debug_bootstrap.Prelude.Dict.{Dict, lookup, insert}
use debug_bootstrap.Plugins.{
  no_api, handler, other, Plugin, PluginManager, Opening, opened, missing_dep, open_failed,
  out_of_fuel, open_recursive, open_plugins,
}

-- path.Ext: what begins at the last dot
unfoldable pub ext : Bytes → Bytes
ext [] = []
ext (c ∷ name) =
    let later = ext name in
    elim later [ [] ↦ if nat_beq c 46 then c ∷ name else [] | x ∷ rest ↦ x ∷ rest ]

-- An entry of a directory, and the plugins that the shared object shows, if it can be opened
pub record Item (A : Type 0) : Type 0 where
  pub name : Bytes
  pub is_dir : Bool
  pub symbols : Option (List (Bytes × Plugin A))

-- What the action for a name is
pub data Routed (A : Type 0) : Type 0 where
  list_action load_action : Routed A
  plugin_action : A → Routed A

-- What Plugin and the action `load` answer
pub data ApiAnswer : Type 0 where
  not_found no_api_defined has_api : ApiAnswer

pub data LoadAnswer : Type 0 where
  loaded : LoadAnswer
  no_hot_update : Bytes → LoadAnswer
  not_opened : Opening → LoadAnswer

module _ {A : Type 0} where
  -- m.plugins[p.Name] = &Plugin{Plugin: p} for each
  unfoldable pub add_plugins :
      List (Bytes × Plugin A) → Dict Bytes (Plugin A) → Dict Bytes (Plugin A)
  add_plugins [] t = t
  add_plugins ((name, pl) ∷ pls) t = add_plugins pls (insert name (record pl { is_open = false }) t)

  -- One turn of the loop of loadPath
  unfoldable pub add_item : Item A → Dict Bytes (Plugin A) → Dict Bytes (Plugin A)
  unfolding ext add_plugins
  add_item item t =
      if item.is_dir
      then t
      else if not (ext item.name == codes ".so")
      then t
      else elim item.symbols [ none ↦ t | some pls ↦ add_plugins pls t ]

  unfoldable pub load_items : List (Item A) → Dict Bytes (Plugin A) → Dict Bytes (Plugin A)
  unfolding add_item
  load_items [] t = t
  load_items (item ∷ items) t = load_items items (add_item item t)

  -- loadPath for each path of the manager, until one cannot be read: the table, and whether all
  -- were read
  unfoldable pub load_paths :
      List (Option (List (Item A))) → Dict Bytes (Plugin A) → Dict Bytes (Plugin A) × Bool
  unfolding load_items
  load_paths [] t = (t, true)
  load_paths (none ∷ dirs) t = (t, false)
  load_paths (some items ∷ dirs) t = load_paths dirs (load_items items t)

  -- func (m *Manager) internal
  unfoldable pub internal : Bytes → Option (Routed A)
  internal name =
      if name == codes "list"
      then some list_action
      else if name == codes "load"
      then some load_action
      else none

  -- The action of a plugin, under what stands after the first dot
  unfoldable pub plugin_get : Bytes → Bytes → PluginManager A → Option (Routed A)
  plugin_get name target m = elim (lookup name m.plugins) [
    | none ↦ none
    | some pl ↦ elim (lookup target pl.actions) [ none ↦ none | some a ↦ some (plugin_action a) ]
  ]

  unfoldable pub get : Bytes → PluginManager A → Option (Routed A)
  unfolding internal plugin_get
  get name m =
      let (first, second) = split_two 46 name in
      let target : Bytes = elim second [ none ↦ [] | some rest ↦ rest ] in
      if first == codes "plugin" then internal target else plugin_get first target m

  -- func (m *Manager) Plugin: whether there is an API, or why there is none
  unfoldable pub plugin_api : Bytes → PluginManager A → ApiAnswer
  plugin_api name m = elim (lookup name m.plugins) [
    | none ↦ not_found
    | some pl ↦ elim pl.api [ no_api ↦ no_api_defined | handler ↦ has_api | other ↦ has_api ]
  ]

  -- What `list` says of each plugin: its name, version, whether it can be updated, what it requires
  unfoldable pub list_plugins : Dict Bytes (Plugin A) → List (Bytes × Bytes × Bool × List Bytes)
  list_plugins [] = []
  list_plugins ((name, pl) ∷ t) = (name, pl.version, pl.can_update, pl.requires) ∷ list_plugins t

  -- A plugin of the table that does not allow an update
  unfoldable pub refuses : Option (Plugin A) → Bool
  refuses none = false
  refuses (some current) = not current.can_update

  -- What follows a call of openRecursive in the action `load`
  unfoldable pub after_open :
      Bytes
      → Plugin A
      → PluginManager A × Opening
      → (PluginManager A → PluginManager A × LoadAnswer)
      → PluginManager A × LoadAnswer
  after_open name pl (m, opened) k =
      k (record m { plugins = insert name (record pl { is_open = true }) m.plugins })
  after_open name pl (m, missing_dep a b) k = (m, not_opened (missing_dep a b))
  after_open name pl (m, open_failed a) k = (m, not_opened (open_failed a))
  after_open name pl (m, out_of_fuel) k = (m, not_opened out_of_fuel)

module _ {A : Type 0} (works : List Bytes → Bytes → Bool) where
  -- The action `load`, for the plugins that the shared object shows
  unfoldable pub load_shown :
      ℕ → List (Bytes × Plugin A) → PluginManager A → PluginManager A × LoadAnswer
  unfolding refuses after_open
  load_shown fuel [] m = (m, loaded)
  load_shown fuel ((name, symbols) ∷ pls) m =
      let pl : Plugin A = record symbols { is_open = false } in
      if refuses (lookup name m.plugins)
      then (m, no_hot_update name)
      else after_open name pl (open_recursive works fuel name pl m) (load_shown fuel pls)

  -- func (m *Manager) Load: the paths first; an error there ends it. `walk` is the order in which
  -- the table is walked.
  unfoldable pub load :
      ℕ
      → (Dict Bytes (Plugin A) → List Bytes)
      → List (Option (List (Item A)))
      → PluginManager A
      → Option (PluginManager A × List Bytes)
  unfolding load_paths open_plugins
  load fuel walk dirs m =
      let (t, read) = load_paths dirs m.plugins in
      if read then some (open_plugins works fuel (walk t) (record m { plugins = t })) else none
