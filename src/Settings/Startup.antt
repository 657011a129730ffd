-- ===== src/Settings/Startup.antt =====
-- base/settings/startup.go and include.go: the startup services and their weights. A weight is a
-- sum over the paths of the dependencies.
pub mod Fuel
pub mod Acyclic
use debug_bootstrap.Prelude.{
  ℕ, zero, suc, Bool, true, false, Option, none, some, List, [], ◌∷◌, ◌++◌, Bytes, codes,
  bytes_equal, contains, if◌then◌else◌,
}
use debug_bootstrap.Prelude.Int.{ℤ, pos, negsuc, ◌+ℤ◌}
use debug_bootstrap.Prelude.Dict.{Dict, lookup}

-- The argument values of a TOML table, as far as the program tells them apart.
mutual
  pub data Value : Type 0 where
    text : Bytes → Value
    texts : List Bytes → Value
    items : Items → Value
    table : Fields → Value
    other : ℕ → Value

  pub data Items : Type 0 where
    no_items : Items
    item : Value → Items → Items

  pub data Fields : Type 0 where
    no_fields : Fields
    field : Bytes → Value → Fields → Fields

-- type Startup struct
pub record Startup : Type 0 where
  pub after : List Bytes
  pub running_delay : ℤ
  pub running_match : Bytes
  pub recurring_period : ℤ
  pub max_restart : ℤ
  pub protected : Bool
  pub name : Bytes
  pub tags : List Bytes
  pub arguments : Option Fields
  pub condition : Bytes
  pub key : Bytes

-- The keys of Priority.
abbrev pub after_init : Bytes
after_init = codes "init"

abbrev pub after_net : Bytes
after_net = codes "net"

abbrev pub after_boot : Bytes
after_boot = codes "boot"

abbrev pub to_the_end : Bytes
to_the_end = codes "----"

-- Priority[a]
unfoldable pub priority : Bytes → Option ℤ
priority a = lookup a (
    (after_init, pos 1)
    ∷ (after_net, pos 1000)
    ∷ (after_boot, pos 1_000_000)
    ∷ (to_the_end, negsuc 0)
    ∷ [])

or_zero : Option ℤ → ℤ
or_zero none = pos 0
or_zero (some w) = w

-- After.Weight
unfoldable pub after_weight : Bytes → ℤ
unfolding or_zero priority
after_weight a = or_zero (priority a)

-- What Weight returns. `out_of_fuel` is the model's own.
pub data Weighed : Type 0 where
  weighs : ℤ → Weighed
  cyclic out_of_fuel : Weighed
  unknown : Bytes → Weighed

-- The rest of the sum, after one dependency weighed `d`.
unfoldable pub plus : Weighed → Weighed → Weighed
plus (weighs d) (weighs w) = weighs (d +ℤ w)
plus (weighs d) cyclic = cyclic
plus (weighs d) out_of_fuel = out_of_fuel
plus (weighs d) (unknown a) = unknown a
plus cyclic rest = cyclic
plus out_of_fuel rest = out_of_fuel
plus (unknown a) rest = unknown a

-- One entry of After: a priority, a service that `weigh` weighs, or an error.
unfoldable pub weigh_one : (Startup → Weighed) → Bytes → Option ℤ → Option Startup → Weighed
weigh_one weigh a (some x) d = weighs x
weigh_one weigh a none (some d) = weigh d
weigh_one weigh a none none = unknown a

-- The loop over After, which stops at the first error.
unfoldable pub weigh_all : (Startup → Weighed) → Dict Bytes Startup → List Bytes → Weighed
unfolding plus weigh_one
weigh_all weigh services [] = weighs (pos 0)
weigh_all weigh services (a ∷ rest) =
    plus (weigh_one weigh a (priority a) (lookup a services)) (weigh_all weigh services rest)

-- A service that names no dependency has the weight of `boot`.
unfoldable pub weigh_after : (Startup → Weighed) → Dict Bytes Startup → List Bytes → Weighed
weigh_after weigh services [] = weighs (pos 1_000_000)
weigh_after weigh services (a ∷ rest) = weigh_all weigh services (a ∷ rest)

-- Weight: `chain` are the keys on the way to the service.
unfoldable pub weight : ℕ → Dict Bytes Startup → List Bytes → Startup → Weighed
weight zero services chain s = out_of_fuel
weight (suc fuel) services chain s =
    let rest = weigh_after (weight fuel services (chain ++ s.key ∷ [])) services s.after in
    if contains chain s.key then cyclic else rest

-- prepare(): every service knows its key.
unfoldable pub prepare : Dict Bytes Startup → Dict Bytes Startup
prepare [] = []
prepare ((k, s) ∷ rest) = (k, record s { key = k }) ∷ prepare rest
