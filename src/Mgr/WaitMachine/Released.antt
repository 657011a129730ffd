-- ===== src/Mgr/WaitMachine/Released.antt =====
-- What waits on the machine of base/mgr/waitmachine.go see of its releases.
use debug_bootstrap.Prelude.{
  ◌≡◌, refl, contains, ◌||◌, Bool, true, false, Option, none, some, List, [], ◌∷◌, ◌&&◌, Bytes,
  bytes_equal, bytes_eq_iff, beq_refl, if◌then◌else◌, ◌==◌, arith, Bool-cases, Option-cases, inl,
  inr, ◌∙◌, subst,
}
use debug_bootstrap.Prelude.Dict.{lookup, insert, lookup-insert}
use debug_bootstrap.Mgr.WaitMachine.{
  new_state_machine, new_key, add_keys, wait_each, Key, Machine, wait_from, wait, wait_all, release,
  release_key,
}

-- Is the key released, or not one of the machine's? And was it last released with `true`?
abbrev pub passable : Option Key → Bool
passable none = true
passable (some w) = w.closed

abbrev pub good : Option Key → Bool
good none = true
good (some w) = w.s

abbrev pub all_passable : List Bytes → Machine → Bool
all_passable [] m = true
all_passable (k ∷ ks) m = passable (lookup k m) && all_passable ks m

abbrev pub all_good : List Bytes → Machine → Bool
all_good [] m = true
all_good (k ∷ ks) m = good (lookup k m) && all_good ks m

wait_from-passable :
    (r : Bool) (ks : List Bytes) (m : Machine)
    → wait_from r ks m ≡ (if all_passable ks m then some (r && all_good ks m) else none)
unfolding wait_from
wait_from-passable r [] m = ground arith
wait_from-passable r (k ∷ ks) m =
    ground (arith, wait_from-passable r ks m, wait_from-passable false ks m)

-- A wait for some keys goes through exactly when each of them is released or unknown, and then says
-- whether all known ones were last released with `true`.
pub wait-passable :
    (ks : List Bytes) (m : Machine)
    → wait ks m ≡ (if all_passable ks m then some (all_good ks m) else none)
unfolding wait
wait-passable ks m = wait_from-passable true ks m ∙ ground arith

-- What a release with the state `b` makes of the entry of its key.
abbrev pub released : Bool → Option Key → Option Key
released b none = none
released b (some w) = some (record { closed = true; s = b })

abbrev pub is_known : Option Key → Bool
is_known none = false
is_known (some w) = true

lookup-release_same :
    (k : Bytes) (b : Bool) (m : Machine) → lookup k (release k b m).0 ≡ released b (lookup k m)
unfolding release
lookup-release_same k b m = elim (Option-cases (lookup k m)) [
  | inl e ↦ rw (e, release_key) e
  | inr (w, e) ↦
      rw (e, release_key)
        (ground (arith, beq_refl k, lookup-insert k k (record { closed = true; s = b }) m))
]

lookup-release_other :
    (k j : Bytes) (b : Bool) (m : Machine)
    → (k == j) ≡ false
    → lookup j (release k b m).0 ≡ lookup j m
unfolding release
lookup-release_other k j b m h = elim (Option-cases (lookup k m)) [
  | inl e ↦ rw (e, release_key) refl
  | inr (w, e) ↦
      rw (e, release_key) (ground (arith, h, lookup-insert k j (record { closed = true; s = b }) m))
]

release_known : (k : Bytes) (b : Bool) (m : Machine) → (release k b m).1 ≡ is_known (lookup k m)
unfolding release
release_known k b m = elim (Option-cases (lookup k m)) [
  | inl e ↦ rw (e, release_key) refl
  | inr (w, e) ↦ rw (e, release_key) refl
]

-- A release of a known key closes it with the new state, also where it was released before; a
-- release of an unknown key reports an error and adds no key. No other key is touched.
pub lookup-release :
    (k j : Bytes) (b : Bool) (m : Machine)
    → (lookup j (release k b m).0 ≡ (if k == j then released b (lookup j m) else lookup j m))
      × ((release k b m).1 ≡ is_known (lookup k m))
lookup-release k j b m = elim (Bool-cases (k == j)) [
  | inl same ↦ (
    subst (λ i. lookup i (release k b m).0 ≡ released b (lookup i m)) ((bytes_eq_iff k j).0 same)
          (lookup-release_same k b m)
        ∙ rw same refl,
    release_known k b m,
  )
  | inr other ↦ (lookup-release_other k j b m other ∙ rw other refl, release_known k b m)
]

wait-one :
    (k : Bytes) (w : Key) (m : Machine)
    → lookup k m ≡ some w
    → w.closed ≡ true
    → wait (k ∷ []) m ≡ some w.s
wait-one k w m e c = wait-passable (k ∷ []) m ∙ rw (e, c) (ground arith)

-- The keys of the list stand in the machine.
abbrev Known : Machine → Machine → Type 0
Known [] m = Unit {0}
Known ((k, w) ∷ rest) m = ((w' : Key) × (lookup k m ≡ some w')) × Known rest m

Known-insert : (k : Bytes) (w : Key) (rest m : Machine) → Known rest m → Known rest ((k, w) ∷ m)
Known-insert k w [] m h = tt
Known-insert k w ((j, v) ∷ rest) m h = (
  elim (Bool-cases (k == j)) [ inl t ↦ (w, rw t) | inr f ↦ (h.0.0, rw f h.0.1) ],
  Known-insert k w rest m h.1,
)

Known-self : (m : Machine) → Known m m
Known-self [] = tt
Known-self ((k, w) ∷ m) = ((w, rw (beq_refl k)), Known-insert k w m m (Known-self m))

wait_each-closed :
    (rest m : Machine)
    → Known rest m
    → ((k : Bytes) (w : Key) → lookup k m ≡ some w → w.closed ≡ true)
    → wait_each rest m ≡ true
unfolding wait_each
wait_each-closed [] m h c = refl
wait_each-closed ((k, w) ∷ rest) m h c =
    let (w', e) = h.0 in
    rw (wait-one k w' m e (c k w' e), wait_each) (wait_each-closed rest m h.1 c)

pub wait_all-closed :
    (m : Machine)
    → ((k : Bytes) (w : Key) → lookup k m ≡ some w → w.closed ≡ true)
    → wait_all m ≡ true
unfolding wait_all
wait_all-closed m c = wait_each-closed m m (Known-self m) c

known-add_keys :
    (k : Bytes) (keys : List Bytes) (m : Machine)
    → is_known (lookup k (add_keys m keys)) ≡ (contains keys k || is_known (lookup k m))
unfolding add_keys
known-add_keys k [] m = refl
known-add_keys k (j ∷ keys) m = elim (Bool-cases (j == k)) [
  | inl e ↦
      known-add_keys k keys (insert j new_key m)
      ∙ rw (lookup-insert j k new_key m, e) (ground arith)
  | inr e ↦ known-add_keys k keys (insert j new_key m) ∙ rw (lookup-insert j k new_key m, e) refl
]

pub known-new_state_machine :
    (k : Bytes) (keys : List Bytes) → is_known (lookup k (new_state_machine keys)) ≡ contains keys k
unfolding new_state_machine
known-new_state_machine k keys = known-add_keys k keys [] ∙ ground arith
