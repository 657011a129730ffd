-- ===== src/Socat/Forwards/Kept.antt =====
-- What the calls on the table of apps/plugins/socat/plugin/socat.go keep true of it.
use debug_bootstrap.Prelude.{
  ℕ, ◌≡◌, refl, subst, Bool, true, false, Option, none, some, List, [], ◌∷◌, ◌++◌, Bytes, codes,
  ◌==◌, bytes_equal, nat_equal, nat_beq, nat_beq_iff, All, arith, Bool-cases, Option-cases, inl,
  inr,
}
use debug_bootstrap.Prelude.Int.{ℤ}
use debug_bootstrap.Prelude.Dict.{Dict, lookup, insert, remove, lookup-insert, lookup-remove}
use debug_bootstrap.Socat.Source.{Source, Rule, get_source}
use debug_bootstrap.Socat.Source.Accepted.{IsSource, get_source-IsSource}
use debug_bootstrap.Socat.Forwards.{
  Cache, SocatManager, forward_id, new_rule, set_rule, set_source, set_port_forward, remove_rule,
  remove_source, remove_port_forward, drop_found, remove_ports, remove_all, in_namespace,
}

-- The rule at a port of the host: its source is one that getSource accepts, with that port, and its
-- name is that of some namespace, the port and the destination.
pub record IsForward (p : ℕ) (r : Rule) : Type 0 where
  pub source : IsSource r.source
  pub port : r.source.port ≡ p
  pub name : (namespace : Bytes) × (r.ns ≡ forward_id namespace p r.port)

abbrev pub Forwards : Dict ℕ Rule → Type 0
Forwards t = All (λ e. IsForward e.0 e.1) t

-- No port has two entries.
abbrev pub IsDistinct : Dict ℕ Rule → Type 0
IsDistinct [] = Unit
IsDistinct ((p, r) ∷ rest) = (lookup p rest ≡ none) × IsDistinct rest

pub record IsTable (t : Dict ℕ Rule) : Type 0 where
  pub forwards : Forwards t
  pub distinct : IsDistinct t

insert-Forwards :
    (p : ℕ) (r : Rule) (t : Dict ℕ Rule) → IsForward p r → Forwards t → Forwards (insert p r t)
insert-Forwards p r [] k h = (k, tt)
insert-Forwards p r ((q, s) ∷ t) k h = elim (Bool-cases (nat_beq q p)) [
  | inl e ↦ rw e (k, h.1)
  | inr e ↦ rw e (h.0, insert-Forwards p r t k h.1)
]

insert-IsDistinct : (p : ℕ) (r : Rule) (t : Dict ℕ Rule) → IsDistinct t → IsDistinct (insert p r t)
insert-IsDistinct p r [] h = (refl, tt)
insert-IsDistinct p r ((q, s) ∷ t) h = elim (Bool-cases (nat_beq q p)) [
  | inl e ↦ rw e (subst (λ i. lookup i t ≡ none) ((nat_beq_iff q p).0 e) h.0, h.1)
  | inr e ↦ rw e (
    ground (arith, lookup-insert p q r t, h.0, e, nat_beq_iff q p, nat_beq_iff p q),
    insert-IsDistinct p r t h.1,
  )
]

remove-Forwards : (p : ℕ) (t : Dict ℕ Rule) → Forwards t → Forwards (remove p t)
remove-Forwards p [] h = tt
remove-Forwards p ((q, s) ∷ t) h = elim (Bool-cases (nat_beq q p)) [
  | inl e ↦ rw e (remove-Forwards p t h.1)
  | inr e ↦ rw e (h.0, remove-Forwards p t h.1)
]

remove-IsDistinct : (p : ℕ) (t : Dict ℕ Rule) → IsDistinct t → IsDistinct (remove p t)
remove-IsDistinct p [] h = tt
remove-IsDistinct p ((q, s) ∷ t) h = elim (Bool-cases (nat_beq q p)) [
  | inl e ↦ rw e (remove-IsDistinct p t h.1)
  | inr e ↦ rw e (ground (arith, lookup-remove p q t, h.0), remove-IsDistinct p t h.1)
]

insert-IsTable :
    (p : ℕ) (r : Rule) (t : Dict ℕ Rule) → IsForward p r → IsTable t → IsTable (insert p r t)
insert-IsTable p r t k h = record {
  forwards = insert-Forwards p r t k h.forwards;
  distinct = insert-IsDistinct p r t h.distinct;
}

remove-IsTable : (p : ℕ) (t : Dict ℕ Rule) → IsTable t → IsTable (remove p t)
remove-IsTable p t h = record {
  forwards = remove-Forwards p t h.forwards;
  distinct = remove-IsDistinct p t h.distinct;
}

remove_ports-IsTable : (ps : List ℕ) (t : Dict ℕ Rule) → IsTable t → IsTable (remove_ports ps t)
unfolding remove_ports
remove_ports-IsTable [] t h = h
remove_ports-IsTable (p ∷ ps) t h = remove_ports-IsTable ps (remove p t) (remove-IsTable p t h)

module _ {C : Type 0} where
  set_source-IsTable :
      (cache : Cache C) (ok : Bool) (namespace ip : Bytes) (dest : ℤ) (o : Option Source)
      (m : SocatManager C)
      → ((s : Source) → o ≡ some s → IsSource s)
      → IsTable m.rules
      → IsTable (set_source cache ok namespace ip dest o m).0.rules
  unfolding set_source set_rule new_rule
  set_source-IsTable cache ok namespace ip dest none m k h = h
  set_source-IsTable cache ok namespace ip dest (some s) m k h =
      elim (Option-cases (lookup s.port m.rules)) [
        | inr (old, e) ↦ rw e h
        | inl e ↦ elim (Bool-cases ok) [
          | inr f ↦ rw (e, f) h
          | inl t ↦
              rw (e, t)
                (insert-IsTable s.port (new_rule namespace ip s dest) m.rules
                  (record { source = k s refl; port = refl; name = (namespace, refl) }) h)
        ]
      ]

  remove_source-IsTable :
      (ok : Bool) (namespace : Bytes) (dest : ℤ) (o : Option Source) (m : SocatManager C)
      → IsTable m.rules
      → IsTable (remove_source ok namespace dest o m).0.rules
  unfolding remove_source remove_rule
  remove_source-IsTable ok namespace dest none m h = h
  remove_source-IsTable ok namespace dest (some s) m h =
      elim (Option-cases (lookup s.port m.rules)) [
        | inl e ↦ rw e h
        | inr (r, e) ↦ elim (Bool-cases (r.ns == forward_id namespace s.port dest)) [
          | inr f ↦ rw (e, f) h
          | inl t ↦ elim (Bool-cases ok) [
            | inr f ↦ rw (e, t, f) h
            | inl g ↦ rw (e, t, g) (remove-IsTable s.port m.rules h)
          ]
        ]
      ]

  drop_found-IsTable :
      (ok : Bool) (found : List ℕ × List Bytes) (m : SocatManager C)
      → IsTable m.rules
      → IsTable (drop_found ok found m).0.rules
  unfolding drop_found
  drop_found-IsTable ok (ports, []) m h = h
  drop_found-IsTable true (ports, body ∷ bodies) m h = remove_ports-IsTable ports m.rules h
  drop_found-IsTable false (ports, body ∷ bodies) m h = h

-- A call on the table, with what the firewall answers.
pub data Op : Type 0 where
  sets : (ok : Bool) → (namespace ip host : Bytes) → (dest : ℤ) → Op
  removes : (ok : Bool) → (namespace host : Bytes) → (dest : ℤ) → Op
  removes_all : (ok : Bool) → (namespace : Bytes) → Op

module _ {C : Type 0} (cache : Cache C) (is_address : Bytes → Bool) where
  abbrev pub call : SocatManager C → Op → SocatManager C
  call m (sets ok namespace ip host dest) = (set_port_forward cache ok namespace ip host dest m).0
  call m (removes ok namespace host dest) = (remove_port_forward ok namespace host dest m).0
  call m (removes_all ok namespace) = (remove_all is_address ok namespace m).0

  abbrev pub calls : SocatManager C → List Op → SocatManager C
  calls m [] = m
  calls m (o ∷ os) = calls (call m o) os

  call-IsTable : (m : SocatManager C) (o : Op) → IsTable m.rules → IsTable (call m o).rules
  unfolding set_port_forward remove_port_forward remove_all
  call-IsTable m (sets ok namespace ip host dest) h =
      set_source-IsTable cache ok namespace ip dest (get_source host) m (get_source-IsSource host) h
  call-IsTable m (removes ok namespace host dest) h =
      remove_source-IsTable ok namespace dest (get_source host) m h
  call-IsTable m (removes_all ok namespace) h =
      drop_found-IsTable ok (in_namespace is_address (codes "socat-" ++ namespace) m.rules) m h

  -- Any calls of SetPortForward, RemovePortForward and RemoveAll, whatever the firewall answers,
  -- keep the table in order: no port has two rules, each rule has a valid source with the port under
  -- which it stands, and its name is that of a namespace, the port and the destination.
  pub calls-IsTable :
      (m : SocatManager C) (os : List Op) → IsTable m.rules → IsTable (calls m os).rules
  calls-IsTable m [] h = h
  calls-IsTable m (o ∷ os) h = calls-IsTable (call m o) os (call-IsTable m o h)
