-- ===== src/Socat/Source/Accepted.antt =====
-- What getSource of apps/plugins/socat/plugin/rule.go accepts.
use debug_bootstrap.Prelude.{
  ℕ, ◌<◌, ◌≡◌, refl, subst, true, ◌||◌, Option, none, some, List, [], ◌∷◌, Bytes, bytes_equal,
  split, split_two, split_cons, nat_beq, leb, arith, Bool-cases, inl, inr,
}
use debug_bootstrap.Prelude.Int.{ℤ, pos, negsuc}
use debug_bootstrap.Socat.Source.{
  Source, get_source, source_of, source_at, with_port, valid_protocols, protocols_of, scan_int, tcp,
  address_all,
}

-- There is a first entry.
abbrev pub IsNonEmpty : List Bytes → Type 0
IsNonEmpty ps = (q : Bytes) × (qs : List Bytes) × (ps ≡ q ∷ qs)

-- A source that getSource accepts.
pub record IsSource (s : Source) : Type 0 where
  pub above : 0 < s.port
  pub below : s.port < 65536
  pub protocols : valid_protocols s.protocols ≡ true
  pub some_protocol : IsNonEmpty s.protocols

split_cons-IsNonEmpty : (c : ℕ) (ps : List Bytes) → IsNonEmpty (split_cons c ps)
unfolding split_cons
split_cons-IsNonEmpty c [] = (c ∷ [], [], refl)
split_cons-IsNonEmpty c (p ∷ ps) = (c ∷ p, ps, refl)

split-IsNonEmpty : (sep : ℕ) (s : Bytes) → IsNonEmpty (split sep s)
unfolding split
split-IsNonEmpty sep [] = ([], [], refl)
split-IsNonEmpty sep (c ∷ s) = elim (Bool-cases (nat_beq c sep)) [
  | inl h ↦ ([], split sep s, rw h)
  | inr h ↦ rw h (split_cons-IsNonEmpty c (split sep s))
]

protocols_of-IsNonEmpty : (o : Option Bytes) → IsNonEmpty (protocols_of o)
unfolding protocols_of
protocols_of-IsNonEmpty none = (tcp, [], refl)
protocols_of-IsNonEmpty (some t) = split-IsNonEmpty b'+' t

with_port-IsSource :
    (ps : List Bytes) (ip : Bytes) (o : Option ℤ) (s : Source)
    → valid_protocols ps ≡ true
    → IsNonEmpty ps
    → with_port ps ip o ≡ some s
    → IsSource s
unfolding with_port
with_port-IsSource ps ip none s v ne e = absurd (ground arith)
with_port-IsSource ps ip (some (negsuc n)) s v ne e = absurd (ground arith)
with_port-IsSource ps ip (some (pos n)) s v ne e = elim (Bool-cases (nat_beq n 0 || leb 65536 n)) [
  | inl bad ↦ absurd (ground arith)
  | inr good ↦
      let made : Source = record { ip = ip; port = n; protocols = ps } in
      let kept : IsSource made = record {
        above = ground arith;
        below = ground arith;
        protocols = v;
        some_protocol = ne;
      } in
      let same : made ≡ s = ground arith in subst IsSource same kept
]

source_at-IsSource :
    (ps : List Bytes) (parts : Bytes × Option Bytes) (s : Source)
    → valid_protocols ps ≡ true
    → IsNonEmpty ps
    → source_at ps parts ≡ some s
    → IsSource s
unfolding source_at
source_at-IsSource ps (port, none) s v ne e =
    with_port-IsSource ps address_all (scan_int port) s v ne e
source_at-IsSource ps (ip, some port) s v ne e = with_port-IsSource ps ip (scan_int port) s v ne e

source_of-IsSource :
    (parts : Bytes × Option Bytes) (s : Source) → source_of parts ≡ some s → IsSource s
unfolding source_of
source_of-IsSource (src, text) s e = elim (Bool-cases (valid_protocols (protocols_of text))) [
  | inl v ↦
      source_at-IsSource (protocols_of text) (split_two b':' src) s v (protocols_of-IsNonEmpty text)
        (rw v at e)
  | inr v ↦ absurd (ground arith)
]

-- A source that getSource accepts has a port from 1 to 65535, and at least one protocol, each of
-- them TCP or UDP.
pub get_source-IsSource : (text : Bytes) (s : Source) → get_source text ≡ some s → IsSource s
unfolding get_source
get_source-IsSource text s e = source_of-IsSource (split_two b'|' text) s e
