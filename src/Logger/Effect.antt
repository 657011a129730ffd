-- ===== src/Logger/Effect.antt =====
-- apps/plugins/logger/plugin/trunk.go: what one record does to the list of a queue.
use debug_bootstrap.Stream.Meta.{Message}
use debug_bootstrap.Prelude.{
  ℕ, ◌≤◌, ◌<◌, true, false, Option, none, some, List, [], ◌∷◌, ◌++◌, Bytes, ◌≡◌, refl, ap, ◌∙◌,
  subst, length, last_n, nat_beq, bytes_equal, bytes_eq_iff, ◌==◌, arith, if◌then◌else◌, Bool-cases,
  inl, inr,
}
use debug_bootstrap.Prelude.Dict.{Dict, lookup, IsApart}
use debug_bootstrap.Logger.{Database, lets_through, push_each}
use debug_bootstrap.Logger.Lists.{IsStore, length-last_n, last_n-cons, Adds, push_trimmed-list}

-- What one record does to the list of a queue: nothing, if the queue is not subscribed.
pub effect : ℕ → Message → Bytes → Option (List ℕ) → List Bytes → List Bytes
effect n msg b none xs = xs
effect n msg b (some lvls) xs = if lets_through lvls msg then last_n n (xs ++ b ∷ []) else xs

pub lookup-some-length :
    {V : Type 0} (q : Bytes) (m : Dict Bytes V) (v : V)
    → lookup q m ≡ some v
    → nat_beq (length m) 0 ≡ false
lookup-some-length q [] v h = ground arith
lookup-some-length q (e ∷ m) v h = ground arith

module _ {D : Type 0} (db : Database D) (list : Bytes → D → List Bytes)
    (store : IsStore db list) where
  pub push_each-effect :
      (n : ℕ) (msg : Message) (b : Bytes) (queues : Dict Bytes (List ℕ)) (d : D)
      → 0 < n
      → IsApart queues
      → (d' : D) × (push_each db n msg b queues d ≡ (d', true))
        × ((j : Bytes) → list j d' ≡ effect n msg b (lookup j queues) (list j d))
  unfolding push_each effect
  push_each-effect n msg b [] d p a = (d, refl, λ j. refl)
  push_each-effect n msg b ((q, lvls) ∷ queues) d p a = elim (Bool-cases (lets_through lvls msg)) [
    | inr t ↦
        let (d', pushes, after) = push_each-effect n msg b queues d p a.1 in
        (
          d',
          rw (push_each, t) pushes,
          λ j. elim (Bool-cases (q == j)) [
            | inr e ↦ rw e (after j)
            | inl e ↦
                let gone = subst (λ i. lookup i queues ≡ none) ((bytes_eq_iff q j).0 e) a.0 in
                rw (e, t) (after j ∙ ap (λ o. effect n msg b o (list j d)) gone)
          ],
        )
    | inl t ↦
        let (pushed, push, first) = push_trimmed-list db list store n q b d p in
        let (d', pushes, after) = push_each-effect n msg b queues pushed p a.1 in
        (
          d',
          rw (push_each, t, push, push) pushes,
          λ j. elim (Bool-cases (q == j)) [
            | inr e ↦ rw e (after j ∙ ap (effect n msg b (lookup j queues)) (first j ∙ rw e refl))
            | inl e ↦
                let same : q ≡ j = (bytes_eq_iff q j).0 e in
                let gone = subst (λ i. lookup i queues ≡ none) same a.0 in
                rw (e, t)
                  (after j
                    ∙ ap (λ o. effect n msg b o (list j pushed)) gone
                    ∙ first j
                    ∙ rw e (ap (λ i. last_n n (list i d ++ b ∷ [])) same))
          ],
        )
  ]

  pub effect-Adds :
      (n : ℕ) (msg : Message) (b j : Bytes) (lvls : List ℕ) (d d' : D)
      → length (list j d) ≤ n
      → list j d' ≡ effect n msg b (some lvls) (list j d)
      → Adds list n j (lets_through lvls msg) (some b) d d'
  unfolding effect Adds
  effect-Adds n msg b j lvls d d' l after = elim (Bool-cases (lets_through lvls msg)) [
    | inl t ↦
        let kept : list j d' ≡ last_n n (list j d ++ b ∷ []) = rw t at after in
        rw (kept, t) (length-last_n n (list j d ++ b ∷ []), λ rest. last_n-cons n (list j d) b rest)
    | inr t ↦ let kept : list j d' ≡ list j d = rw t at after in rw (kept, t) (l, λ rest. refl)
  ]
