-- ===== src/Mgr/Queue/Holds.antt =====
-- The map of the queue of base/mgr/queue.go beside a plain list for each name.
use debug_bootstrap.Prelude.{
  ◌≡◌, refl, ◌≢◌, false, none, some, List, [], ◌∷◌, ◌++◌, Bytes, if◌then◌else◌, ◌==◌, take, drop,
  arith, bytes_equal, bytes_eq_iff, All, append-nil, Bool-cases, inl, inr, ◌⊎◌, subst,
}
use debug_bootstrap.Prelude.Dict.{lookup, insert, lookup-insert, lookup-remove}
use debug_bootstrap.Mgr.Queue.{
  Queue, push, notify, list_or_new, first_only, after_front, drop_front,
}
use debug_bootstrap.Mgr.Queue.Trace.{
  Op, pushes, notifies, after_push, step, only, waiting_step, entry,
}

module _ {J : Type 0} (name : J → Bytes) where
  -- The map agrees with the plain lists `xs`, and each list holds jobs of its own name.
  pub record Holds (q : Queue J) (xs : Bytes → List J) : Type 0 where
    pub is_open : q.closed ≡ false
    pub unnamed : lookup [] q.queues ≡ none
    pub entries : (n : Bytes) → n ≢ [] → lookup n q.queues ≡ entry (xs n)
    pub named : (n : Bytes) → All (λ j. name j ≡ n) (xs n)

  -- What one call sends of the name.
  abbrev pub sent_step : Bytes → List J → Op J → List J
  sent_step n xs (pushes j) = if name j == n then first_only j xs else []
  sent_step n xs (notifies j) = if name j == n then take 1 (drop 1 xs) else []

  only-append :
      (n : Bytes) (xs ys : List J) → only name n (xs ++ ys) ≡ only name n xs ++ only name n ys
  only-append n [] ys = refl
  only-append n (x ∷ xs) ys = ground (arith, only-append n xs ys)

  named-snoc :
      (n : Bytes) (j : J) (xs : List J)
      → name j ≡ n
      → All (λ j. name j ≡ n) xs
      → All (λ j. name j ≡ n) (xs ++ j ∷ [])
  named-snoc n j [] e h = (e, tt)
  named-snoc n j (x ∷ xs) e h = (h.0, named-snoc n j xs e h.1)

  named-tail :
      (n : Bytes) (xs : List J) → All (λ j. name j ≡ n) xs → All (λ j. name j ≡ n) (drop 1 xs)
  named-tail n [] h = tt
  named-tail n (x ∷ xs) h = h.1

  entry-snoc : (xs : List J) (j : J) → entry (xs ++ j ∷ []) ≡ some (xs ++ j ∷ [])
  entry-snoc [] j = refl
  entry-snoc (x ∷ xs) j = refl

  module _ (q : Queue J) (xs : Bytes → List J) (j : J) (v : Holds q xs) where
    -- A job with no queue name goes out at once, and nothing else changes.
    push_unnamed : name j ≡ [] → push name q j ≡ some (q, j ∷ [])
    unfolding push
    push_unnamed e = rw (v.is_open, e)

    list_or_new-entry : (ys : List J) → list_or_new (entry ys) ≡ ys
    unfolding list_or_new
    list_or_new-entry [] = refl
    list_or_new-entry (y ∷ ys) = refl

    push_named :
        name j ≢ []
        → push name q j
          ≡ some (
            record q { queues = insert (name j) (xs (name j) ++ j ∷ []) q.queues },
            first_only j (xs (name j)),
          )
    unfolding push
    push_named h = ground (
      arith,
      bytes_eq_iff (name j) [],
      v.is_open,
      v.entries (name j) h,
      list_or_new-entry (xs (name j)),
    )

    notify_unnamed : name j ≡ [] → notify name q j ≡ (q, [])
    unfolding notify
    notify_unnamed e = rw (v.is_open, e, v.unnamed)

    notify_named : name j ≢ [] → notify name q j ≡ drop_front name q j (entry (xs (name j)))
    unfolding notify
    notify_named h = rw (v.is_open, v.entries (name j) h)

    only-first_only :
        (n : Bytes) (ys : List J)
        → only name n (first_only j ys) ≡ (if name j == n then first_only j ys else [])
    unfolding first_only
    only-first_only n [] = refl
    only-first_only n (y ∷ ys) = ground arith

    waits : Op J → Bytes → List J
    waits o n = waiting_step name n (xs n) o

    named_waits :
        (o : Op J) (n : Bytes)
        → (o ≡ pushes j) ⊎ (o ≡ notifies j)
        → All (λ j. name j ≡ n) (waits o n)
    unfolding waits
    named_waits o n (inl e) = rw e (elim (Bool-cases (name j == n)) [
      | inl t ↦ rw t (named-snoc n j (xs n) ((bytes_eq_iff (name j) n).0 t) (v.named n))
      | inr f ↦ rw f (v.named n)
    ])
    named_waits o n (inr e) = rw e (elim (Bool-cases (name j == n)) [
      | inl t ↦ rw t (named-tail n (xs n) (v.named n))
      | inr f ↦ rw f (v.named n)
    ])

    pushes_unnamed :
        (out : List J)
        → name j ≡ []
        → let s = step name (q, out) (pushes j) in
          Holds s.0 (waits (pushes j))
          × ((n : Bytes)
              → n ≢ []
              → only name n s.1 ≡ only name n out ++ sent_step n (xs n) (pushes j))
    unfolding step after_push waits
    pushes_unnamed out e = rw (push_unnamed e) (
      record {
        is_open = v.is_open;
        unnamed = v.unnamed;
        entries = λ n h. ground (arith, bytes_eq_iff (name j) n, v.entries n h);
        named = λ n. named_waits (pushes j) n (inl refl);
      },
      λ n h. ground (arith, bytes_eq_iff (name j) n, only-append n out (j ∷ [])),
    )

    pushes_named :
        (out : List J)
        → name j ≢ []
        → let s = step name (q, out) (pushes j) in
          Holds s.0 (waits (pushes j))
          × ((n : Bytes)
              → n ≢ []
              → only name n s.1 ≡ only name n out ++ sent_step n (xs n) (pushes j))
    unfolding step after_push waits
    pushes_named out ne =
        let ys = xs (name j) ++ j ∷ [] in
        rw (push_named ne) (
          record {
            is_open = v.is_open;
            unnamed =
                ground (
                  arith,
                  lookup-insert (name j) [] ys q.queues,
                  bytes_eq_iff (name j) [],
                  v.unnamed,
                );
            entries = λ n h. ground (
              arith,
              lookup-insert (name j) n ys q.queues,
              bytes_eq_iff (name j) n,
              v.entries n h,
              entry-snoc (xs n) j,
            );
            named = λ n. named_waits (pushes j) n (inl refl);
          },
          λ n h.
              rw (only-append n out (first_only j (xs (name j))))
                (ground (arith, bytes_eq_iff (name j) n, only-first_only n (xs (name j)))),
        )

    notifies_unnamed :
        (out : List J)
        → name j ≡ []
        → let s = step name (q, out) (notifies j) in
          Holds s.0 (waits (notifies j))
          × ((n : Bytes)
              → n ≢ []
              → only name n s.1 ≡ only name n out ++ sent_step n (xs n) (notifies j))
    unfolding step waits
    notifies_unnamed out e = rw (notify_unnamed e) (
      record {
        is_open = v.is_open;
        unnamed = v.unnamed;
        entries = λ n h. ground (arith, bytes_eq_iff (name j) n, v.entries n h);
        named = λ n. named_waits (notifies j) n (inr refl);
      },
      λ n h.
          rw (append-nil out)
            (ground (arith, bytes_eq_iff (name j) n, append-nil (only name n out))),
    )

    -- The three shapes of the list in front of which a job has ended.
    notifies_named :
        (out ys : List J)
        → name j ≢ []
        → xs (name j) ≡ ys
        → let s = step name (q, out) (notifies j) in
          Holds s.0 (waits (notifies j))
          × ((n : Bytes)
              → n ≢ []
              → only name n s.1 ≡ only name n out ++ sent_step n (xs n) (notifies j))
    unfolding step waits drop_front after_front
    notifies_named out [] ne e =
        rw (notify_named ne, e)
          (
            record {
              is_open = v.is_open;
              unnamed = v.unnamed;
              entries = λ n h. ground (arith, bytes_eq_iff (name j) n, v.entries n h);
              named = λ n. named_waits (notifies j) n (inr refl);
            },
            λ n h.
                rw (append-nil out)
                  (ground (arith, bytes_eq_iff (name j) n, append-nil (only name n out))),
          )
    notifies_named out (y ∷ []) ne e =
        rw (notify_named ne, e)
          (
            record {
              is_open = v.is_open;
              unnamed = ground (arith, lookup-remove (name j) [] q.queues, v.unnamed);
              entries = λ n h. ground (
                arith,
                lookup-remove (name j) n q.queues,
                bytes_eq_iff (name j) n,
                v.entries n h,
              );
              named = λ n. named_waits (notifies j) n (inr refl);
            },
            λ n h.
                rw (append-nil out)
                  (ground (arith, bytes_eq_iff (name j) n, append-nil (only name n out))),
          )
    notifies_named out (y ∷ z ∷ zs) ne e =
        let same : name z ≡ name j =
          (subst (All (λ i. name i ≡ name j)) e (v.named (name j))).1.0 in
        rw (notify_named ne, e)
          (
            record {
              is_open = v.is_open;
              unnamed = ground (
                arith,
                lookup-insert (name j) [] (z ∷ zs) q.queues,
                bytes_eq_iff (name j) [],
                v.unnamed,
              );
              entries = λ n h. ground (
                arith,
                lookup-insert (name j) n (z ∷ zs) q.queues,
                bytes_eq_iff (name j) n,
                v.entries n h,
              );
              named = λ n. named_waits (notifies j) n (inr refl);
            },
            λ n h.
                rw (only-append n out (z ∷ []))
                  (ground (arith, bytes_eq_iff (name j) n, bytes_eq_iff (name z) n)),
          )

  pub step-Holds :
      (q : Queue J) (xs : Bytes → List J) (out : List J) (o : Op J)
      → Holds q xs
      → let s = step name (q, out) o in
        Holds s.0 (λ n. waiting_step name n (xs n) o)
        × ((n : Bytes) → n ≢ [] → only name n s.1 ≡ only name n out ++ sent_step n (xs n) o)
  step-Holds q xs out (pushes j) v = elim (Bool-cases (name j == [])) [
    | inl t ↦ unfold waits in pushes_unnamed q xs j v out ((bytes_eq_iff (name j) []).0 t)
    | inr f ↦
        unfold waits in pushes_named q xs j v out (λ e. ground (arith, bytes_eq_iff (name j) []))
  ]
  step-Holds q xs out (notifies j) v = elim (Bool-cases (name j == [])) [
    | inl t ↦ unfold waits in notifies_unnamed q xs j v out ((bytes_eq_iff (name j) []).0 t)
    | inr f ↦
        unfold waits in
        notifies_named q xs j v out (xs (name j)) (λ e. ground (arith, bytes_eq_iff (name j) []))
          refl
  ]
