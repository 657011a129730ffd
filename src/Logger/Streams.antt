-- ===== src/Logger/Streams.antt =====
-- apps/plugins/logger/plugin/streamer.go: the lists of the streams. A list is gone when no record
-- came to it for the seconds that the logger sets.
use debug_bootstrap.Prelude.{
  ℕ, zero, suc, ◌-◌, ◌≤◌, ◌<◌, ltb, true, Option, none, some, List, [], ◌∷◌, ◌++◌, Bytes, codes,
  ◌≡◌, refl, sym, ap, ◌∙◌, subst, length, last_n, last_n-append, length-append, length-drop,
  bytes_equal, beq_refl, bytes_eq_iff, ◌==◌, arith, if◌then◌else◌, Bool-cases, Option-cases, inl,
  inr,
}
use debug_bootstrap.Prelude.Int.{negsuc}
use debug_bootstrap.Stream.Meta.{is, stream_flag}
use debug_bootstrap.Logger.{
  LogRecord, Database, negative, push_trimmed, stream_queue, stream_bytes, stream_log,
}
use debug_bootstrap.Logger.Lists.{IsStore, trim-negative, push_trimmed-list, last_n_short}

-- What seconds make of the time that a list has left, `none` for ever, and of its entries
abbrev pub aged : ℕ → Option ℕ → List Bytes → Option ℕ × List Bytes
aged s none xs = (none, xs)
aged s (some t) xs = if ltb s t then (some (t - s), xs) else (none, [])

-- Redis on lists that expire. `left` is what TTL says, in seconds: RPUSH, and LTRIM that keeps an
-- entry, leave it as it is; EXPIRE with a positive time sets it for a list that is there, and takes
-- no entry at once. A list is gone when its time is over. `wait` lets seconds pass.
pub record IsTimed {D : Type 0} (db : Database D) (list : Bytes → D → List Bytes)
    (left : Bytes → D → Option ℕ) (wait : ℕ → D → D) : Type 0 where
  pub store : IsStore db list
  pub push_left :
      (q b : Bytes) (d d' : D) → db.rpush q b d ≡ some d' → (j : Bytes) → left j d' ≡ left j d
  pub trim_left :
      (q : Bytes) (n : ℕ) (d d' : D)
      → db.ltrim q (negsuc n) (negsuc 0) d ≡ some d'
      → (j : Bytes) → left j d' ≡ left j d
  pub expire_list :
      (q : Bytes) (t : ℕ) (d : D) → 0 < t → (j : Bytes) → list j (db.lexpire q t d) ≡ list j d
  pub expire_left :
      (q : Bytes) (t : ℕ) (d : D)
      → 0 < t
      → 0 < length (list q d)
      → (j : Bytes) → left j (db.lexpire q t d) ≡ (if q == j then some t else left j d)
  pub passes_left :
      (s : ℕ) (d : D) (j : Bytes) → left j (wait s d) ≡ (aged s (left j d) (list j d)).0
  pub passes_list :
      (s : ℕ) (d : D) (j : Bytes) → list j (wait s d) ≡ (aged s (left j d) (list j d)).1

-- What happens to the logger: seconds pass, or it is given a record.
pub data Moment : Type 0 where
  passes : ℕ → Moment
  says : LogRecord → Moment

-- The database after such moments, if nothing else touches it
unfoldable pub stream_over :
    {D : Type 0} → Database D → (ℕ → D → D) → (LogRecord → Option Bytes) → ℕ → List Moment → D → D
stream_over db wait marshal n [] d = d
stream_over db wait marshal n (passes s ∷ ms) d = stream_over db wait marshal n ms (wait s d)
stream_over db wait marshal n (says r ∷ ms) d =
    stream_over db wait marshal n ms (stream_log db marshal n (r ∷ []) d)

-- What a record adds to a list: its JSON, if it has the flag of a stream, and the list is that of
-- its command.
pub line_of : (LogRecord → Option Bytes) → Bytes → LogRecord → Option Bytes
line_of marshal j r =
    if is r.message.meta stream_flag
    then (if codes "stream:" ++ r.command == j then marshal r else none)
    else none

-- The entries that came to a list since it was last gone, if each gives it sixty seconds
pub since : (LogRecord → Option Bytes) → Bytes → Option ℕ → List Bytes → List Moment → List Bytes
unfolding line_of
since marshal j left held [] = held
since marshal j left held (passes s ∷ ms) =
    let (left', held') = aged s left held in since marshal j left' held' ms
since marshal j left held (says r ∷ ms) = elim (line_of marshal j r) [
  | none ↦ since marshal j left held ms
  | some b ↦ since marshal j (some 60) (held ++ b ∷ []) ms
]

aged-last_n :
    (n s : ℕ) (left : Option ℕ) (xs : List Bytes)
    → aged s left (last_n n xs) ≡ ((aged s left xs).0, last_n n (aged s left xs).1)
aged-last_n n s none xs = refl
aged-last_n n s (some t) xs = elim (Bool-cases (ltb s t)) [
  | inl e ↦ rw e refl
  | inr e ↦ rw e (ap (λ ys. (none, ys)) (sym (last_n_short n [] (omega arith))))
]

length-last_n_pos :
    (n : ℕ) (xs : List Bytes) (b : Bytes) → 0 < n → 0 < length (last_n n (xs ++ b ∷ []))
length-last_n_pos n xs b p =
    omega (arith, length-drop (length (xs ++ b ∷ []) - n) (xs ++ b ∷ []), length-append xs (b ∷ []))

module _ {D : Type 0} (db : Database D) (list : Bytes → D → List Bytes)
    (left : Bytes → D → Option ℕ) (wait : ℕ → D → D) (timed : IsTimed db list left wait) where
  trim_left-negative :
      (q : Bytes) (n : ℕ) (d d' : D)
      → 0 < n
      → db.ltrim q (negative n) (negsuc 0) d ≡ some d'
      → (j : Bytes) → left j d' ≡ left j d
  unfolding negative
  trim_left-negative q zero d d' p h = absurd (omega arith)
  trim_left-negative q (suc n) d d' p h = timed.trim_left q n d d' h

  push_trimmed-left :
      (n : ℕ) (q b : Bytes) (d d' : D)
      → 0 < n
      → push_trimmed db n q b d ≡ (d', true)
      → (j : Bytes) → left j d' ≡ left j d
  unfolding push_trimmed
  push_trimmed-left n q b d d' p h j =
      let (pushed, pushes, _) = timed.store.push q b d in
      let (trimmed, trims, _) = trim-negative db list timed.store q n pushed p in
      let made : push_trimmed db n q b d ≡ (trimmed, true) =
        rw (push_trimmed, pushes, trims) refl in
      let same : trimmed ≡ d' = ap (λ r. r.0) (sym made ∙ h) in
      subst (λ x. left j x ≡ left j d) same
        (trim_left-negative q n pushed trimmed p trims j ∙ timed.push_left q b d pushed pushes j)

  -- One turn of the pusher: the list of the record has its entry behind the others, and a minute.
  stream_bytes-timed :
      (n : ℕ) (q b : Bytes) (d : D) (j : Bytes)
      → 0 < n
      → (left j (stream_bytes db n q (some b) d) ≡ (if q == j then some 60 else left j d))
        × (list j (stream_bytes db n q (some b) d)
            ≡ (if q == j then last_n n (list q d ++ b ∷ []) else list j d))
  unfolding stream_bytes
  stream_bytes-timed n q b d j p =
      let (d', pushes, after) = push_trimmed-list db list timed.store n q b d p in
      let here : list q d' ≡ last_n n (list q d ++ b ∷ []) = after q ∙ rw (beq_refl q) refl in
      let some_left : 0 < length (list q d') = rw here (length-last_n_pos n (list q d) b p) in
      (
        rw (stream_bytes, pushes)
            (timed.expire_left q 60 d' (omega arith) some_left j
              ∙ rw (push_trimmed-left n q b d d' p pushes j) refl),
        rw (stream_bytes, pushes) (timed.expire_list q 60 d' (omega arith) j ∙ after j),
      )

  -- A list has some time left, and the newest of some entries.
  abbrev Holds : ℕ → Bytes → Option ℕ → List Bytes → D → Type 0
  Holds n j l xs d = (left j d ≡ l) × (list j d ≡ last_n n xs)

  wait-Holds :
      (n s : ℕ) (j : Bytes) (l : Option ℕ) (xs : List Bytes) (d : D)
      → Holds n j l xs d
      → Holds n j (aged s l xs).0 (aged s l xs).1 (wait s d)
  wait-Holds n s j l xs d (e, f) =
      let same : aged s (left j d) (list j d) ≡ ((aged s l xs).0, last_n n (aged s l xs).1) =
        rw (e, f) (aged-last_n n s l xs) in
      (timed.passes_left s d j ∙ ap (λ r. r.0) same, timed.passes_list s d j ∙ ap (λ r. r.1) same)

  -- What one record makes of a list
  abbrev joined : Option Bytes → Option ℕ → List Bytes → Option ℕ × List Bytes
  joined none l xs = (l, xs)
  joined (some b) l xs = (some 60, xs ++ b ∷ [])

  stream_log-Holds :
      (marshal : LogRecord → Option Bytes) (n : ℕ) (r : LogRecord) (j : Bytes) (l : Option ℕ)
      (xs : List Bytes) (d : D)
      → 0 < n
      → Holds n j l xs d
      → Holds n j
          (joined (line_of marshal j r) l xs).0
          (joined (line_of marshal j r) l xs).1
          (stream_log db marshal n (r ∷ []) d)
  unfolding stream_log line_of stream_queue
  stream_log-Holds marshal n r j l xs d p (e, f) =
      elim (Bool-cases (is r.message.meta stream_flag)) [
        | inr o ↦ rw (stream_log, line_of, o) (e, f)
        | inl t ↦ elim (Option-cases (marshal r)) [
          | inl m ↦ elim (Bool-cases (stream_queue r.command == j)) [
            | inl x ↦ rw (stream_log, line_of, t, m, x) (e, f)
            | inr x ↦ rw (stream_log, line_of, t, m, x) (e, f)
          ]
          | inr (b, m) ↦
              let q = stream_queue r.command in
              let (time, entries) = stream_bytes-timed n q b d j p in
              elim (Bool-cases (q == j)) [
                | inl x ↦
                    let same : q ≡ j = (bytes_eq_iff q j).0 x in
                    let newest : last_n n (list q d ++ b ∷ []) ≡ last_n n (xs ++ b ∷ []) =
                      ap (λ k. last_n n (list k d ++ b ∷ [])) same
                      ∙ ap (λ ys. last_n n (ys ++ b ∷ [])) f
                      ∙ last_n-append n xs (b ∷ []) in
                    rw (stream_log, line_of, t, m, x) (time ∙ rw x refl, entries ∙ rw x newest)
                | inr x ↦ rw (stream_log, line_of, t, m, x) (time ∙ rw x e, entries ∙ rw x f)
              ]
        ]
      ]

  stream_over-Holds :
      (marshal : LogRecord → Option Bytes) (n : ℕ) (ms : List Moment) (j : Bytes) (l : Option ℕ)
      (xs : List Bytes) (d : D)
      → 0 < n
      → Holds n j l xs d
      → list j (stream_over db wait marshal n ms d) ≡ last_n n (since marshal j l xs ms)
  unfolding stream_over since
  stream_over-Holds marshal n [] j l xs d p (e, f) = f
  stream_over-Holds marshal n (passes s ∷ ms) j l xs d p h =
      stream_over-Holds marshal n ms j (aged s l xs).0 (aged s l xs).1 (wait s d) p
        (wait-Holds n s j l xs d h)
  stream_over-Holds marshal n (says r ∷ ms) j l xs d p h =
      let d' = stream_log db marshal n (r ∷ []) d in
      let next = stream_log-Holds marshal n r j l xs d p h in
      elim (Option-cases (line_of marshal j r)) [
        | inl m ↦ rw (since, m) (stream_over-Holds marshal n ms j l xs d' p (rw m at next))
        | inr (b, m) ↦
            rw (since, m)
              (stream_over-Holds marshal n ms j (some 60) (xs ++ b ∷ []) d' p (rw m at next))
      ]

  -- On a store whose calls succeed, where a list holds at most a positive number of entries, the
  -- logger of streams keeps this number, and nothing else touches the store: after any records with
  -- any seconds between them and behind them, the list holds the newest entries, up to this number,
  -- of those that came to it since it was last gone. Those are the ones it held, and the JSON of the
  -- records with the flag of a stream for which the list is named stream: and then their command, in
  -- their order, without those that have no JSON; and the list is gone whenever sixty seconds pass
  -- after such an entry without another, and first when the time is over that it had left.
  pub stream_log-newest :
      (marshal : LogRecord → Option Bytes) (n : ℕ) (ms : List Moment) (d : D) (j : Bytes)
      → 0 < n
      → length (list j d) ≤ n
      → list j (stream_over db wait marshal n ms d)
        ≡ last_n n (since marshal j (left j d) (list j d) ms)
  stream_log-newest marshal n ms d j p few =
      stream_over-Holds marshal n ms j (left j d) (list j d) d p
        (refl, sym (last_n_short n (list j d) few))
