-- ===== src/Examples/Logs.antt =====
-- Records of the logger, on a store of lists.
use debug_bootstrap.Prelude.{
  ℕ, zero, suc, ◌<◌, ◌≡◌, refl, ap, ◌∙◌, subst, true, none, some, Option, length, Bool-cases, inl,
  inr, bytes_eq_iff, List, [], ◌∷◌, ◌++◌, Bytes, codes, last_n, if◌then◌else◌, ◌==◌, bytes_equal,
  arith,
}
use mathlib.Core.Option.{some-injective}
use debug_bootstrap.Prelude.Int.{ℤ, pos, negsuc}
use debug_bootstrap.Stream.Meta.{new_meta, add_flags, is, stream_flag}
use debug_bootstrap.Logger.{LogRecord, Database, stream_log, new_trunk_logger, subscribe, trunk_log}
use debug_bootstrap.Logger.Lists.{IsStore}
use debug_bootstrap.Logger.Streams.{
  Moment, passes, says, aged, IsTimed, stream_over, since, stream_log-newest,
}
use debug_bootstrap.Logger.Subscribers.{trunk_lines, loggable, subscribe-newest}

-- A store is what each key lists, and the time that it has left.
record Store : Type 0 where
  list : Bytes → List Bytes
  left : Bytes → Option ℕ

abbrev put : Bytes → List Bytes → Store → Store
put q xs d = record d { list = λ j. if q == j then xs else d.list j }

abbrev keep : ℤ → List Bytes → List Bytes
keep (pos n) xs = xs
keep (negsuc n) xs = last_n (suc n) xs

abbrev empty : Store
empty = record { list = λ j. []; left = λ j. none }

-- EXPIRE of a key that is there, and of one that is not
abbrev expired : ℕ → List Bytes → Option ℕ × List Bytes
expired zero xs = (none, [])
expired (suc t) [] = (none, [])
expired (suc t) (x ∷ xs) = (some (suc t), x ∷ xs)

abbrev lists : Database Store
lists = record {
  rpush = λ q b d. some (put q (d.list q ++ b ∷ []) d);
  ltrim = λ q start stop d. some (put q (keep start (d.list q)) d);
  lexpire = λ q t d. record {
    list = λ j. if q == j then (expired t (d.list q)).1 else d.list j;
    left = λ j. if q == j then (expired t (d.list q)).0 else d.left j;
  };
}

abbrev list_at : Bytes → Store → List Bytes
list_at j d = d.list j

abbrev left_at : Bytes → Store → Option ℕ
left_at j d = d.left j

abbrev let_pass : ℕ → Store → Store
let_pass s d = record {
  list = λ j. (aged s (d.left j) (d.list j)).1;
  left = λ j. (aged s (d.left j) (d.list j)).0;
}

lists-IsStore : IsStore lists list_at
lists-IsStore = record {
  push = λ q b d. (put q (d.list q ++ b ∷ []) d, refl, λ j. refl);
  trim = λ q n d. (put q (last_n (suc n) (d.list q)) d, refl, λ j. refl);
}

expired-list_at : (t : ℕ) (xs : List Bytes) → 0 < t → (expired t xs).1 ≡ xs
expired-list_at zero xs p = absurd (omega arith)
expired-list_at (suc t) [] p = refl
expired-list_at (suc t) (x ∷ xs) p = refl

expired-left_at : (t : ℕ) (xs : List Bytes) → 0 < t → 0 < length xs → (expired t xs).0 ≡ some t
expired-left_at zero xs p few = absurd (omega arith)
expired-left_at (suc t) [] p few = absurd (omega arith)
expired-left_at (suc t) (x ∷ xs) p few = refl

lists-IsTimed : IsTimed lists list_at left_at let_pass
lists-IsTimed = record {
  store = lists-IsStore;
  push_left = λ q b d d' e j. subst (λ x. left_at j x ≡ left_at j d) (some-injective _ _ e) refl;
  trim_left = λ q n d d' e j. subst (λ x. left_at j x ≡ left_at j d) (some-injective _ _ e) refl;
  expire_list = λ q t d p j. elim (Bool-cases (q == j)) [
    | inl e ↦
        rw (list_at, e)
          (expired-list_at t (d.list q) p ∙ ap (λ k. d.list k) ((bytes_eq_iff q j).0 e))
    | inr e ↦ rw (list_at, e) refl
  ];
  expire_left = λ q t d p few j. elim (Bool-cases (q == j)) [
    | inl e ↦ rw (left_at, e) (expired-left_at t (d.list q) p few)
    | inr e ↦ rw (left_at, e) refl
  ];
  passes_left = λ s d j. refl;
  passes_list = λ s d j. refl;
}

abbrev said : ℕ → Bytes → LogRecord
said level text = record {
  core = 0;
  command = codes "job";
  message = record { message = text; epoch = 0; meta = new_meta level (stream_flag ∷ []) };
}

abbrev marshal : LogRecord → Option Bytes
marshal r = some r.message.message

abbrev records : List LogRecord
records = said 1 (codes "a") ∷ said 2 (codes "b") ∷ said 1 (codes "c") ∷ []

-- The list is gone between the second record and the third.
abbrev moments : List Moment
moments =
    says (said 1 (codes "a"))
    ∷ passes 59
    ∷ says (said 2 (codes "b"))
    ∷ passes 60
    ∷ says (said 1 (codes "c"))
    ∷ passes 59
    ∷ []

stream_log-newest_example :
    list_at (codes "stream:job") (stream_over lists let_pass marshal 2 moments empty)
    ≡ last_n 2 (since marshal (codes "stream:job") none [] moments)
stream_log-newest_example =
    stream_log-newest lists list_at left_at let_pass lists-IsTimed marshal 2 moments empty
      (codes "stream:job") (omega arith) (omega arith)

stream_over-gone :
    list_at (codes "stream:job") (stream_over lists let_pass marshal 2 moments empty)
    ≡ codes "c" ∷ []
unfolding stream_over stream_log is new_meta add_flags
stream_over-gone = refl

subscribe-newest_example :
    let l = new_trunk_logger [] 2 in
    let subscribed = subscribe lists marshal (codes "q") (1 ∷ []) l empty in
    (subscribed.2 ≡ true)
    × (list_at (codes "q") (trunk_log lists marshal records subscribed.0 subscribed.1).1
        ≡ last_n 2 (
            trunk_lines marshal (1 ∷ []) l.buffer.list
            ++ trunk_lines marshal (1 ∷ []) (loggable l.defaults records)))
unfolding new_trunk_logger
subscribe-newest_example =
    subscribe-newest lists marshal list_at lists-IsStore (codes "q") (1 ∷ [])
      (new_trunk_logger [] 2) empty records tt refl (omega arith) refl
