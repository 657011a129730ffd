-- ===== src/Logger/Lists.antt =====
-- apps/plugins/logger/plugin: what the lists of the database hold.
use debug_bootstrap.Prelude.{
  ℕ, zero, suc, ◌-◌, ◌≤◌, ◌<◌, Bool, true, Option, none, some, List, [], ◌∷◌, ◌++◌, Bytes, ◌≡◌,
  refl, ap, ◌∙◌, length, last_n, last_n-append, append_assoc, length-drop, bytes_equal, beq_refl,
  ◌==◌, arith, if◌then◌else◌, Bool-cases, inl, inr,
}
use debug_bootstrap.Prelude.Int.{negsuc}
use debug_bootstrap.Logger.{Database, negative, push_trimmed}

-- Redis on lists: RPUSH adds an entry at the end of the list of its key, LTRIM with -n and -1 keeps
-- the last n entries; no call touches another list. Both calls succeed.
pub record IsStore {D : Type 0} (db : Database D) (list : Bytes → D → List Bytes) : Type 0 where
  pub push :
      (q b : Bytes) (d : D)
      → (d' : D) × (db.rpush q b d ≡ some d')
        × ((j : Bytes) → list j d' ≡ (if q == j then list q d ++ b ∷ [] else list j d))
  pub trim :
      (q : Bytes) (n : ℕ) (d : D)
      → (d' : D) × (db.ltrim q (negsuc n) (negsuc 0) d ≡ some d')
        × ((j : Bytes) → list j d' ≡ (if q == j then last_n (suc n) (list q d) else list j d))

pub trim-negative :
    {D : Type 0} (db : Database D) (list : Bytes → D → List Bytes)
    → IsStore db list
    → (q : Bytes) (n : ℕ) (d : D) → 0 < n
    → (d' : D) × (db.ltrim q (negative n) (negsuc 0) d ≡ some d')
      × ((j : Bytes) → list j d' ≡ (if q == j then last_n n (list q d) else list j d))
unfolding negative
trim-negative db list store q zero d h = absurd (omega arith)
trim-negative db list store q (suc n) d h = store.trim q n d

pub last_n_short : {A : Type 0} (n : ℕ) (xs : List A) → length xs ≤ n → last_n n xs ≡ xs
last_n_short n xs h = let none_over : length xs - n ≡ 0 = omega arith in rw none_over refl

pub length-last_n : {A : Type 0} (n : ℕ) (xs : List A) → length (last_n n xs) ≤ n
length-last_n n xs = omega (arith, length-drop (length xs - n) xs)

-- One more entry, and then others
pub last_n-cons :
    {A : Type 0} (n : ℕ) (xs : List A) (b : A) (ys : List A)
    → last_n n (last_n n (xs ++ b ∷ []) ++ ys) ≡ last_n n (xs ++ b ∷ ys)
last_n-cons n xs b ys =
    last_n-append n (xs ++ b ∷ []) ys ∙ ap (last_n n) (append_assoc xs (b ∷ []) ys)

-- A record whose JSON fails is left out.
abbrev pub add_some : Option Bytes → List Bytes → List Bytes
add_some none lines = lines
add_some (some bytes) lines = bytes ∷ lines

module _ {D : Type 0} (db : Database D) (list : Bytes → D → List Bytes)
    (store : IsStore db list) where
  pub push_trimmed-list :
      (n : ℕ) (q b : Bytes) (d : D)
      → 0 < n
      → (d' : D) × (push_trimmed db n q b d ≡ (d', true))
        × ((j : Bytes) → list j d' ≡ (if q == j then last_n n (list q d ++ b ∷ []) else list j d))
  unfolding push_trimmed
  push_trimmed-list n q b d p =
      let (pushed, pushes, after) = store.push q b d in
      let (d', trims, kept) = trim-negative db list store q n pushed p in
      let same : list q pushed ≡ list q d ++ b ∷ [] = rw (after q, beq_refl q) refl in
      (
        d',
        rw (push_trimmed, pushes, trims) refl,
        λ j. elim (Bool-cases (q == j)) [
          | inl e ↦ rw (kept j, e) (ap (last_n n) same)
          | inr e ↦ rw (kept j, after j, e) refl
        ],
      )

-- A list grows by one entry, or stays: what the kept entries are, and with any that come behind.
unfoldable pub Adds :
    {D : Type 0} → (Bytes → D → List Bytes) → ℕ → Bytes → Bool → Option Bytes → D → D → Type 0
Adds list n j goes o d d' =
    (length (list j d') ≤ n)
    × ((rest : List Bytes)
        → last_n n (list j d' ++ rest)
          ≡ last_n n (list j d ++ (if goes then add_some o rest else rest)))

pub Adds-none :
    {D : Type 0} (list : Bytes → D → List Bytes) (n : ℕ) (j : Bytes) (goes : Bool) (d : D)
    → length (list j d) ≤ n
    → Adds list n j goes none d d
unfolding Adds
Adds-none list n j goes d l = (l, λ rest. ground arith)
