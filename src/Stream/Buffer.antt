-- ===== src/Stream/Buffer.antt =====
-- base/stream/buffer.go: a list that keeps the newest entries only.
use native.Mathlib.Nat.{zero-add}
use debug_bootstrap.Prelude.{
  ℕ, suc, ◌-◌, ◌+◌, ◌≤◌, ◌≡◌, List, [], ◌∷◌, ◌++◌, length, drop, ltb, if◌then◌else◌, arith, Bytes,
  append-nil, append_assoc, length-append, ◌∙◌, ap, sym, length-drop, drop-append_le, drop-drop,
}

-- `list.List` is the sequence of its values, the front first.
pub record Buffer {ℓ} (A : Type ℓ) : Type ℓ where
  pub list : List A
  pub size : ℕ

module _ {ℓ} {A : Type ℓ} where
  unfoldable pub new_buffer : ℕ → Buffer A
  new_buffer size = record { list = []; size = size }

  unfoldable pub append : Buffer A → A → Buffer A
  append b o =
      let list = b.list ++ o ∷ [] in
      if ltb b.size (length list) then record b { list = drop 1 list } else record b { list = list }

  -- Append in order.
  unfoldable pub append_all : Buffer A → List A → Buffer A
  append_all b [] = b
  append_all b (x ∷ xs) = append_all (append b x) xs

  append_lem :
      (b : Buffer A) (x : A)
      → length b.list ≤ b.size
      → append b x ≡ record b { list = drop (length b.list + 1 - b.size) (b.list ++ x ∷ []) }
  unfolding append
  append_lem b x h = ground (arith, length-append b.list (x ∷ []))

  append_all-newest_from :
      (b : Buffer A) (xs : List A)
      → length b.list ≤ b.size
      → (append_all b xs).list ≡ drop (length b.list + length xs - b.size) (b.list ++ xs)
  unfolding append_all
  append_all-newest_from b [] h =
      let none_over : length b.list + 0 - b.size ≡ 0 = omega arith in
      rw (none_over, append-nil b.list)
  append_all-newest_from b (x ∷ xs) h =
      let k = length b.list + 1 - b.size in
      let kept = drop k (b.list ++ x ∷ []) in
      let size-kept : length kept ≡ length b.list + 1 - k =
        omega (arith, length-drop k (b.list ++ x ∷ []), length-append b.list (x ∷ [])) in
      let joined : kept ++ xs ≡ drop k (b.list ++ x ∷ xs) =
        sym (drop-append_le k (b.list ++ x ∷ []) xs (omega (arith, length-append b.list (x ∷ []))))
        ∙ ap (drop k) (append_assoc b.list (x ∷ []) xs) in
      let total : length kept + length xs - b.size + k ≡ length b.list + suc (length xs) - b.size =
        omega (arith, size-kept) in
      ap (λ c. (append_all c xs).list) (append_lem b x h)
      ∙ append_all-newest_from (record b { list = kept }) xs (omega (arith, size-kept))
      ∙ ap (drop (length kept + length xs - b.size)) joined
      ∙ drop-drop (length kept + length xs - b.size) k (b.list ++ x ∷ xs)
      ∙ ap (λ n. drop n (b.list ++ x ∷ xs)) total

  -- A new buffer of a given size holds, after any appends, the newest entries up to that size, in
  -- the order of their arrival.
  pub append_all-newest :
      (n : ℕ) (xs : List A) → (append_all (new_buffer n) xs).list ≡ drop (length xs - n) xs
  unfolding new_buffer
  append_all-newest n xs =
      rw zero-add at (append_all-newest_from (record { list = []; size = n }) xs (omega arith))

-- String() of a buffer that holds texts
unfoldable pub to_string : List Bytes → Bytes
to_string [] = []
to_string (v ∷ rest) = v ++ to_string rest
