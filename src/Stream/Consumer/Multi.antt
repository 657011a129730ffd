-- ===== src/Stream/Consumer/Multi.antt =====
-- base/stream/input.go: messages of several lines, over the reads that they are cut into.
use debug_bootstrap.Prelude.{
  ℕ, ◌+◌, ◌-◌, ◌*◌, min, true, false, ◌&&◌, none, some, List, [], ◌∷◌, ◌++◌, Bytes, map, ◌≡◌, refl,
  sym, ap, ◌∙◌, subst, All, is_digit, has_prefix, append_assoc, append-nil, arith, inl, inr,
  Bool-cases, Option-cases,
}
use debug_bootstrap.Stream.Consumer.Pattern.{colons, digits, find_header}
use debug_bootstrap.Stream.Consumer.Lines.{number}
use debug_bootstrap.Stream.Consumer.{
  Consumer, say, cut_at, multi_line_term, multi_line_head, ends_in_newline, end_of_multi,
  multi_line, flush, turn, emit, scan, process_rest, process, Read, bytes, consume,
}

cut_at-cons_none :
    (sep : Bytes) (c : ℕ) (s : Bytes)
    → cut_at sep (c ∷ s) ≡ none
    → (has_prefix (c ∷ s) sep ≡ false) × (cut_at sep s ≡ none)
unfolding cut_at
cut_at-cons_none sep c s h = elim (Bool-cases (has_prefix (c ∷ s) sep)) [
  | inl p ↦ absurd (ground (arith, p, h))
  | inr p ↦ elim (Option-cases (cut_at sep s)) [
    | inl q ↦ (p, q)
    | inr (ab, q) ↦ absurd (ground (arith, p, q, h))
  ]
]

cut_at-append_none : (sep a s : Bytes) → cut_at sep (a ++ s) ≡ none → cut_at sep s ≡ none
cut_at-append_none sep [] s h = h
cut_at-append_none sep (c ∷ a) s h =
    cut_at-append_none sep a s (cut_at-cons_none sep c (a ++ s) h).1

has_prefix-append : (a s sep : Bytes) → has_prefix (a ++ s) sep ≡ false → has_prefix a sep ≡ false
unfolding has_prefix
has_prefix-append [] s [] h = h
has_prefix-append (c ∷ a) s [] h = h
has_prefix-append [] s (d ∷ sep) h = refl
has_prefix-append (c ∷ a) s (d ∷ sep) h = ground (arith, has_prefix-append a s sep)

cut_at-none_append : (sep a s : Bytes) → cut_at sep (a ++ s) ≡ none → cut_at sep a ≡ none
unfolding cut_at
cut_at-none_append sep [] s h = refl
cut_at-none_append sep (c ∷ a) s h =
    let rest = cut_at-cons_none sep c (a ++ s) h in
    rw (cut_at, has_prefix-append (c ∷ a) s sep rest.0, cut_at-none_append sep a s rest.1) refl

cut_at-ends_in_newline :
    (sep body s : Bytes)
    → ends_in_newline body ≡ true
    → cut_at sep (body ++ s) ≡ none
    → cut_at sep (b'\n' ∷ s) ≡ none
unfolding ends_in_newline
cut_at-ends_in_newline sep [] s e h = ground arith
cut_at-ends_in_newline sep (c ∷ []) s e h = subst (λ c. cut_at sep (c ∷ s) ≡ none) (ground arith) h
cut_at-ends_in_newline sep (c ∷ d ∷ body) s e h =
    cut_at-ends_in_newline sep (d ∷ body) s e (cut_at-cons_none sep c (d ∷ body ++ s) h).1

no_head :
    (body s : Bytes)
    → cut_at multi_line_term (body ++ s) ≡ none
    → (ends_in_newline body && has_prefix s multi_line_head) ≡ false
unfolding has_prefix
no_head body s h = elim (Bool-cases (ends_in_newline body)) [
  | inl e ↦
      let shut : has_prefix s multi_line_head ≡ false =
        (cut_at-cons_none multi_line_term b'\n' s
          (cut_at-ends_in_newline multi_line_term body s e h)).0 in
      ground (arith, shut)
  | inr e ↦ ground (arith, e)
]

-- No end is seen in a message that does not hold it.
end_of_multi-none :
    (body s : Bytes) → cut_at multi_line_term (body ++ s) ≡ none → end_of_multi body s ≡ none
unfolding end_of_multi
end_of_multi-none body s h =
    rw (end_of_multi, no_head body s h, cut_at-append_none multi_line_term body s h) refl

abbrev pub reading : ℕ → ℕ → Bytes → Consumer
reading level multi_level body = record {
  level = level;
  multi = some body;
  multi_level = multi_level;
}

abbrev pub between : ℕ → ℕ → Consumer
between level multi_level = record { level = level; multi = none; multi_level = multi_level }

abbrev pub concat : List Bytes → Bytes
concat [] = []
concat (b ∷ bs) = b ++ concat bs

process-middle :
    (level multi_level : ℕ) (body b : Bytes)
    → cut_at multi_line_term (body ++ b) ≡ none
    → process (reading level multi_level body) b ≡ ([], reading level multi_level (body ++ b))
unfolding process
process-middle level multi_level body b h = rw (process, end_of_multi-none body b h) refl

consume-middle :
    (level multi_level : ℕ) (body : Bytes) (bs : List Bytes) (reads : List Read)
    → cut_at multi_line_term (body ++ concat bs) ≡ none
    → consume (reading level multi_level body) (map bytes bs ++ reads)
      ≡ consume (reading level multi_level (body ++ concat bs)) reads
unfolding consume emit
consume-middle level multi_level body [] reads h = rw (append-nil body) refl
consume-middle level multi_level body (b ∷ bs) reads h =
    let joined = append_assoc body b (concat bs) in
    let whole = subst (λ t. cut_at multi_line_term t ≡ none) (sym joined) h in
    rw
      (process-middle level multi_level body b
        (cut_at-none_append multi_line_term (body ++ b) (concat bs) whole))
      (consume-middle level multi_level (body ++ b) bs reads whole
        ∙ ap (λ t. consume (reading level multi_level t) reads) joined)

process-end :
    (level multi_level : ℕ) (body b before behind : Bytes)
    → has_prefix b multi_line_head ≡ false
    → cut_at multi_line_term b ≡ some (before, behind)
    → process (reading level multi_level body) b
      ≡ emit (say multi_level (body ++ before) ∷ []) (process (between level multi_level) behind)
unfolding process end_of_multi
process-end level multi_level body b before behind p h =
    let shut : (ends_in_newline body && has_prefix b multi_line_head) ≡ false = ground (arith, p) in
    rw (process, end_of_multi, shut, h) refl

-- The header of a message of several lines
colons-multi :
    (level : ℕ) (s : Bytes)
    → colons level (b':' ∷ b':' ∷ b':' ∷ s)
      ≡ some (record { level = level; multiline = true; rest = s })
unfolding colons
colons-multi level s = refl

digits-multi :
    (n : ℕ) (ds s : Bytes)
    → All (λ d. is_digit d ≡ true) ds
    → digits n (ds ++ b':' ∷ b':' ∷ b':' ∷ s)
      ≡ some (record { level = min (number n ds) 65535; multiline = true; rest = s })
unfolding digits number
digits-multi n [] s h = colons-multi (min n 65535) s
digits-multi n (d ∷ ds) s h = rw h.0 (digits-multi (n * 10 + (d - b'0')) ds s h.1)

abbrev pub header : ℕ → Bytes → Bytes → Bytes
header d ds s = d ∷ (ds ++ b':' ∷ b':' ∷ b':' ∷ s)

find_header-multi :
    (d : ℕ) (ds s : Bytes)
    → is_digit d ≡ true
    → All (λ d. is_digit d ≡ true) ds
    → find_header (header d ds s)
      ≡ some (record { level = min (number (d - b'0') ds) 65535; multiline = true; rest = s })
unfolding find_header
find_header-multi d ds s h hs = rw h (digits-multi (d - b'0') ds s hs)

process-start :
    (level multi_level d : ℕ) (ds body : Bytes)
    → is_digit d ≡ true
    → All (λ d. is_digit d ≡ true) ds
    → cut_at multi_line_term body ≡ none
    → process (between level multi_level) (header d ds body)
      ≡ ([], reading level (min (number (d - b'0') ds) 65535) body)
unfolding process process_rest scan turn multi_line flush
process-start level multi_level d ds body h hs open_end =
    rw (scan, turn, find_header-multi d ds body h hs, multi_line, open_end) refl

-- A message of several lines that is read in pieces: the first begins with its header, the pieces
-- up to the last hold no end of the message, nor does what they join to, and the last holds the
-- end, and does not begin with an end's last four bytes. It is said once, with the text of all its
-- pieces up to the end, at the level of the header; what follows is read as between messages.
pub consume-multi :
    (level multi_level d : ℕ) (ds body : Bytes) (bs : List Bytes) (b before behind : Bytes)
    (reads : List Read)
    → is_digit d ≡ true
    → All (λ d. is_digit d ≡ true) ds
    → cut_at multi_line_term (body ++ concat bs) ≡ none
    → has_prefix b multi_line_head ≡ false
    → cut_at multi_line_term b ≡ some (before, behind)
    → consume
        (between level multi_level)
        (bytes (header d ds body) ∷ map bytes bs ++ bytes b ∷ reads)
      ≡ emit
          (say (min (number (d - b'0') ds) 65535) (body ++ concat bs ++ before) ∷ [])
          (consume (between level (min (number (d - b'0') ds) 65535)) (bytes behind ∷ reads))
unfolding consume emit
consume-multi level multi_level d ds body bs b before behind reads h hs o p e =
    let n = min (number (d - b'0') ds) 65535 in
    let first =
      process-start level multi_level d ds body h hs
        (cut_at-none_append multi_line_term body (concat bs) o) in
    rw first (
      consume-middle level n body bs (bytes b ∷ reads) o
      ∙ rw (process-end level n (body ++ concat bs) b before behind p e) refl)
