-- ===== src/Examples/Words.antt =====
-- The words and buffers of base/stream, the keys and conditions of base/mgr and base/settings.
use debug_bootstrap.Prelude.{
  ℕ, ◌*◌, ◌≡◌, refl, true, none, some, inl, [], ◌∷◌, Bytes, codes, arith, if◌then◌else◌,
  bytes_equal,
}
use debug_bootstrap.Stream.Meta.{
  level, code, is, base, new_meta, new_meta_with_code, exit_error_flag,
}
use debug_bootstrap.Stream.Meta.Fields.{any_overlap, decode-new_meta_with_code}
use debug_bootstrap.Mgr.Backoff.{BackOff, IsBackOff, second}
use debug_bootstrap.Mgr.WaitMachine.{Machine, new_state_machine, wait, release}
use debug_bootstrap.Mgr.WaitMachine.Released.{all_passable, all_good, wait-passable}
use debug_bootstrap.Settings.Condition.{get_expression, diverges, is_word}
use debug_bootstrap.Settings.Condition.Hang.{get_expression-unfinished}
use debug_bootstrap.Settings.Condition.Words.{unfinished}

-- A word with the code 3, the level 10 and the flag of an error.
abbrev failed : ℕ
failed = new_meta_with_code 3 10 (exit_error_flag ∷ [])

decode-new_meta_with_code_example :
    (code failed ≡ 3)
    × (level failed ≡ 10)
    × (is failed 4 ≡ any_overlap (exit_error_flag ∷ []) 4)
    × (base failed ≡ new_meta 10 (exit_error_flag ∷ []))
decode-new_meta_with_code_example =
    decode-new_meta_with_code 3 10 (exit_error_flag ∷ []) 4 (omega arith) (omega arith)
      (omega arith, tt) (omega arith)

-- A back-off that gave 4 seconds at the time 0.
abbrev four : BackOff
four = record {
  delay = 2 * second;
  multiply_halves = 3;
  limit = 10 * second;
  last_delay = 4 * second;
  last_call = 0;
  ready = true;
}

four-IsBackOff : IsBackOff four
four-IsBackOff = record { prepared = refl; capped = omega arith; whole = inl (omega arith) }

-- Two services, of which one has been released.
abbrev net : Bytes
net = codes "net"

abbrev web : Bytes
web = codes "web"

abbrev half_released : Machine
half_released = (release net true (new_state_machine (net ∷ web ∷ []))).0

wait-passable_example : wait (net ∷ []) half_released ≡ (
    if all_passable (net ∷ []) half_released
    then some (all_good (net ∷ []) half_released)
    else none)
wait-passable_example = wait-passable (net ∷ []) half_released

get_expression-unfinished_example :
    get_expression 50 (unfinished (codes "not") (codes "debug")) ≡ diverges
unfolding is_word
get_expression-unfinished_example =
    get_expression-unfinished 50 b'n' b'd' (codes "ot") (codes "ebug") (refl, (refl, (refl, tt)))
      (refl, (refl, (refl, (refl, (refl, tt)))))
