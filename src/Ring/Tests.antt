-- ===== src/Ring/Tests.antt =====
-- The ring on concrete inputs.
use lumbre_ext.Common.{
  replicate, ℕ, ◌+◌, ◌^◌, ◌≤◌, ◌<◌, ◌≡◌, ◌≢◌, refl, arith, inr, ◌⊎◌, true, false, List, [], ◌∷◌,
  some, ok, error, codes,
}
use lumbre_ext.Memory.{fetch}
use lumbre_ext.Ring.{
  reset, write, write_seen, count_drop, put_message, next_power_of_2, is_power_of_two, smear,
}
use lumbre_ext.Ring.Power.{IsPowerOfTwo, next_power_of_2_lem, next_power_of_2_range}
use lumbre_ext.Ring.Refine.{Holds, write_seen_refines}
use lumbre_ext.Ring.Accept.{write_seen_accepts, write_seen_refuses}
use lumbre_ext.Ring.Bounds.{write_seen_in_bounds, write_seen_aligned, write_seen_overrun}
use lumbre_ext.Ring.Lifecycle.{
  Os, init, init_named, init_opened, destroy, decimal_digits, ring_path,
}
use lumbre_ext.Ring.Decimal.{init_paths_distinct}
use lumbre_ext.Ring.Resources.{Resources, effects, init_failure_releases, init_then_destroy}
use lumbre_ext.Ring.Start.{reset-Holds, init-Holds, init_too_large}
use lumbre_ext.Ring.Empty.{IsRead, attempts, write_half, write_stuck}
use lumbre_ext.Ring.Samples.{
  empty_at, empty_at-IsValid, empty_at-Holds, three, one_message, one_message-Holds,
}

write_straight : (write (empty_at 0) three 3).1.header.write_pos ≡ 7
unfolding write write_seen put_message
write_straight = refl

next_power_of_2_run : next_power_of_2 5 ≡ 8
unfolding next_power_of_2 is_power_of_two smear
next_power_of_2_run = refl

write_seen_refines_example : Holds (write_seen (empty_at 0) 0 three 3).1 (three ∷ [])
unfolding write_seen fetch
write_seen_refines_example =
    write_seen_refines (empty_at 0) 0 three 3 (empty_at-Holds 0) (omega arith) (omega arith)

write_seen_accepts_example :
    let (s, rb') = write_seen (empty_at 13) 13 three 3 in
    (s ≡ ok) × (rb'.header.write_pos ≡ 23) × (rb'.header.dropped ≡ 0)
write_seen_accepts_example =
    write_seen_accepts (empty_at 13) 13 three 3 (empty_at-IsValid 13) (omega arith) (omega arith)
      (omega arith)

write_seen_refuses_example :
    let one_more = record ((empty_at 13).header) { dropped = 1 } in
    write_seen (empty_at 13) 5 three 3 ≡ (error, record (empty_at 13) { header = one_more })
write_seen_refuses_example =
    write_seen_refuses (empty_at 13) 5 three 3 (empty_at-IsValid 13) (omega arith) (omega arith)
      (omega arith)

write_seen_in_bounds_example : (write_seen (empty_at 13) 13 three 3).1.data_region 19 ≡ 0
write_seen_in_bounds_example =
    write_seen_in_bounds (empty_at 13) 13 three 3 19 (empty_at-IsValid 13) (omega arith)
      (omega arith) (omega arith) (inr (omega arith))

write_seen_aligned_run : (write_seen (empty_at 12) 12 three 3).1.data_region 16 ≡ 0
write_seen_aligned_run =
    write_seen_aligned (empty_at 12) 12 three 3 16 (empty_at-IsValid 12) (omega arith) (omega arith)
      (omega arith) (omega arith)

write_seen_overrun_example : (write_seen (empty_at 13) 13 three 3).1.data_region 16 ≡ 255
write_seen_overrun_example =
    write_seen_overrun (empty_at 13) 13 three 3 (empty_at-IsValid 13) (omega arith) (omega arith)
      (omega arith) (omega arith) (omega arith)

next_power_of_2_lem_run :
    IsPowerOfTwo (next_power_of_2 100) × (100 ≤ next_power_of_2 100) × (next_power_of_2 100 < 200)
next_power_of_2_lem_run = next_power_of_2_lem 100 (omega arith) (omega arith)

next_power_of_2_range_example : (4 ≤ next_power_of_2 3) × (next_power_of_2 3 ≤ 2 ^ 31)
next_power_of_2_range_example = next_power_of_2_range 3 (omega arith) (omega arith)

-- The system grants everything; or not the mapping.
abbrev granted : Os
granted = record { open_fd = some 3; truncate_ok = true; map_ok = true }

abbrev unmapped_os : Os
unmapped_os = record { open_fd = some 3; truncate_ok = true; map_ok = false }

abbrev shm : List ℕ
shm = codes "/dev/shm"

init-Holds_example :
    let rb' = (init (empty_at 0) granted shm 42 1 5).1 in
    Holds rb' []
    × (5 ≤ rb'.capacity)
    × (rb'.capacity < 10)
    × (rb'.header.capacity ≡ rb'.capacity)
    × (rb'.header.magic ≡ 0x54524143)
    × (rb'.header.version ≡ 1)
    × (rb'.header.pid ≡ 42)
    × (rb'.path ≡ ring_path shm 42 1)
unfolding init init_named init_opened ring_path decimal_digits
init-Holds_example = init-Holds (empty_at 0) granted shm 42 1 5 (omega arith) (omega arith) refl

init_too_large_example :
    let rb' = (init (empty_at 0) granted shm 42 1 (2 ^ 31 + 1)).1 in
    (rb'.capacity ≡ 0) × (write rb' three 3 ≡ (error, count_drop rb'))
unfolding init init_named init_opened ring_path decimal_digits
init_too_large_example =
    init_too_large (empty_at 0) granted shm 42 1 (2 ^ 31 + 1) three 3 (omega arith) (omega arith)
      (omega arith) refl

abbrev before : Resources
before = record { descriptors = λ d. 0; mapped_bytes = 0; files = λ q. false }

init_failure_releases_example :
    let (s, rb', calls) = init (empty_at 0) unmapped_os shm 42 1 5 in
    ((d : ℕ) → (effects before calls).descriptors d ≡ before.descriptors d)
    × ((effects before calls).mapped_bytes ≡ 0)
    × ((calls ≡ []) ⊎ ((effects before calls).files rb'.path ≡ false))
    × ((q : List ℕ) → q ≢ rb'.path → (effects before calls).files q ≡ before.files q)
    × (rb'.attached ≡ true)
unfolding init init_named init_opened ring_path decimal_digits
init_failure_releases_example =
    init_failure_releases (empty_at 0) unmapped_os shm 42 1 5 before refl

init_then_destroy_run :
    let (s, rb', calls) = init (empty_at 0) granted shm 42 1 5 in
    let (rb'', more) = destroy rb' false in
    ((d : ℕ) → (effects (effects before calls) more).descriptors d ≡ before.descriptors d)
    × ((effects (effects before calls) more).mapped_bytes ≡ 0)
    × ((effects (effects before calls) more).files rb'.path ≡ false)
    × (destroy rb'' false ≡ (rb'', []))
unfolding init init_named init_opened ring_path decimal_digits
init_then_destroy_run = init_then_destroy (empty_at 0) granted shm 42 1 5 before false refl

write_half_example : (write (empty_at 13) three 3).0 ≡ ok
write_half_example =
    write_half (empty_at 13) three 3 (empty_at-IsValid 13) (omega arith) refl (omega arith)

-- A message of 12 bytes, which a ring of 16 bytes takes at its start only.
abbrev twelve : List ℕ
twelve = replicate 12 7

write_stuck_example :
    let rb' = attempts 5 (empty_at 8) twelve 12 in
    ((write rb' twelve 12).0 ≡ error) × IsRead rb' × (rb'.header.write_pos ≡ 8)
write_stuck_example =
    write_stuck 5 (empty_at 8) twelve 12 (empty_at-IsValid 8) (omega arith) refl (omega arith)

twelve_fits : (write (empty_at 0) twelve 12).0 ≡ ok
unfolding write write_seen
twelve_fits = refl

reset-Holds_example :
    Holds (reset one_message) []
    × ((reset one_message).capacity ≡ 16)
    × ((reset one_message).header.dropped ≡ 0)
unfolding write_seen put_message
reset-Holds_example = reset-Holds one_message (one_message-Holds.valid)

-- Two workers of one process.
init_paths_distinct_run :
    (init (empty_at 0) granted shm 42 1 5).1.path ≢ (init (empty_at 8) granted shm 42 2 5).1.path
unfolding init init_named init_opened ring_path decimal_digits
init_paths_distinct_run =
    init_paths_distinct (empty_at 0) (empty_at 8) granted granted shm 42 42 1 2 5 5 (omega arith)
      (omega arith) (omega arith) (omega arith) (inr (λ e. absurd (omega (arith, e)))) refl refl
