-- ===== src/Tests/Buffers.antt =====
-- The buffer, the timer and a package on small data.
use cpp_coroutine.Common.{
  ℕ, ◌+◌, ◌*◌, ◌^◌, ◌≡◌, ◌≤◌, ◌<◌, ◌↔◌, ◌⊎◌, refl, true, [], ◌∷◌, ◌++◌, some, none, arith, length,
  take,
}
use cpp_coroutine.Common.Int.{pos}
use cpp_coroutine.Util.MemData.{
  MemData, IsValid, content, empty, clear, size, left_size, update_use, expand, copy, remove,
}
use cpp_coroutine.Util.MemData.Content.{expand_room, copy_lem, remove_all, remove_part}
use cpp_coroutine.Util.Timer.{
  Timeval, TimerMs, IsTime, timer_ms, reset, set_timeout, get_ms, get_expire_ms, get_elapsed_time,
  is_timeout, left_time,
}
use cpp_coroutine.Util.Timer.Elapsed.{elapsed_exact, timeout_stays, is_timeout_iff}
use cpp_coroutine.HeadPkg.{HeadPkg, check, decode, seq, encode, set_data, write_u32}
use cpp_coroutine.HeadPkg.RoundTrip.{check_cut, encode_roundtrip}
use cpp_coroutine.Tests.Codes.{codes}

-- Three bytes of five are in use.
abbrev five : MemData
five = record { bytes = 1 ∷ 2 ∷ 3 ∷ 4 ∷ 5 ∷ []; offset = 3 }

five-IsValid : IsValid five
five-IsValid = record { used = omega arith; small = omega arith }

-- A buffer is made, gets room, and is filled as a receiver does it.
filled :
    (expand empty 2 ≡ some (record { bytes = 0 ∷ 0 ∷ []; offset = 0 }))
    × (size (update_use five 2) ≡ 5)
    × (left_size five ≡ 2)
    × (content (clear five) ≡ [])
unfolding expand empty size update_use left_size clear
filled = (refl, refl, refl, refl)

room_made :
    (e : MemData) × (expand five 4 ≡ some e)
    × IsValid e
    × (content e ≡ content five)
    × (e.offset ≡ 3)
    × (7 ≤ length e.bytes)
room_made = expand_room five 4 five-IsValid (omega arith)

copy_lem_run :
    (e : MemData) × (copy five (7 ∷ 8 ∷ []) 2 ≡ some e)
    × IsValid e
    × (content e ≡ take 2 (content five ++ take 2 (7 ∷ 8 ∷ [])))
    × (e.offset ≡ 2)
copy_lem_run = copy_lem five (7 ∷ 8 ∷ []) 2 five-IsValid (omega arith) (omega arith)

all_removed :
    (e : MemData) × (remove five 4 ≡ some e)
    × IsValid e
    × (content e ≡ [])
    × (length e.bytes + 4 ≡ 5)
all_removed = remove_all five 4 five-IsValid (omega arith) (omega arith)

remove_part_example :
    (e : MemData) × (remove five 1 ≡ some e)
    × (e.offset ≡ 3)
    × (e.bytes ≡ 2 ∷ 3 ∷ 4 ∷ 5 ∷ [])
    × (IsValid e ↔ (4 ≤ 5))
    × (5 < 4 → 2 ^ 32 ≤ left_size e + 1)
remove_part_example = remove_part five 1 five-IsValid (omega arith)

abbrev at : ℕ → ℕ → Timeval
at sec usec = record { tv_sec = sec; tv_usec = usec }

abbrev timer : TimerMs
timer = record { start = at 5 900000; expire = 200 }

at-IsTime : (sec usec : ℕ) → sec < 2 ^ 53 → usec < 1000000 → IsTime (at sec usec)
at-IsTime sec usec h k = record { usec_bound = k; sec_bound = h }

timers :
    (set_timeout (reset (timer_ms 7 (at 1 0)) (at 5 900000)) 200 ≡ timer)
    × (get_expire_ms timer ≡ 6100)
unfolding set_timeout reset timer_ms get_expire_ms get_ms
timers = (refl, refl)

elapsed_exact_example :
    (get_elapsed_time timer (at 6 50000) * 1000 < 150000 + 1000)
    × (150000 < get_elapsed_time timer (at 6 50000) * 1000 + 1000)
elapsed_exact_example =
    elapsed_exact timer (at 6 50000) (at-IsTime 5 900000 (omega arith) (omega arith))
      (at-IsTime 6 50000 (omega arith) (omega arith)) (omega arith)

timeout_stays_run :
    (left_time timer (at 7 0) ≤ left_time timer (at 6 50000))
    × (is_timeout timer (at 6 50000) ≡ true → is_timeout timer (at 7 0) ≡ true)
timeout_stays_run =
    timeout_stays timer (at 6 50000) (at 7 0) (at-IsTime 5 900000 (omega arith) (omega arith))
      (at-IsTime 6 50000 (omega arith) (omega arith)) (at-IsTime 7 0 (omega arith) (omega arith))
      (omega arith) (omega arith)

zero_is_timeout : (is_timeout timer (at 6 50000) ≡ true) ↔ (left_time timer (at 6 50000) ≡ 0)
zero_is_timeout = is_timeout_iff timer (at 6 50000)

abbrev greeting : HeadPkg
greeting = record { head = record { seq = none; body = some (5 ∷ 6 ∷ []) }; packed = [] }

data_set :
    set_data (record greeting { head = record { seq = none; body = none } }) (5 ∷ 6 ∷ []) ≡ greeting
unfolding set_data
data_set = refl

abbrev sent : HeadPkg × ℕ
sent = encode codes greeting 41

encode_roundtrip_example :
    (check sent.0.packed (length sent.0.packed) ≡ some (pos (length sent.0.packed)))
    × (decode codes sent.0.packed (length sent.0.packed) ≡ some (some sent.0.head))
    × (seq codes sent.0.packed (length sent.0.packed) ≡ some (pos 42))
    × (sent.1 ≡ 42)
unfolding encode
encode_roundtrip_example = encode_roundtrip codes greeting 41 (omega arith)

check_cut_example :
    ((6 < 4) × (check (write_u32 4 ++ (1 ∷ 2 ∷ [])) 6 ≡ some (pos 0)))
    ⊎ (((4 ≤ 6) × (6 < 8) × (check (write_u32 4 ++ (1 ∷ 2 ∷ [])) 6 ≡ some (pos 8)))
        ⊎ ((8 ≤ 6) × (check (write_u32 4 ++ (1 ∷ 2 ∷ [])) 6 ≡ some (pos 8))))
check_cut_example = check_cut 4 6 (1 ∷ 2 ∷ []) (omega arith) (omega arith)
