-- ===== src/Util/Timer/Elapsed.antt =====
-- lib/eventmgr/util.h: `GetElapsedTime`, `LeftTime` and `IsTimeout` of `CTimerMS` as time passes.
use cpp_coroutine.Common.{◌+◌, ◌-◌, ◌*◌, ◌/◌, ◌≤◌, ◌<◌, ◌≡◌, ◌↔◌, true, leb, if◌then◌else◌, arith}
use cpp_coroutine.Util.Timer.{
  Timeval, TimerMs, IsTime, get_elapsed_time, is_timeout, left_time, micros,
}

-- The elapsed time, in numbers that do not wrap.
pub elapsed_split :
    (t : TimerMs) (now : Timeval)
    → IsTime t.start
    → IsTime now
    → micros t.start ≤ micros now
    → get_elapsed_time t now ≡ (
        if leb t.start.tv_usec now.tv_usec
        then (now.tv_sec - t.start.tv_sec) * 1000 + (now.tv_usec - t.start.tv_usec) / 1000
        else (now.tv_sec - t.start.tv_sec) * 1000 - (t.start.tv_usec - now.tv_usec) / 1000)
unfolding get_elapsed_time
elapsed_split t now hs hn h = ground arith

-- For a clock that has not gone back since the start, both times in the range of `gettimeofday`,
-- `GetElapsedTime` is less than one millisecond from the time that has passed.
pub elapsed_exact :
    (t : TimerMs) (now : Timeval)
    → IsTime t.start
    → IsTime now
    → micros t.start ≤ micros now
    → (get_elapsed_time t now * 1000 < micros now - micros t.start + 1000)
      × (micros now - micros t.start < get_elapsed_time t now * 1000 + 1000)
elapsed_exact t now hs hn h = rw (elapsed_split t now hs hn h) (ground arith)

elapsed_mono :
    (t : TimerMs) (now later : Timeval)
    → IsTime t.start
    → IsTime now
    → IsTime later
    → micros t.start ≤ micros now
    → micros now ≤ micros later
    → get_elapsed_time t now ≤ get_elapsed_time t later
elapsed_mono t now later hs hn hl h k =
    ground (arith, elapsed_split t now hs hn h, elapsed_split t later hs hl (omega arith))

-- At one time `IsTimeout` holds exactly if `LeftTime` is 0.
pub is_timeout_iff :
    (t : TimerMs) (now : Timeval) → (is_timeout t now ≡ true) ↔ (left_time t now ≡ 0)
unfolding is_timeout left_time
is_timeout_iff t now = ground arith

-- For a clock that does not go back, the times in the range of `gettimeofday`, `LeftTime` never
-- grows and a timer that has run out stays so.
pub timeout_stays :
    (t : TimerMs) (now later : Timeval)
    → IsTime t.start
    → IsTime now
    → IsTime later
    → micros t.start ≤ micros now
    → micros now ≤ micros later
    → (left_time t later ≤ left_time t now) × (is_timeout t now ≡ true → is_timeout t later ≡ true)
unfolding left_time is_timeout
timeout_stays t now later hs hn hl h k = ground (arith, elapsed_mono t now later hs hn hl h k)
