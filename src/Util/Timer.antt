-- ===== src/Util/Timer.antt =====
-- lib/eventmgr/util.h, `CTimerMS`: the millisecond timer. What `gettimeofday` stores is an argument
-- `now` of each operation that reads the clock.
pub mod Elapsed
use cpp_coroutine.Common.{ℕ, ◌+◌, ◌-◌, ◌*◌, ◌/◌, ◌%◌, ◌^◌, ◌≤◌, ◌<◌, Bool, leb, if◌then◌else◌}
use cpp_coroutine.Common.Int.{ℤ, pos, negsuc, sub_ℕ, ◌+ℤ◌, ◌*ℤ◌}

-- `struct timeval`, after the epoch.
pub record Timeval : Type 0 where
  pub tv_sec : ℕ
  pub tv_usec : ℕ

pub record TimerMs : Type 0 where
  pub start : Timeval
  pub expire : ℕ

-- Division of signed numbers, which rounds towards zero.
abbrev pub ◌/ℤ◌ : ℤ → ℕ → ℤ
◌/ℤ◌ (pos n) k = pos (n / k)
◌/ℤ◌ (negsuc n) k = sub_ℕ 0 ((n + 1) / k)

-- A signed number stored in a `uint64_t`.
abbrev pub to_u64 : ℤ → ℕ
to_u64 (pos n) = n % 2 ^ 64
to_u64 (negsuc n) = 2 ^ 64 - 1 - n % 2 ^ 64

-- The constructor: `Reset` reads the clock.
unfoldable pub timer_ms : ℕ → Timeval → TimerMs
timer_ms total now = record { start = now; expire = total }

unfoldable pub reset : TimerMs → Timeval → TimerMs
reset t now = record t { start = now }

unfoldable pub set_timeout : TimerMs → ℕ → TimerMs
set_timeout t ms = record t { expire = ms }

unfoldable pub get_elapsed_time : TimerMs → Timeval → ℕ
unfolding ◌+ℤ◌ ◌*ℤ◌
get_elapsed_time t now =
    to_u64
      (sub_ℕ now.tv_sec t.start.tv_sec *ℤ pos 1000 +ℤ ◌/ℤ◌ (sub_ℕ now.tv_usec t.start.tv_usec) 1000)

unfoldable pub get_ms : TimerMs → ℕ
get_ms t = (t.start.tv_sec * 1000 + t.start.tv_usec / 1000) % 2 ^ 64

unfoldable pub get_expire_ms : TimerMs → ℕ
get_expire_ms t = (get_ms t + t.expire) % 2 ^ 64

unfoldable pub is_timeout : TimerMs → Timeval → Bool
is_timeout t now = leb t.expire (get_elapsed_time t now)

unfoldable pub left_time : TimerMs → Timeval → ℕ
left_time t now =
    let elapse = get_elapsed_time t now in if leb t.expire elapse then 0 else t.expire - elapse

-- Microseconds since the epoch.
abbrev pub micros : Timeval → ℕ
micros v = v.tv_sec * 1000000 + v.tv_usec

-- What `gettimeofday` keeps to; the bound on the seconds is some 290 million years.
pub record IsTime (v : Timeval) : Type 0 where
  pub usec_bound : v.tv_usec < 1000000
  pub sec_bound : v.tv_sec < 2 ^ 53
