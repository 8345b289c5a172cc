-- ===== src/Util/Text.antt =====
-- lib/eventmgr/util.h: `format`, `GetYMDHMS` and `DumpHex`, and `PrintEpollEvent` of EventMgr.h. A text
-- is a list of codes. `localtime_r` is an argument.
pub mod Digits
pub mod Dates
use cpp_coroutine.Common.{
  ℕ, zero, suc, ◌+◌, ◌-◌, ◌/◌, ◌%◌, ◌^◌, List, [], ◌∷◌, ◌++◌, Option, none, some, ◌==◌, ltb, leb,
  if◌then◌else◌, length, take, bit_and,
}

-- A digit below 16.
abbrev pub digit : ℕ → ℕ
digit n = if ltb n 10 then 48 + n else 87 + n

-- The digits of a number before those that are there; the fuel bounds how many are made.
unfoldable pub digits : ℕ → ℕ → ℕ → List ℕ → List ℕ
digits zero base n acc = acc
digits (suc fuel) base n acc =
    let acc' = digit (n % base) ∷ acc in
    let more = digits fuel base (n / base) acc' in if n / base == 0 then acc' else more

-- `%u` and `hex`: no 32-bit number has more than 32 digits.
abbrev pub show : ℕ → ℕ → List ℕ
show base n = digits 32 base n []

-- `%02u`
abbrev pub show_two : ℕ → List ℕ
show_two n = if ltb n 10 then 48 ∷ show 10 n else show 10 n

-- `format<SIZE>`, of a text without a zero byte: `vsnprintf` stops before the end of the array.
abbrev pub format : ℕ → List ℕ → List ℕ
format size s = take (size - 1) s

abbrev pub len_1k : ℕ
len_1k = 1024

-- `struct tm`, for years from 1900 on.
pub record Tm : Type 0 where
  pub tm_year : ℕ
  pub tm_mon : ℕ
  pub tm_mday : ℕ
  pub tm_hour : ℕ
  pub tm_min : ℕ
  pub tm_sec : ℕ

-- `GetYMDHMS`
unfoldable pub get_ymdhms : (ℕ → Tm) → ℕ → List ℕ
unfolding digits
get_ymdhms localtime ts =
    let t = localtime ts in
    format len_1k (
      show 10 (t.tm_year + 1900)
      ++ (45 ∷ show_two (t.tm_mon + 1)
          ++ (45 ∷ show_two t.tm_mday
              ++ (32 ∷ show_two t.tm_hour
                  ++ (58 ∷ show_two t.tm_min ++ (58 ∷ show_two t.tm_sec))))))

-- `DumpHex`: "0x", the digits and a space for each of the first `len` bytes; `none` is a read outside
-- the memory.
unfoldable pub dump_hex : List ℕ → ℕ → Option (List ℕ)
unfolding digits
dump_hex src zero = some []
dump_hex [] (suc len) = none
dump_hex (b ∷ src) (suc len) = elim (dump_hex src len) [
  | none ↦ none
  | some rest ↦ some (48 ∷ 120 ∷ show 16 (bit_and b 255) ++ (32 ∷ rest))
]

-- The flags of `PrintEpollEvent` with their names.
abbrev pub epoll_flags : List (ℕ × List ℕ)
epoll_flags =
    (1, 69 ∷ 80 ∷ 79 ∷ 76 ∷ 76 ∷ 73 ∷ 78 ∷ [])
    ∷ (4, 69 ∷ 80 ∷ 79 ∷ 76 ∷ 76 ∷ 79 ∷ 85 ∷ 84 ∷ [])
    ∷ (2 ^ 13, 69 ∷ 80 ∷ 79 ∷ 76 ∷ 76 ∷ 82 ∷ 68 ∷ 72 ∷ 85 ∷ 80 ∷ [])
    ∷ (2, 69 ∷ 80 ∷ 79 ∷ 76 ∷ 76 ∷ 80 ∷ 82 ∷ 73 ∷ [])
    ∷ (8, 69 ∷ 80 ∷ 79 ∷ 76 ∷ 76 ∷ 69 ∷ 82 ∷ 82 ∷ [])
    ∷ (16, 69 ∷ 80 ∷ 79 ∷ 76 ∷ 76 ∷ 72 ∷ 85 ∷ 80 ∷ [])
    ∷ (2 ^ 31, 69 ∷ 80 ∷ 79 ∷ 76 ∷ 76 ∷ 69 ∷ 84 ∷ [])
    ∷ (2 ^ 30, 69 ∷ 80 ∷ 79 ∷ 76 ∷ 76 ∷ 79 ∷ 78 ∷ 69 ∷ 83 ∷ 72 ∷ 79 ∷ 84 ∷ [])
    ∷ []

-- The names of the flags that are set, each with a space.
unfoldable pub print_flags : List (ℕ × List ℕ) → ℕ → List ℕ
print_flags [] e = []
print_flags ((flag, name) ∷ more) e =
    let rest = print_flags more e in if bit_and e flag == 0 then rest else name ++ (32 ∷ rest)

-- `PrintEpollEvent`
unfoldable pub print_epoll_event : ℕ → List ℕ
unfolding print_flags
print_epoll_event e = print_flags epoll_flags e
