-- ===== src/Util/Text/Dates.antt =====
-- lib/eventmgr/util.h: the text of a time, read back.
use cpp_coroutine.Common.{
  ℕ, ◌+◌, ◌-◌, ◌*◌, ◌/◌, ◌%◌, ◌≡◌, ◌<◌, ◌≤◌, refl, List, [], ◌∷◌, Option, some, none, arith,
}
use cpp_coroutine.Util.Text.{digits, show, show_two, Tm, get_ymdhms}

-- The number of two or four digits.
abbrev two : ℕ → ℕ → ℕ
two a b = (a - 48) * 10 + (b - 48)

-- A time by its text.
unfoldable pub read_time : List ℕ → Option Tm
read_time (a ∷ b ∷ c ∷ d ∷ _ ∷ e ∷ f ∷ _ ∷ g ∷ h ∷ _ ∷ i ∷ j ∷ _ ∷ k ∷ l ∷ _ ∷ m ∷ n ∷ []) =
    some (record {
      tm_year = two a b * 100 + two c d - 1900;
      tm_mon = two e f - 1;
      tm_mday = two g h;
      tm_hour = two i j;
      tm_min = two k l;
      tm_sec = two m n;
    })
read_time _ = none

show_two_lem : (n : ℕ) → n < 100 → show_two n ≡ (48 + n / 10) ∷ (48 + n % 10) ∷ []
unfolding digits
show_two_lem n h = ground arith

show_year :
    (n : ℕ)
    → 1000 ≤ n
    → n < 10000
    → show 10 n ≡ (48 + n / 1000) ∷ (48 + n / 100 % 10) ∷ (48 + n / 10 % 10) ∷ (48 + n % 10) ∷ []
unfolding digits
show_year n h k = ground arith

-- A time from 1900 to 9999.
pub record IsDate (t : Tm) : Type 0 where
  pub year_bound : t.tm_year + 1900 < 10000
  pub mon_bound : t.tm_mon < 12
  pub mday_bound : t.tm_mday < 32
  pub hour_bound : t.tm_hour < 24
  pub min_bound : t.tm_min < 60
  pub sec_bound : t.tm_sec < 61

two_of : (n : ℕ) → two (48 + n / 10) (48 + n % 10) ≡ n
two_of n = omega arith

same_time :
    (a b c d e f : ℕ) (t : Tm)
    → a ≡ t.tm_year
    → b ≡ t.tm_mon
    → c ≡ t.tm_mday
    → d ≡ t.tm_hour
    → e ≡ t.tm_min
    → f ≡ t.tm_sec
    → some (record { tm_year = a; tm_mon = b; tm_mday = c; tm_hour = d; tm_min = e; tm_sec = f })
      ≡ some t
same_time a b c d e f t ha hb hc hd he hf = rw (ha, hb, hc, hd, he, hf) refl

-- The text of `GetYMDHMS` for a date from 1900 to 9999 has the date and the time at fixed places:
-- reading it back gives the fields of `localtime_r`.
pub read-get_ymdhms :
    (localtime : ℕ → Tm) (ts : ℕ)
    → IsDate (localtime ts)
    → read_time (get_ymdhms localtime ts) ≡ some (localtime ts)
unfolding read_time get_ymdhms
read-get_ymdhms localtime ts d =
    let t = localtime ts in
    rw
      (
        show_year (t.tm_year + 1900) (omega arith) d.year_bound,
        show_two_lem (t.tm_mon + 1) (omega (arith, d.mon_bound)),
        show_two_lem t.tm_mday (omega (arith, d.mday_bound)),
        show_two_lem t.tm_hour (omega (arith, d.hour_bound)),
        show_two_lem t.tm_min (omega (arith, d.min_bound)),
        show_two_lem t.tm_sec (omega (arith, d.sec_bound)),
      )
      (same_time _ _ _ _ _ _ t (omega arith) (omega arith) (two_of t.tm_mday) (two_of t.tm_hour)
        (two_of t.tm_min) (two_of t.tm_sec))
