-- ===== src/Util/MemData.antt =====
-- lib/eventmgr/util.h, `CMemData`: a byte buffer of which the first `offset` bytes are in use.
-- `none` is an access outside an array. Sizes are `uint32_t` and wrap.
pub mod Content
use cpp_coroutine.Common.{
  ℕ, ◌+◌, ◌-◌, ◌%◌, ◌^◌, ◌≤◌, ◌<◌, List, [], ◌++◌, Option, none, some, ltb, leb, if◌then◌else◌,
  length, take, drop, replicate,
}

pub record MemData : Type 0 where
  pub bytes : List ℕ
  pub offset : ℕ

infixl 5 ◌>>=◌
abbrev pub ◌>>=◌ {ℓ κ} : {A : Type ℓ} {B : Type κ} → Option A → (A → Option B) → Option B
none >>= f = none
some a >>= f = f a

-- The constructor.
unfoldable pub empty : MemData
empty = record { bytes = []; offset = 0 }

unfoldable pub clear : MemData → MemData
clear d = record d { offset = 0 }

unfoldable pub size : MemData → ℕ
size d = d.offset

-- The difference is a `size_t`, and the result its low half.
unfoldable pub left_size : MemData → ℕ
left_size d = (length d.bytes + 2 ^ 64 - d.offset) % 2 ^ 32

unfoldable pub update_use : MemData → ℕ → MemData
update_use d len = record d { offset = (d.offset + len) % 2 ^ 32 }

-- `memcpy` of the first `n` bytes of one array to the position `at` of another.
abbrev pub memcpy : List ℕ → ℕ → List ℕ → ℕ → Option (List ℕ)
memcpy dst at src n =
    if leb n (length src)
    then if leb (at + n) (length dst)
      then some (take at dst ++ (take n src ++ drop (at + n) dst))
      else none
    else none

-- `size += m_offset` wraps; the new buffer is filled with zeros.
unfoldable pub expand : MemData → ℕ → Option MemData
expand d n =
    let total = (n + d.offset) % 2 ^ 32 in
    if leb total (length d.bytes) then some d else (do
      moved ← memcpy (replicate total 0) 0 d.bytes d.offset
      some (record d { bytes = moved }))

-- `Copy`; `src` is what the address points to.
unfoldable pub copy : MemData → List ℕ → ℕ → Option MemData
unfolding left_size
copy d src n = do
  roomy ← (if ltb (left_size d) n then expand d n else some d)
  written ← memcpy roomy.bytes roomy.offset src n
  some (record { bytes = written; offset = n })

-- `Remove`; the vector's `erase` past the end is a fault.
unfoldable pub remove : MemData → ℕ → Option MemData
unfolding size
remove d n =
    let kept = (if leb (size d) n then 0 else d.offset) in
    if leb n (length d.bytes) then some (record { bytes = drop n d.bytes; offset = kept }) else none

-- The bytes in use, from `GetStart` on.
abbrev pub content : MemData → List ℕ
content d = take d.offset d.bytes

pub record IsValid (d : MemData) : Type 0 where
  pub used : d.offset ≤ length d.bytes
  pub small : length d.bytes < 2 ^ 32
