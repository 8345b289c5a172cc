-- ===== src/Util/MemData/Content.antt =====
-- lib/eventmgr/util.h: `Expand`, `Copy` and `Remove` of `CMemData` and the bytes in use.
use mathlib.Core.List.{append_assoc}
use cpp_coroutine.Common.{
  ℕ, ◌+◌, ◌^◌, ◌≤◌, ◌<◌, ◌≡◌, ◌↔◌, refl, ap, ◌∙◌, List, [], ◌++◌, some, ltb, leb, length, take,
  drop, replicate, arith, length-append, length-drop, length-replicate, length-take_of_le,
  take-append, take_of_length-eq, Bool-cases, inl, inr,
}
use cpp_coroutine.Util.MemData.{MemData, IsValid, content, expand, copy, remove, left_size}

pub length-memcpy :
    (dst : List ℕ) (at : ℕ) (src : List ℕ) (n : ℕ)
    → n ≤ length src
    → at + n ≤ length dst
    → length (take at dst ++ (take n src ++ drop (at + n) dst)) ≡ length dst
length-memcpy dst at src n h k = omega (
  arith,
  length-append (take at dst) (take n src ++ drop (at + n) dst),
  length-append (take n src) (drop (at + n) dst),
  length-take_of_le at dst (omega arith),
  length-take_of_le n src h,
  length-drop (at + n) dst,
)

length-zeros : (n : ℕ) → length (replicate {A = ℕ} n 0) ≡ n
length-zeros n = length-replicate n 0

-- The buffer that `Expand` allocates.
abbrev pub grown : MemData → ℕ → MemData
grown d n = record d {
  bytes =
      take 0 (replicate (n + d.offset) 0)
      ++ (take d.offset d.bytes ++ drop (0 + d.offset) (replicate (n + d.offset) 0));
}

pub expand-grown :
    (d : MemData) (n : ℕ)
    → IsValid d
    → length d.bytes < n + d.offset
    → n + d.offset < 2 ^ 32
    → expand d n ≡ some (grown d n)
unfolding expand
expand-grown d n v more h = ground (arith, length-zeros (n + d.offset))

expand_same :
    (d : MemData) (n : ℕ)
    → n + d.offset ≤ length d.bytes
    → n + d.offset < 2 ^ 32
    → expand d n ≡ some d
unfolding expand
expand_same d n fits h = ground arith

pub length-grown : (d : MemData) (n : ℕ) → IsValid d → length (grown d n).bytes ≡ n + d.offset
length-grown d n v = omega (
  arith,
  length-memcpy (replicate (n + d.offset) 0) 0 d.bytes d.offset v.used
      (omega (arith, length-zeros (n + d.offset))),
  length-zeros (n + d.offset),
)

pub content-grown : (d : MemData) (n : ℕ) → IsValid d → content (grown d n) ≡ content d
content-grown d n v =
    take-append d.offset (take d.offset d.bytes) _
      (omega (arith, length-take_of_le d.offset d.bytes v.used))
    ∙ take_of_length-eq d.offset (take d.offset d.bytes) (length-take_of_le d.offset d.bytes v.used)

-- `Expand` of a valid buffer by `n`, with `n` and the bytes in use below 2^32, keeps the content,
-- and then there is room for `n` bytes more.
pub expand_room :
    (d : MemData) (n : ℕ)
    → IsValid d
    → n + d.offset < 2 ^ 32
    → (e : MemData) × (expand d n ≡ some e)
      × (IsValid e)
      × (content e ≡ content d)
      × (e.offset ≡ d.offset)
      × (n + d.offset ≤ length e.bytes)
expand_room d n v h = elim (Bool-cases (leb (n + d.offset) (length d.bytes))) [
  | inl fits ↦ (d, expand_same d n (ground arith) h, v, refl, refl, ground arith)
  | inr more ↦ (
    grown d n,
    expand-grown d n v (ground arith) h,
    record { used = omega (arith, length-grown d n v); small = omega (arith, length-grown d n v) },
    content-grown d n v,
    refl,
    omega (arith, length-grown d n v),
  )
]

-- The array after `memcpy` of `n` bytes behind those in use.
abbrev pasted : MemData → List ℕ → ℕ → List ℕ
pasted d src n = take d.offset d.bytes ++ (take n src ++ drop (d.offset + n) d.bytes)

-- What `Copy` leaves, from the buffer that has room.
abbrev copied : MemData → List ℕ → ℕ → MemData
copied d src n = record { bytes = pasted d src n; offset = n }

copied-IsValid :
    (d : MemData) (src : List ℕ) (n : ℕ)
    → IsValid d
    → n ≤ length src
    → n + d.offset ≤ length d.bytes
    → IsValid (copied d src n)
copied-IsValid d src n v h k = record {
  used = omega (arith, length-memcpy d.bytes d.offset src n h (omega arith));
  small = omega (arith, v, length-memcpy d.bytes d.offset src n h (omega arith));
}

content-copied :
    (d : MemData) (src : List ℕ) (n : ℕ)
    → IsValid d
    → n ≤ length src
    → n + d.offset ≤ length d.bytes
    → content (copied d src n) ≡ take n (content d ++ take n src)
content-copied d src n v h k =
    rw (← append_assoc (take d.offset d.bytes) (take n src) (drop (d.offset + n) d.bytes)) (
      take-append n (content d ++ take n src) _
        (omega (arith, length-append (content d) (take n src), length-take_of_le n src h)))

-- `Copy` of `n` bytes, all there, into a valid buffer, with `n` and the bytes in use below 2^32,
-- gives a valid buffer of `n` bytes in use: they are the first `n` of the old content followed by
-- the new bytes.
pub copy_lem :
    (d : MemData) (src : List ℕ) (n : ℕ)
    → IsValid d
    → n ≤ length src
    → n + d.offset < 2 ^ 32
    → (e : MemData) × (copy d src n ≡ some e)
      × (IsValid e)
      × (content e ≡ take n (content d ++ take n src))
      × (e.offset ≡ n)
unfolding copy
copy_lem d src n v h k = elim (Bool-cases (ltb (left_size d) n)) [
  | inl tight ↦
      let (e, grew, ve, same, off, room) = expand_room d n v k in
      (
        copied e src n,
        ground arith,
        copied-IsValid e src n ve h (omega arith),
        content-copied e src n ve h (omega arith) ∙ ap (λ c. take n (c ++ take n src)) same,
        refl,
      )
  | inr fits ↦
      let room : n + d.offset ≤ length d.bytes = ground arith in
      (
        copied d src n,
        ground arith,
        copied-IsValid d src n v h room,
        content-copied d src n v h room,
        refl,
      )
]

-- `Remove` of at least the bytes in use and at most the array's from a valid buffer gives a valid
-- buffer with no content, and the array is shorter by as many bytes.
pub remove_all :
    (d : MemData) (n : ℕ)
    → IsValid d
    → d.offset ≤ n
    → n ≤ length d.bytes
    → (e : MemData) × (remove d n ≡ some e)
      × (IsValid e)
      × (content e ≡ [])
      × (length e.bytes + n ≡ length d.bytes)
unfolding remove
remove_all d n v h k = (
  record { bytes = drop n d.bytes; offset = 0 },
  ground arith,
  omega (arith, v, length-drop n d.bytes),
  refl,
  omega (arith, length-drop n d.bytes),
)

-- `Remove` of fewer bytes than are in use from a valid buffer takes them from the array and
-- leaves the offset: the buffer stays valid exactly if the offset still lies in the array, and
-- else `LeftSize` wraps to at least 2^32 less what was removed.
pub remove_part :
    (d : MemData) (n : ℕ)
    → IsValid d
    → n < d.offset
    → (e : MemData) × (remove d n ≡ some e)
      × (e.offset ≡ d.offset)
      × (e.bytes ≡ drop n d.bytes)
      × (IsValid e ↔ (d.offset + n ≤ length d.bytes))
      × (length d.bytes < d.offset + n → 2 ^ 32 ≤ left_size e + n)
unfolding remove left_size
remove_part d n v h = (
  record d { bytes = drop n d.bytes },
  ground arith,
  refl,
  refl,
  (
    λ w. omega (arith, w.used, length-drop n d.bytes),
    λ k. record {
      used = omega (arith, length-drop n d.bytes);
      small = omega (arith, v, length-drop n d.bytes);
    },
  ),
  λ k. ground (arith, length-drop n d.bytes),
)
