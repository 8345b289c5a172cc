-- ===== src/HeadPkg/RoundTrip.antt =====
-- pb/head.h: `Check`, `Decode` and `Seq` on a package that `Encode` made, or on a part of one.
use cpp_coroutine.Common.{
  ℕ, ◌+◌, ◌*◌, ◌/◌, ◌%◌, ◌^◌, ◌≡◌, ◌<◌, ◌≤◌, refl, ap, ◌∙◌, List, ◌++◌, some, ltb, if◌then◌else◌,
  length, drop, arith, ◌⊎◌, inl, inr, Bool-cases, take_of_length-eq,
}
use cpp_coroutine.Common.Int.{pos, to_int}
use cpp_coroutine.HeadPkg.{
  Head, Protobuf, HeadPkg, seq_of, read_u32, write_u32, check, decode, seq, encode,
}

u32_split :
    (n : ℕ)
    → n < 2 ^ 32
    → ((n / 2 ^ 24 % 256 * 256 + n / 2 ^ 16 % 256) * 256 + n / 2 ^ 8 % 256) * 256 + n % 256 ≡ n
u32_split n h = omega arith

-- The length that is written is read back, also with the rest of the package behind it cut.
read_u32-write_u32 : (n : ℕ) (rest : List ℕ) → n < 2 ^ 32 → read_u32 (write_u32 n ++ rest) ≡ some n
unfolding read_u32 write_u32
read_u32-write_u32 n rest h = ap some (u32_split n h)

-- The value of `Check` on the first bytes of a package.
pub check_prefix :
    (n len : ℕ) (rest : List ℕ)
    → 0 < len
    → n + 4 < 2 ^ 31
    → check (write_u32 n ++ rest) len ≡ some (if ltb len n then pos 0 else pos (n + 4))
unfolding check
check_prefix n len rest h k = ground (arith, read_u32-write_u32 n rest)

-- Of a package with a message of `n` bytes, n + 4 below 2^31, of which `len` bytes have come, at
-- least the four that hold its length, `Check` asks for more as long as `len` is below `n`; from
-- `n` on it gives n + 4, also while up to four bytes are missing.
pub check_cut :
    (n len : ℕ) (rest : List ℕ)
    → 4 ≤ len
    → n + 4 < 2 ^ 31
    → ((len < n) × (check (write_u32 n ++ rest) len ≡ some (pos 0)))
      ⊎ (((n ≤ len) × (len < n + 4) × (check (write_u32 n ++ rest) len ≡ some (pos (n + 4))))
          ⊎ ((n + 4 ≤ len) × (check (write_u32 n ++ rest) len ≡ some (pos (n + 4)))))
check_cut n len rest h k =
    let come : 0 < len = omega (arith, h) in
    elim (Bool-cases (ltb len n)) [
      | inl less ↦ inl (ground arith, rw (check_prefix n len rest come k, less))
      | inr more ↦ elim (Bool-cases (ltb len (n + 4))) [
        | inl cut ↦
            inr (inl (ground arith, ground arith, rw (check_prefix n len rest come k, more)))
        | inr whole ↦ inr (inr (ground arith, rw (check_prefix n len rest come k, more)))
      ]
    ]

length-write_u32 : (n : ℕ) (rest : List ℕ) → length (write_u32 n ++ rest) ≡ 4 + length rest
unfolding write_u32
length-write_u32 n rest = omega arith

drop-write_u32 : (n : ℕ) (rest : List ℕ) → drop 4 (write_u32 n ++ rest) ≡ rest
unfolding write_u32
drop-write_u32 n rest = refl

module _ (pb : Protobuf) where
  decode_message :
      (n : ℕ) (message : List ℕ)
      → length message ≡ n
      → decode pb (write_u32 n ++ message) (n + 4) ≡ some (pb.parse message)
  unfolding decode
  decode_message n message h =
      ground
        (arith, length-write_u32 n message, drop-write_u32 n message, take_of_length-eq n message h)

  seq_message :
      (n : ℕ) (message : List ℕ) (h : Head)
      → length message ≡ n
      → n + 4 < 2 ^ 31
      → pb.parse message ≡ some h
      → seq pb (write_u32 n ++ message) (n + 4) ≡ some (to_int (seq_of h))
  unfolding seq
  seq_message n message h l room e =
      ground (arith, check_prefix n (n + 4) message, decode_message n message l)

  -- If the package with its message is shorter than 2^31 bytes, what `Encode` leaves passes
  -- `Check` with its whole size, decodes to the message with the next number, and `Seq` gives
  -- that number.
  pub encode_roundtrip :
      (p : HeadPkg) (id : ℕ)
      → let r = encode pb p id in
        let src = r.0.packed in
        length (pb.serialize r.0.head) + 4 < 2 ^ 31
        → (check src (length src) ≡ some (pos (length src)))
          × (decode pb src (length src) ≡ some (some (r.0.head)))
          × (seq pb src (length src) ≡ some (to_int r.1))
          × (r.1 ≡ (id + 1) % 2 ^ 32)
  unfolding encode
  encode_roundtrip p id h =
      let head' : Head = record (p.head) { seq = some ((id + 1) % 2 ^ 32) } in
      let message : List ℕ = pb.serialize head' in
      let n : ℕ = length message in
      let whole : n % 2 ^ 32 ≡ n = omega arith in
      let all : 4 + n ≡ n + 4 = omega arith in
      rw (whole, length-write_u32 n message, all)
        (
          ground (arith, check_prefix n (n + 4) message),
          decode_message n message refl ∙ ap some (pb.parse_serialize head'),
          seq_message n message head' refl h (pb.parse_serialize head'),
          refl,
        )
