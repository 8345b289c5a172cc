-- ===== src/HeadPkg.antt =====
-- pb/head.h, head.cpp and the message `Head` of testpb.proto: a package is the length of the
-- message in network order and the message. The protobuf code that parses and prints the message is
-- an argument. `none` is a read outside the buffer.
pub mod RoundTrip
pub mod Prefix
use cpp_coroutine.Common.{
  ℕ, ◌+◌, ◌-◌, ◌*◌, ◌/◌, ◌%◌, ◌^◌, ◌≡◌, ◌<◌, List, [], ◌∷◌, ◌++◌, Option, none, some, ◌==◌, ltb,
  leb, if◌then◌else◌, length, take, drop,
}
use cpp_coroutine.Common.Int.{ℤ, pos, negsuc, ltb_ℤ, to_int}

-- The message `pbtest::Head`; its fields are optional.
pub record Head : Type 0 where
  pub seq : Option ℕ
  pub body : Option (List ℕ)

-- `ParseFromArray` and `SerializeToString`.
pub record Protobuf : Type 0 where
  pub parse : List ℕ → Option Head
  pub serialize : Head → List ℕ
  pub parse_serialize : (h : Head) → parse (serialize h) ≡ some h

-- An accessor of protobuf gives 0 for a number that is not set.
abbrev pub seq_of : Head → ℕ
seq_of h = elim h.seq [ none ↦ 0 | some n ↦ n ]

-- `HeadPkg`; `id` is the static counter.
pub record HeadPkg : Type 0 where
  pub head : Head
  pub packed : List ℕ

-- `ntohl(*(uint32_t*)src)`
unfoldable pub read_u32 : List ℕ → Option ℕ
read_u32 (a ∷ b ∷ c ∷ d ∷ rest) = some (((a * 256 + b) * 256 + c) * 256 + d)
read_u32 _ = none

-- The bytes of `htonl(len)`.
unfoldable pub write_u32 : ℕ → List ℕ
write_u32 n = n / 2 ^ 24 % 256 ∷ n / 2 ^ 16 % 256 ∷ n / 2 ^ 8 % 256 ∷ n % 256 ∷ []

infixl 5 ◌>>=◌
abbrev pub ◌>>=◌ {ℓ κ} : {A : Type ℓ} {B : Type κ} → Option A → (A → Option B) → Option B
none >>= f = none
some a >>= f = f a

-- `Check`: the bytes at `src`, and how many of them are in use.
unfoldable pub check : List ℕ → ℕ → Option ℤ
unfolding read_u32
check src len =
    if len == 0
    then some (pos 0)
    else (do reallen ← read_u32 src; some (if ltb len reallen then pos 0 else to_int (reallen + 4)))

module _ (pb : Protobuf) where
  -- `Decode`, into the message of a package: `none` outside is a fault, inside a refusal.
  unfoldable pub decode : List ℕ → ℕ → Option (Option Head)
  decode src len =
      if len == 0
      then some none
      else if ltb len 4
      then none
      else if leb len (length src)
      then some (pb.parse (take (len - 4) (drop 4 src)))
      else none

  -- `Seq`
  unfoldable pub seq : List ℕ → ℕ → Option ℤ
  unfolding check decode
  seq src len = do
    size ← check src len
    let number = decode src len >>= λ parsed.
        some (elim parsed as (λ _. ℤ) [ none ↦ negsuc 1 | some h ↦ to_int (seq_of h) ])
    if ltb_ℤ size (pos 1) then some (negsuc 0) else number

  -- `Encode`: the package and the counter after it.
  unfoldable pub encode : HeadPkg → ℕ → HeadPkg × ℕ
  unfolding write_u32
  encode p id =
      let id' = (id + 1) % 2 ^ 32 in
      let h : Head = record (p.head) { seq = some id' } in
      let message = pb.serialize h in
      (record { head = h; packed = write_u32 (length message % 2 ^ 32) ++ message }, id')

-- `SetData`
unfoldable pub set_data : HeadPkg → List ℕ → HeadPkg
set_data p bytes = record p { head = record (p.head) { body = some bytes } }
