-- ===== src/Examples/Packages.antt =====
-- The packages that the programs of test1 and test2 send.
use cpp_coroutine.Common.{
  ℕ, ◌+◌, ◌%◌, ◌^◌, ◌≡◌, ◌≤◌, ◌<◌, refl, ap, ◌∙◌, sym, List, drop, take, length, Option, some,
  arith,
}
use cpp_coroutine.Common.Int.{ℤ, pos, to_int}
use cpp_coroutine.HeadPkg.{Head, Protobuf, HeadPkg, check, decode, seq, encode, set_data}
use cpp_coroutine.HeadPkg.RoundTrip.{encode_roundtrip}
use cpp_coroutine.HeadPkg.Prefix.{front_split, check_more, decode_more, seq_more}
use cpp_coroutine.Examples.{App, encode_next}

-- The functions of `HeadPkg`, at any address.
abbrev pub checks : ℕ → List ℕ → ℕ → Option ℤ
checks f = check

abbrev pub seqs : Protobuf → ℕ → List ℕ → ℕ → Option ℤ
seqs pb f = seq pb

module _ (pb : Protobuf) where
  -- The message with a number and a text.
  abbrev pub numbered : ℕ → List ℕ → Head
  numbered id bytes = record { seq = some id; body = some bytes }

  -- A whole package with such a message.
  pub record IsPackage (src : List ℕ) (id : ℕ) (bytes : List ℕ) : Type 0 where
    pub whole : check src (length src) ≡ some (pos (length src))
    pub decoded : decode pb src (length src) ≡ some (some (numbered id bytes))
    pub known : seq pb src (length src) ≡ some (to_int id)
    pub four : 4 ≤ length src

  -- The number after `id`.
  abbrev pub next_id : ℕ → ℕ
  next_id id = (id + 1) % 2 ^ 32

  -- `SetData` and `Encode` give a package with the next number, whatever number was there.
  pub encode_next_lem :
      {O : Type 0} (p : HeadPkg) (bytes : List ℕ) (w : App O)
      → length (pb.serialize (numbered (next_id w.id) bytes)) + 4 < 2 ^ 31
      → let r = encode_next pb (set_data p bytes) w in
        IsPackage r.0.packed (next_id w.id) bytes
        × (r.0.head ≡ numbered (next_id w.id) bytes)
        × (r.1 ≡ record w { id = next_id w.id })
  unfolding encode_next set_data encode
  encode_next_lem p bytes w small =
      let (whole, decoded, known, _) = encode_roundtrip pb (set_data p bytes) w.id small in
      (record { whole = whole; decoded = decoded; known = known; four = omega arith }, refl, refl)

  -- A buffer that starts with a package.
  pub check_front :
      (src bytes : List ℕ) (id : ℕ) (text : List ℕ)
      → IsPackage src id text
      → take (length src) bytes ≡ src
      → check bytes (length src) ≡ some (pos (length src))
  check_front src bytes id text i h =
      ap (λ l. check l (length src)) (sym (front_split src bytes (length src) h))
      ∙ (check_more src (drop (length src) bytes) (length src) i.four ∙ i.whole)

  pub decode_front :
      (src bytes : List ℕ) (id : ℕ) (text : List ℕ)
      → IsPackage src id text
      → take (length src) bytes ≡ src
      → decode pb bytes (length src) ≡ some (some (numbered id text))
  decode_front src bytes id text i h =
      ap (λ l. decode pb l (length src)) (sym (front_split src bytes (length src) h))
      ∙ (decode_more pb src (drop (length src) bytes) i.four ∙ i.decoded)

  pub seq_front :
      (src bytes : List ℕ) (id : ℕ) (text : List ℕ)
      → IsPackage src id text
      → take (length src) bytes ≡ src
      → seq pb bytes (length src) ≡ some (to_int id)
  seq_front src bytes id text i h =
      ap (λ l. seq pb l (length src)) (sym (front_split src bytes (length src) h))
      ∙ (seq_more pb src (drop (length src) bytes) i.four ∙ i.known)
