-- ===== src/HeadPkg/Prefix.antt =====
-- pb/head.h: `Check`, `Decode` and `Seq` on a buffer that holds more than the package.
use cpp_coroutine.Common.{
  ℕ, zero, suc, ◌-◌, ◌≡◌, ◌≤◌, refl, ap, sym, ◌∙◌, List, [], ◌∷◌, ◌++◌, some, length, take, drop,
  arith, length-append, take-append,
}
use cpp_coroutine.HeadPkg.{Protobuf, read_u32, check, decode, seq}

take-drop_front : (n : ℕ) (l : List ℕ) → take n l ++ drop n l ≡ l
take-drop_front zero l = refl
take-drop_front (suc n) [] = refl
take-drop_front (suc n) (a ∷ l) = ap (◌∷◌ a) (take-drop_front n l)

-- A buffer that starts with a package is the package and the rest.
pub front_split : (src bytes : List ℕ) (n : ℕ) → take n bytes ≡ src → src ++ drop n bytes ≡ bytes
front_split src bytes n h = ap (λ l. l ++ drop n bytes) (sym h) ∙ take-drop_front n bytes

drop_more :
    (src rest : List ℕ)
    → 4 ≤ length src
    → take (length src - 4) (drop 4 (src ++ rest)) ≡ take (length src - 4) (drop 4 src)
drop_more (a ∷ b ∷ c ∷ d ∷ src) rest h =
    take-append (suc (suc (suc (suc (length src)))) - 4) src rest (omega arith)
drop_more [] rest h = absurd (omega arith)
drop_more (a ∷ []) rest h = absurd (omega arith)
drop_more (a ∷ b ∷ []) rest h = absurd (omega arith)
drop_more (a ∷ b ∷ c ∷ []) rest h = absurd (omega arith)

pub check_more : (src rest : List ℕ) (n : ℕ) → 4 ≤ length src → check (src ++ rest) n ≡ check src n
unfolding check read_u32
check_more (a ∷ b ∷ c ∷ d ∷ src) rest n h = refl
check_more [] rest n h = absurd (omega arith)
check_more (a ∷ []) rest n h = absurd (omega arith)
check_more (a ∷ b ∷ []) rest n h = absurd (omega arith)
check_more (a ∷ b ∷ c ∷ []) rest n h = absurd (omega arith)

module _ (pb : Protobuf) where
  decode_at :
      (src : List ℕ) (n : ℕ)
      → 4 ≤ n
      → n ≤ length src
      → decode pb src n ≡ some (pb.parse (take (n - 4) (drop 4 src)))
  unfolding decode
  decode_at src n h k = ground arith

  pub decode_more :
      (src rest : List ℕ)
      → 4 ≤ length src
      → decode pb (src ++ rest) (length src) ≡ decode pb src (length src)
  decode_more src rest h =
      decode_at (src ++ rest) (length src) h (omega (arith, length-append src rest))
      ∙ (ap (λ l. some (pb.parse l)) (drop_more src rest h)
          ∙ sym (decode_at src (length src) h (omega arith)))

  pub seq_more :
      (src rest : List ℕ)
      → 4 ≤ length src
      → seq pb (src ++ rest) (length src) ≡ seq pb src (length src)
  unfolding seq
  seq_more src rest h = rw (check_more src rest (length src) h, decode_more src rest h) refl
