-- ===== src/Util/Text/Digits.antt =====
-- lib/eventmgr/util.h: numbers in texts, and `DumpHex`, read back.
use cpp_coroutine.Common.{
  ℕ, zero, suc, ◌+◌, ◌-◌, ◌*◌, ◌/◌, ◌%◌, ◌^◌, ◌≡◌, ◌<◌, ◌≤◌, refl, ap, ◌∙◌, List, [], ◌∷◌, ◌++◌,
  take, some, ◌==◌, ltb, if◌then◌else◌, length, arith, Bool-cases, inl, inr, true, false, Bool,
  ◌&&◌, bit_and,
}
use cpp_coroutine.Util.Text.{digit, digits, show, dump_hex}

-- The value of a digit, and of decimal digits after a number.
abbrev pub digit_value : ℕ → ℕ
digit_value c = if ltb c 58 then c - 48 else c - 87

unfoldable pub decimal : ℕ → List ℕ → ℕ
decimal z [] = z
decimal z (c ∷ cs) = decimal (z * 10 + digit_value c) cs

abbrev ten_to : ℕ → ℕ
ten_to zero = 1
ten_to (suc k) = 10 * ten_to k

digit_value-digit : (d : ℕ) → d < 16 → digit_value (digit d) ≡ d
digit_value-digit d h = ground arith

-- What `digits` makes is read as the number.
decimal-digits :
    (fuel n : ℕ) (acc : List ℕ) → n < ten_to fuel → decimal 0 (digits fuel 10 n acc) ≡ decimal n acc
unfolding decimal digits
decimal-digits zero n acc h = ap (λ k. decimal k acc) (omega arith)
decimal-digits (suc fuel) n acc h =
    let read : digit_value (digit (n % 10)) ≡ n % 10 = digit_value-digit (n % 10) (omega arith) in
    let whole : n / 10 * 10 + digit_value (digit (n % 10)) ≡ n = omega (arith, read) in
    elim (Bool-cases (n / 10 == 0)) [
      | inl last ↦ rw last (ap (λ k. decimal k acc) (ground (arith, read)))
      | inr more ↦ rw more (
          decimal-digits fuel (n / 10) (digit (n % 10) ∷ acc) (omega arith)
          ∙ ap (λ k. decimal k acc) whole)
    ]

-- `%u` of a 32-bit number is read back.
pub decimal-show : (n : ℕ) → n < 2 ^ 32 → decimal 0 (show 10 n) ≡ n
unfolding decimal
decimal-show n h = decimal-digits 32 n [] (omega arith)

-- The bytes of a text as `DumpHex` makes it.
unfoldable pub read_hex : List ℕ → List ℕ
read_hex (z ∷ x ∷ a ∷ b ∷ []) = digit_value a ∷ []
read_hex (z ∷ x ∷ a ∷ b ∷ c ∷ rest) =
    let one = digit_value a ∷ read_hex (c ∷ rest) in
    let two = (digit_value a * 16 + digit_value b) ∷ read_hex rest in if b == 32 then one else two
read_hex _ = []

show_low : (b : ℕ) → b < 16 → show 16 b ≡ digit b ∷ []
unfolding digits
show_low b h = ground arith

show_high : (b : ℕ) → 16 ≤ b → b < 256 → show 16 b ≡ digit (b / 16) ∷ digit (b % 16) ∷ []
unfolding digits
show_high b h k = ground arith

-- All numbers of a list are bytes.
abbrev pub IsBytes : List ℕ → Type 0
IsBytes [] = Unit
IsBytes (b ∷ bs) = (b < 256) × IsBytes bs

-- A test holds below a bound.
below : (ℕ → Bool) → ℕ → Bool
below p zero = true
below p (suc n) = p n && below p n

of_below : (p : ℕ → Bool) (n b : ℕ) → below p n ≡ true → b < n → p b ≡ true
unfolding below
of_below p zero b e h = absurd (omega arith)
of_below p (suc n) b e h = ground (arith, of_below p n b)

low_byte : (b : ℕ) → b < 256 → bit_and b 255 ≡ b
unfolding below
low_byte b h = ground (arith, of_below (λ n. bit_and n 255 == n) 256 b refl h)

digit_not_space : (d : ℕ) → d < 16 → (digit d == 32) ≡ false
digit_not_space d h = ground arith

read_low :
    (b : ℕ) (rest : List ℕ)
    → b < 16
    → read_hex (48 ∷ 120 ∷ show 16 b ++ (32 ∷ rest)) ≡ b ∷ read_hex rest
unfolding read_hex
read_low b [] h = rw (show_low b h) (ap (λ k. k ∷ []) (digit_value-digit b h))
read_low b (c ∷ rest) h =
    rw (show_low b h) (ap (λ k. k ∷ read_hex (c ∷ rest)) (digit_value-digit b h))

read_high :
    (b : ℕ) (rest : List ℕ)
    → 16 ≤ b
    → b < 256
    → read_hex (48 ∷ 120 ∷ show 16 b ++ (32 ∷ rest)) ≡ b ∷ read_hex rest
unfolding read_hex
read_high b rest h k =
    let high = digit_value-digit (b / 16) (omega arith) in
    let low = digit_value-digit (b % 16) (omega arith) in
    let not_space = digit_not_space (b % 16) (omega arith) in
    let whole : digit_value (digit (b / 16)) * 16 + digit_value (digit (b % 16)) ≡ b =
      omega (arith, high, low) in
    rw (show_high b h k, not_space) (ap (λ n. n ∷ read_hex rest) whole)

show_byte :
    (b : ℕ) (rest : List ℕ)
    → b < 256
    → read_hex (48 ∷ 120 ∷ show 16 (bit_and b 255) ++ (32 ∷ rest)) ≡ b ∷ read_hex rest
show_byte b rest h = rw (low_byte b h) (elim (Bool-cases (ltb b 16)) [
  | inl less ↦ read_low b rest (ground arith)
  | inr more ↦ read_high b rest (ground arith) h
])

-- `DumpHex` of the first `len` bytes of a buffer that has them does not fault, and its text is
-- read back as these bytes.
pub dump_hex_lem :
    (src : List ℕ) (len : ℕ)
    → len ≤ length src
    → IsBytes src
    → (t : List ℕ) × (dump_hex src len ≡ some t) × (read_hex t ≡ take len src)
unfolding dump_hex read_hex
dump_hex_lem src zero h i = ([], refl, refl)
dump_hex_lem [] (suc len) h i = absurd (omega arith)
dump_hex_lem (b ∷ src) (suc len) h (small, i) =
    let (t, e, back) = dump_hex_lem src len (omega arith) i in
    (
      48 ∷ 120 ∷ show 16 (bit_and b 255) ++ (32 ∷ t),
      rw e refl,
      show_byte b t small ∙ ap (λ k. b ∷ k) back,
    )
