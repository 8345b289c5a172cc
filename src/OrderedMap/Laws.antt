-- ===== src/OrderedMap/Laws.antt =====
-- Lookups and order of the ordered map after each change.
use cpp_coroutine.Common.{
  Bool-cases, inl, inr, subst, ltb→lt, ℕ, suc, ◌≤◌, ◌<◌, ◌≡◌, ◌≢◌, refl, [], ◌∷◌, Option, none,
  some, false, ◌==◌, ltb, if◌then◌else◌, arith,
}
use cpp_coroutine.OrderedMap.{Map, find, put, erase, after, From, IsSorted, All}

module _ {ℓ} {V : Type ℓ} where
  pub find-put :
      (j k : ℕ) (v : V) (m : Map V) → find j (put k v m) ≡ (if k == j then some v else find j m)
  unfolding find put
  find-put j k v [] = refl
  find-put j k v ((i, w) ∷ m) = ground (arith, find-put j k v m)

  pub From-mono : (lo hi : ℕ) (m : Map V) → lo ≤ hi → From hi m → From lo m
  From-mono lo hi [] h s = tt
  From-mono lo hi ((k, v) ∷ m) h s = (omega arith, s.1)

  -- Below the bound there is nothing.
  pub find_below : (k lo : ℕ) (m : Map V) → From lo m → k < lo → find k m ≡ none
  unfolding find
  find_below k lo [] s h = refl
  find_below k lo ((j, w) ∷ m) s h = ground (arith, find_below k (suc j) m s.1)

  find-erase-From :
      (lo j k : ℕ) (m : Map V)
      → From lo m
      → find j (erase k m) ≡ (if k == j then none else find j m)
  unfolding find erase
  find-erase-From lo j k [] s = ground arith
  find-erase-From lo j k ((i, w) ∷ m) s =
      ground (arith, find-erase-From (suc i) j k m s.1, find_below k (suc i) m s.1)

  pub find-erase :
      (j k : ℕ) (m : Map V) → IsSorted m → find j (erase k m) ≡ (if k == j then none else find j m)
  find-erase j k m s = find-erase-From 0 j k m s

  pub put-From : (lo k : ℕ) (v : V) (m : Map V) → lo ≤ k → From lo m → From lo (put k v m)
  unfolding put
  put-From lo k v [] h s = (h, tt)
  put-From lo k v ((j, w) ∷ m) h s = ground (arith, put-From (suc j) k v m)

  pub erase-From : (lo k : ℕ) (m : Map V) → From lo m → From lo (erase k m)
  unfolding erase
  erase-From lo k [] s = tt
  erase-From lo k ((j, w) ∷ m) s =
      ground (arith, erase-From (suc j) k m s.1, From-mono lo (suc j) m)

  pub put-IsSorted : (k : ℕ) (v : V) (m : Map V) → IsSorted m → IsSorted (put k v m)
  put-IsSorted k v m s = put-From 0 k v m (omega arith) s

  pub erase-IsSorted : (k : ℕ) (m : Map V) → IsSorted m → IsSorted (erase k m)
  erase-IsSorted k m s = erase-From 0 k m s

module _ {ℓ κ} {V : Type ℓ} (P : ℕ → V → Type κ) where
  pub All-find : (k : ℕ) (m : Map V) {v : V} → All P m → find k m ≡ some v → P k v
  unfolding find
  All-find k [] f e = cc
  All-find k ((j, w) ∷ m) f e = elim (Bool-cases (j == k)) [
    | inl same ↦ subst (P k) (ground arith) (subst (λ i. P i w) (ground arith) f.0)
    | inr other ↦ All-find k m f.1 (ground arith)
  ]

  pub All-put : (k : ℕ) (v : V) (m : Map V) → P k v → All P m → All P (put k v m)
  unfolding put
  All-put k v [] p f = (p, tt)
  All-put k v ((j, w) ∷ m) p f = ground (arith, All-put k v m p f.1)

  pub All-erase : (k : ℕ) (m : Map V) → All P m → All P (erase k m)
  unfolding erase
  All-erase k [] f = tt
  All-erase k ((j, w) ∷ m) f = ground (arith, All-erase k m f.1)

  -- A property of what each key reads is one of every entry.
  pub All-of_find :
      (lo : ℕ) (m : Map V) → From lo m → ((k : ℕ) (v : V) → find k m ≡ some v → P k v) → All P m
  unfolding find
  All-of_find lo [] s h = tt
  All-of_find lo ((j, w) ∷ m) s h = (
    h j w (ground arith),
    All-of_find (suc j) m s.1 (λ k v e. h k v (ground (arith, find_below k (suc j) m s.1))),
  )

module _ {ℓ} {V : Type ℓ} where
  pub put-ne-nil : (k : ℕ) (v : V) (m : Map V) → put k v m ≢ []
  unfolding put
  put-ne-nil k v [] = λ e. cc
  put-ne-nil k v ((j, w) ∷ m) = λ e. ground arith

module _ {ℓ} {V : Type ℓ} where
  -- The next key lies behind, is in the map, and leaves out none.
  abbrev pub IsNext : ℕ → Option ℕ → Map V → Type ℓ
  IsNext k none m = (i : ℕ) → k < i → find i m ≡ none
  IsNext k (some j) m =
      (k < j) × ((v : V) × (find j m ≡ some v)) × ((i : ℕ) → k < i → i < j → find i m ≡ none)

  after-IsNext-From : (lo k : ℕ) (m : Map V) → From lo m → IsNext k (after k m) m
  unfolding find after
  after-IsNext-From lo k [] s = λ i h. refl
  after-IsNext-From lo k ((j, w) ∷ m) s = elim (Bool-cases (ltb k j)) [
    | inl here ↦
        rw here
          (ltb→lt k j here, (w, ground arith), λ i h l. ground (arith, find_below i (suc j) m s.1))
    | inr past ↦ rw past (later past (after k m) (after-IsNext-From (suc j) k m s.1))
  ]
    where
      later : ltb k j ≡ false → (r : Option ℕ) → IsNext k r m → IsNext k r ((j, w) ∷ m)
      later past none n = λ i h. ground (arith, n i h)
      later past (some x) n = (
        n.0,
        (n.1.0, ground (arith, n.1.1, find_below x (suc j) m s.1)),
        λ i h l. ground (arith, n.2 i h l),
      )

  pub after-IsNext : (k : ℕ) (m : Map V) → IsSorted m → IsNext k (after k m) m
  after-IsNext k m s = after-IsNext-From 0 k m s
