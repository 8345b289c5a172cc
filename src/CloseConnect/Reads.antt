-- ===== src/CloseConnect/Reads.antt =====
-- test1/close-connect-server.cpp: the text that the server prints.
use cpp_coroutine.Common.{
  ℕ, zero, suc, ◌≡◌, ◌≢◌, ◌≤◌, ◌↔◌, inl, inr, refl, ap, sym, subst, ◌∙◌, false, true, List, [], ◌∷◌,
  ◌++◌, Option, none, some, length, drop, replicate, ◌==◌, Bool-cases, Option-cases, arith,
}
use cpp_coroutine.Common.Int.{ℤ, pos, ltb_ℤ}
use cpp_coroutine.Fd.Sockets.{is_zero, is_minus_one}
use cpp_coroutine.Util.Text.{len_1k}
use cpp_coroutine.CloseConnect.{PlainCalls, servaddr, stored, c_text, serve, server_main}

-- No byte is 0.
abbrev pub NoEnd : List ℕ → Type 0
NoEnd [] = Unit
NoEnd (b ∷ bs) = (b ≢ 0) × NoEnd bs

-- `%s` reads past the end exactly where no byte is 0.
NoEnd-of_none : (l : List ℕ) → c_text l ≡ none → NoEnd l
unfolding c_text
NoEnd-of_none [] e = tt
NoEnd-of_none (b ∷ bs) e = elim (Bool-cases (b == 0)) [
  | inl last ↦ absurd (ground (arith, last))
  | inr more ↦ elim (Option-cases (c_text bs)) [
    | inl missing ↦ ((λ z. ground arith), NoEnd-of_none bs missing)
    | inr (t, found) ↦ absurd (ground (arith, more, found))
  ]
]

none_of_NoEnd : (l : List ℕ) → NoEnd l → c_text l ≡ none
unfolding c_text
none_of_NoEnd [] h = refl
none_of_NoEnd (b ∷ bs) h = ground (arith, none_of_NoEnd bs h.1)

NoEnd-append : (a b : List ℕ) → NoEnd (a ++ b) ↔ (NoEnd a × NoEnd b)
NoEnd-append [] b = ((λ h. (tt, h)), (λ h. h.1))
NoEnd-append (x ∷ a) b =
    let r = NoEnd-append a b in
    ((λ h. ((h.0, (r.0 h.1).0), (r.0 h.1).1)), (λ h. (h.0.0, r.1 (h.0.1, h.1))))

-- Behind the bytes stand zeros, unless the array is full.
NoEnd-rest : (n m : ℕ) → n ≤ m → NoEnd (drop n (replicate m 0)) ↔ (n ≡ m)
NoEnd-rest zero zero h = ((λ u. refl), (λ e. tt))
NoEnd-rest zero (suc m) h = ((λ u. absurd (u.0 refl)), (λ e. absurd (omega arith)))
NoEnd-rest (suc n) zero h = absurd (omega arith)
NoEnd-rest (suc n) (suc m) h =
    let r = NoEnd-rest n m (omega arith) in ((λ u. ap suc (r.0 u)), (λ e. r.1 (omega arith)))

-- The bytes fill an array of `LEN_1K` without a 0.
abbrev pub Full : Option (List ℕ) → Type 0
Full got = (bytes : List ℕ) × (got ≡ some bytes) × (length bytes ≡ len_1k) × NoEnd bytes

stored-Full :
    (got : Option (List ℕ))
    → ((bytes : List ℕ) → got ≡ some bytes → length bytes ≤ len_1k)
    → (c_text (stored got (replicate len_1k 0)) ≡ none) ↔ Full got
stored-Full none fits =
    ((λ e. absurd ((NoEnd-of_none (replicate len_1k 0) e).0 refl)), (λ h. absurd (cc (h.1))))
stored-Full (some bytes) fits =
    let split = NoEnd-append bytes (drop (length bytes) (replicate len_1k 0)) in
    let tail = NoEnd-rest (length bytes) len_1k (fits bytes refl) in
    (
      (λ e. let h = split.0 (NoEnd-of_none _ e) in (bytes, refl, tail.0 h.1, h.0)),
      (λ h. none_of_NoEnd _ (split.1 (filled bytes h))),
    )
  where
    filled :
        (bytes : List ℕ)
        → Full (some bytes)
        → NoEnd bytes × NoEnd (drop (length bytes) (replicate len_1k 0))
    filled bytes (other, e, n, h) =
        let same : other ≡ bytes = cc in
        let full : length bytes ≡ len_1k = ap length (sym same) ∙ n in
        (subst NoEnd same h, (NoEnd-rest (length bytes) len_1k (omega arith)).1 full)

module _ {O : Type 0} (sys : PlainCalls O) where
  -- The state in which `main` calls `accept`, and how it comes there.
  abbrev bound_at : O → ℤ × O
  bound_at o = sys.bind (sys.socket o).0 servaddr (sys.reuse_addr (sys.socket o).0 (sys.socket o).1)

  abbrev listens_at : O → ℤ × O
  listens_at o = sys.listen (sys.socket o).0 10 (bound_at o).1

  abbrev pub Listens : O → Type 0
  Listens o =
      (ltb_ℤ (sys.socket o).0 (pos 0) ≡ false)
      × (is_minus_one (bound_at o).0 ≡ false)
      × (is_zero (listens_at o).0 ≡ true)

  -- What the first client sends.
  abbrev pub first_bytes : O → Option (List ℕ)
  first_bytes o =
      let r = sys.accept (sys.socket o).0 (listens_at o).1 in (sys.recv r.0 len_1k r.1).0

  serve-none :
      (fd : ℤ) (o : O)
      → let r = sys.accept fd o in
        (serve sys fd o ≡ none)
        ↔ (c_text (stored (sys.recv r.0 len_1k r.1).0 (replicate len_1k 0)) ≡ none)
  unfolding serve
  serve-none fd o = ground arith

  main_serves :
      (o : O) → Listens o → server_main sys o ≡ serve sys (sys.socket o).0 (listens_at o).1
  unfolding server_main
  main_serves o (a, b, c) = rw (a, b, c)

  main_ends : (o : O) → server_main sys o ≡ none → Listens o
  unfolding server_main
  main_ends o e = ground arith

  -- For a `recv` that stores at most what it has room for, `main` of close-connect-server reads
  -- outside its array exactly if it comes to listen and the first client sends `LEN_1K` bytes at
  -- once with no 0 among them; in all other cases it comes to its end.
  pub server_main_faults :
      (o : O)
      → ((fd : ℤ) (room : ℕ) (w : O) (bytes : List ℕ)
          → (sys.recv fd room w).0 ≡ some bytes
          → length bytes ≤ room)
      → (server_main sys o ≡ none) ↔ (Listens o × Full (first_bytes o))
  server_main_faults o fits =
      let fd = (sys.socket o).0 in
      let serving = serve-none fd (listens_at o).1 in
      let r = sys.accept fd (listens_at o).1 in
      let full = stored-Full (first_bytes o) (λ bytes e. fits r.0 len_1k r.1 bytes e) in
      (
        (λ e. let l = main_ends o e in (l, full.0 (serving.0 (sym (main_serves o l) ∙ e)))),
        (λ h. main_serves o h.0 ∙ serving.1 (full.1 h.1)),
      )
