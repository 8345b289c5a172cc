-- ===== src/CloseConnect/Descriptors.antt =====
-- test1/close-connect-client.cpp and close-connect-server.cpp: the descriptors that stay open.
use cpp_coroutine.Common.{
  ℕ, ◌≡◌, ◌≢◌, sym, subst, ◌∙◌, Bool, true, false, List, Bool-cases, inl, inr,
}
use native.Mathlib.Decide.{ℕ_discrete}
use cpp_coroutine.Util.Text.{len_1k}
use cpp_coroutine.Common.Int.{ℤ, pos, ltb_ℤ}
use cpp_coroutine.FdMgr.{SockAddr}
use cpp_coroutine.CloseConnect.{PlainCalls, servaddr, client_text, client_main}

ℤ-discrete : Discrete ℤ
ℤ-discrete = hlevel ℕ_discrete

module _ {O : Type 0} (sys : PlainCalls O) where
  -- Which descriptors are open: `socket` and `accept` open the one that they return, if it is not
  -- negative, which was not open before, `close` closes its own, and no other call opens or closes
  -- any.
  pub record Opens (open_at : O → ℤ → Bool) : Type 0 where
    pub fresh :
        (o : O) → ltb_ℤ (sys.socket o).0 (pos 0) ≡ false → open_at o (sys.socket o).0 ≡ false
    pub opened :
        (o : O)
        → ltb_ℤ (sys.socket o).0 (pos 0) ≡ false
        → open_at (sys.socket o).1 (sys.socket o).0 ≡ true
    pub others : (o : O) (j : ℤ) → j ≢ (sys.socket o).0 → open_at (sys.socket o).1 j ≡ open_at o j
    pub failed :
        (o : O) (j : ℤ)
        → ltb_ℤ (sys.socket o).0 (pos 0) ≡ true
        → open_at (sys.socket o).1 j ≡ open_at o j
    pub closed : (fd : ℤ) (o : O) → open_at (sys.close fd o) fd ≡ false
    pub close_others : (fd : ℤ) (o : O) (j : ℤ) → j ≢ fd → open_at (sys.close fd o) j ≡ open_at o j
    pub connect_keeps :
        (fd : ℤ) (a : SockAddr) (o : O) (j : ℤ) → open_at (sys.connect fd a o) j ≡ open_at o j
    pub send_keeps :
        (fd : ℤ) (bs : List ℕ) (o : O) (j : ℤ) → open_at (sys.send fd bs o) j ≡ open_at o j
    pub recv_keeps : (fd : ℤ) (n : ℕ) (o : O) (j : ℤ) → open_at (sys.recv fd n o).1 j ≡ open_at o j
    pub sleep_keeps : (n : ℕ) (o : O) (j : ℤ) → open_at (sys.sleep n o) j ≡ open_at o j

  -- Where `socket` opens the descriptor that it returns, if it is not negative, which was not
  -- open before, `close` closes its own, and `connect`, `send`, `recv` and `sleep` open and close
  -- none: `main` of close-connect-client leaves open exactly what was open before it, also when
  -- `connect`, `send` or `recv` fails.
  pub client_main_closes :
      (open_at : O → ℤ → Bool)
      → Opens open_at
      → (o : O) (j : ℤ) → open_at (client_main sys o) j ≡ open_at o j
  unfolding client_main
  client_main_closes open_at k o j =
      let fd = (sys.socket o).0 in
      let o1 = sys.connect fd servaddr (sys.socket o).1 in
      let o2 = sys.send fd client_text o1 in
      let o3 = sys.connect fd servaddr (sys.recv fd len_1k o2).1 in
      let last = sys.sleep 10 (sys.close fd o3) in
      elim (Bool-cases (ltb_ℤ (sys.socket o).0 (pos 0))) [
        | inl none_at ↦ rw none_at (k.failed o j none_at)
        | inr some_at ↦ rw some_at (elim (ℤ-discrete j fd) [
          | yes same ↦
              subst (λ i. open_at last i ≡ open_at o i) (sym same)
                (k.sleep_keeps 10 (sys.close fd o3) fd ∙ (k.closed fd o3 ∙ sym (k.fresh o some_at)))
          | no other ↦
              k.sleep_keeps 10 (sys.close fd o3) j
              ∙ (k.close_others fd o3 j other
                  ∙ (k.connect_keeps fd servaddr (sys.recv fd len_1k o2).1 j
                      ∙ (k.recv_keeps fd len_1k o2 j
                          ∙ (k.send_keeps fd client_text o1 j
                              ∙ (k.connect_keeps fd servaddr (sys.socket o).1 j
                                  ∙ k.others o j other)))))
        ])
      ]
