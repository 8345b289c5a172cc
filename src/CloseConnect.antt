-- ===== src/CloseConnect.antt =====
-- test1/close-connect-client.cpp and close-connect-server.cpp: two programs on plain sockets, which
-- show what a connection does that its peer closes. The calls of the system are arguments. `none` is
-- a read outside an array.
pub mod Reads
pub mod Descriptors
use cpp_coroutine.Common.{
  ℕ, Bool, List, [], ◌∷◌, ◌++◌, Option, none, some, length, take, drop, replicate, ◌==◌,
  if◌then◌else◌, not,
}
use cpp_coroutine.Common.Int.{ℤ, pos, ltb_ℤ}
use cpp_coroutine.FdMgr.{SockAddr}
use cpp_coroutine.CoroutineMgr.{◌>>=◌}
use cpp_coroutine.Fd.Sockets.{htons, is_zero, is_minus_one}
use cpp_coroutine.Util.Text.{len_1k}

-- The calls, with the `int` or `ssize_t` that each returns where the programs use it; `recv` gives
-- the bytes that it has stored, `none` for -1.
pub record PlainCalls (O : Type 0) : Type 0 where
  pub socket : O → ℤ × O
  pub reuse_addr : ℤ → O → O
  pub connect : ℤ → SockAddr → O → O
  pub bind : ℤ → SockAddr → O → ℤ × O
  pub listen : ℤ → ℕ → O → ℤ × O
  pub accept : ℤ → O → ℤ × O
  pub send : ℤ → List ℕ → O → O
  pub recv : ℤ → ℕ → O → Option (List ℕ) × O
  pub close : ℤ → O → O
  pub sleep : ℕ → O → O

-- 0.0.0.0, port 30000
abbrev pub servaddr : SockAddr
servaddr = record { s_addr = 0; sin_port = htons 30000 }

-- "12312321313" with its end.
abbrev pub client_text : List ℕ
client_text = 49 ∷ 50 ∷ 51 ∷ 49 ∷ 50 ∷ 51 ∷ 50 ∷ 49 ∷ 51 ∷ 49 ∷ 51 ∷ 0 ∷ []

-- "12321321" with its end.
abbrev pub server_text : List ℕ
server_text = 49 ∷ 50 ∷ 51 ∷ 50 ∷ 49 ∷ 51 ∷ 50 ∷ 49 ∷ 0 ∷ []

-- `buf` after `recv` into it.
abbrev pub stored : Option (List ℕ) → List ℕ → List ℕ
stored none buf = buf
stored (some bytes) buf = bytes ++ drop (length bytes) buf

-- What `%s` reads: the bytes before the first 0.
unfoldable pub c_text : List ℕ → Option (List ℕ)
c_text [] = none
c_text (b ∷ bs) = let rest = c_text bs in if b == 0 then some [] else (do s ← rest; some (b ∷ s))

module _ {O : Type 0} (sys : PlainCalls O) where
  -- `main` of the client, which returns 0 whatever happens.
  unfoldable pub client_main : O → O
  client_main o =
      let (fd, o1) = sys.socket o in
      if ltb_ℤ fd (pos 0)
      then o1
      else (let o2 = sys.send fd client_text (sys.connect fd servaddr o1) in
          let o3 = (sys.recv fd len_1k o2).1 in
          sys.sleep 10 (sys.close fd (sys.connect fd servaddr o3)))

  -- `main` of the server from `accept` on.
  unfoldable pub serve : ℤ → O → Option O
  serve fd o = do
    let (client, o1) = sys.accept fd o
    let (got, o2) = sys.recv client len_1k o1
    _ ← c_text (stored got (replicate len_1k 0))
    let o3 = sys.close client (sys.sleep 10 o2)
    let o4 = sys.send client (take 6 server_text) o3
    some (sys.sleep 10 (sys.accept fd o4).1)

  -- `main` of the server.
  unfoldable pub server_main : O → Option O
  unfolding serve
  server_main o =
      let (fd, o1) = sys.socket o in
      if ltb_ℤ fd (pos 0)
      then some o1
      else (let (bound, o2) = sys.bind fd servaddr (sys.reuse_addr fd o1) in
          if is_minus_one bound
          then some o2
          else (let (ret, o3) = sys.listen fd 10 o2 in
              if not (is_zero ret) then some o3 else serve fd o3))
