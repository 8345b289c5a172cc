-- ===== src/Examples/Client/Lost.antt =====
-- test1/main1.cpp and test2/main2.cpp: each side counts its packages by itself, and an answer has the
-- number of the side that sends it.
use cpp_coroutine.Common.{ℕ, ◌^◌, ◌≡◌, ◌≢◌, refl, ◌≤◌, ◌<◌, List, ◌∷◌, length, some, none, arith}
use cpp_coroutine.Common.Int.{pos, to_int}
use cpp_coroutine.OrderedMap.{find}
use cpp_coroutine.OrderedMap.Laws.{find-put}
use cpp_coroutine.Util.{io_err}
use cpp_coroutine.Util.MemData
use cpp_coroutine.FdKey.{FdKey}
use cpp_coroutine.FdMgr.{FdData, SendRecv}
use cpp_coroutine.FdMgr.Nodes.{load}
use cpp_coroutine.CoroutineMgr.{Sys}
use cpp_coroutine.HeadPkg.{Protobuf}
use cpp_coroutine.EventMgr.Receive.{received, def_recv_size}
use cpp_coroutine.EventMgr.Net.{Calls, Net}
use cpp_coroutine.EventMgr.Handlers.{seq_key, do_read_tcp}
use cpp_coroutine.EventMgr.Connect.{sendrecv_at}
use cpp_coroutine.EventMgr.Connect.Steps.{entered}
use cpp_coroutine.EventMgr.Kept.{IsSameSched}
use cpp_coroutine.EventMgr.Unknown.{read_unknown}
use cpp_coroutine.Examples.Packages.{checks, seqs, IsPackage, next_id, check_front, seq_front}

-- Different numbers have different keys, also those that are negative as an `int`.
key_apart : (a b : ℕ) → a < 2 ^ 32 → b < 2 ^ 32 → a ≢ b → seq_key (to_int a) ≢ seq_key (to_int b)
key_apart a b ha hb n h = ground arith

module _ {O : Type 0} (sys : Calls O) (pb : Protobuf) where
  other_number :
      (id c k : ℕ) (d : FdData)
      → c < 2 ^ 32
      → k < 2 ^ 32
      → c ≢ k
      → find (seq_key (to_int (next_id pb k))) d.seq_to_coroutine ≡ none
      → find
          (seq_key (to_int (next_id pb k)))
          (entered sys id (to_int (next_id pb c)) d).seq_to_coroutine
        ≡ none
  other_number id c k d hc hk n absent =
      let z = to_int (next_id pb c) in
      let sr : SendRecv = sendrecv_at z d.seq_to_coroutine in
      let apart =
        key_apart (next_id pb c) (next_id pb k) (omega arith) (omega arith) (λ h. omega arith) in
      ground (
        arith,
        find-put (seq_key (to_int (next_id pb k))) (seq_key z)
            (record sr { id = id; recv_data = MemData.clear sr.recv_data }) d.seq_to_coroutine,
        apart,
      )

  -- A call is entered under the number after the counter `c` of the asking program. When the
  -- answer comes with the number after another counter `k` of the answering one, both below 2^32,
  -- and no call of the connection has that number, `DoReadTcp` returns `IO_ERR`: the answer is
  -- dropped, the socket is no longer watched, and neither the coroutine that waits for it nor its
  -- timer nor the table changes.
  pub answer_lost :
      (n b id c k : ℕ) (bs bytes : List ℕ) (p : FdKey) (s : Sys (Net O)) (d : FdData)
      → c < 2 ^ 32
      → k < 2 ^ 32
      → c ≢ k
      → load p s.world.fds ≡ some (entered sys id (to_int (next_id pb c)) d)
      → find (seq_key (to_int (next_id pb k))) d.seq_to_coroutine ≡ none
      → d.check ≢ 0
      → d.seq ≢ 0
      → (sys.recv (pos n) def_recv_size s.world.os).0 ≡ received (b ∷ bs)
      → length (b ∷ bs) ≤ def_recv_size
      → IsPackage pb (b ∷ bs) (next_id pb k) bytes
      → (t : Sys (Net O)) × (do_read_tcp sys checks (seqs pb) (pos n) p s ≡ some (io_err, t))
        × IsSameSched s t
        × (t.world.os ≡ (sys.epoll_del d.fd (sys.recv (pos n) def_recv_size s.world.os).1).1)
        × (t.world.fds ≡ s.world.fds)
  answer_lost n b id c k bs bytes p s d hc hk ne at absent chk hs got fits i =
      read_unknown sys checks (seqs pb) n b (length (b ∷ bs)) bs p s
        (entered sys id (to_int (next_id pb c)) d) (to_int (next_id pb k)) at refl chk hs got fits
        (λ src h. (
          check_front pb (b ∷ bs) src (next_id pb k) bytes i h,
          seq_front pb (b ∷ bs) src (next_id pb k) bytes i h,
        ))
        (omega arith) (other_number id c k d hc hk ne absent)
