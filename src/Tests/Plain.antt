-- ===== src/Tests/Plain.antt =====
-- The programs on plain sockets, on a system that counts its descriptors up.
use cpp_coroutine.Common.{
  ℕ, zero, suc, ◌+◌, ◌≡◌, ◌≢◌, ◌≤◌, ◌↔◌, refl, Bool, true, false, not, ◌&&◌, ltb, ◌==◌,
  if◌then◌else◌, List, [], ◌∷◌, none, some, take, length, arith,
}
use cpp_coroutine.Common.Int.{ℤ, pos, negsuc}
use cpp_coroutine.CloseConnect.{PlainCalls, client_main, server_main, serve, c_text}
use cpp_coroutine.CloseConnect.Reads.{Listens, Full, first_bytes, server_main_faults}
use cpp_coroutine.CloseConnect.Descriptors.{Opens, client_main_closes}

-- The next descriptor, and those that are closed.
record Os : Type 0 where
  next : ℕ
  gone : ℕ → Bool

abbrev closing : ℤ → Os → Os
closing (negsuc n) o = o
closing (pos n) o = record o { gone = λ i. if i == n then true else o.gone i }

abbrev opening : Os → ℤ × Os
opening o =
    (pos o.next, record { next = o.next + 1; gone = λ i. if i == o.next then false else o.gone i })

abbrev sys : PlainCalls Os
sys = record {
  socket = opening;
  reuse_addr = λ fd o. o;
  connect = λ fd a o. o;
  bind = λ fd a o. (pos 0, o);
  listen = λ fd n o. (pos 0, o);
  accept = λ fd o. opening o;
  send = λ fd bs o. o;
  recv = λ fd room o. (some (take room (104 ∷ 105 ∷ [])), o);
  close = closing;
  sleep = λ n o. o;
}

abbrev open_at : Os → ℤ → Bool
open_at o (negsuc n) = false
open_at o (pos n) = ltb n o.next && not (o.gone n)

abbrev os : Os
os = record { next = 3; gone = λ i. false }

closed_after : (fd : ℤ) (o : Os) → open_at (closing fd o) fd ≡ false
closed_after (negsuc n) o = refl
closed_after (pos n) o = ground arith

sys-Opens : Opens sys open_at
sys-Opens = record {
  fresh = λ o h. ground arith;
  opened = λ o h. ground arith;
  others = others;
  failed = λ o j h. absurd (ground arith);
  closed = closed_after;
  close_others = close_others;
  connect_keeps = λ fd a o j. refl;
  send_keeps = λ fd bs o j. refl;
  recv_keeps = λ fd n o j. refl;
  sleep_keeps = λ n o j. refl;
}
  where
    others : (o : Os) (j : ℤ) → j ≢ pos o.next → open_at (opening o).1 j ≡ open_at o j
    others o (negsuc n) h = refl
    others o (pos n) h = ground arith

    close_others : (fd : ℤ) (o : Os) (j : ℤ) → j ≢ fd → open_at (closing fd o) j ≡ open_at o j
    close_others (negsuc m) o j h = refl
    close_others (pos m) o (negsuc n) h = refl
    close_others (pos m) o (pos n) h = ground arith

client_main_closes_example : open_at (client_main sys os) (pos 3) ≡ open_at os (pos 3)
client_main_closes_example = client_main_closes sys open_at sys-Opens os (pos 3)

at_most : (room : ℕ) → length (take {A = ℕ} room (104 ∷ 105 ∷ [])) ≤ room
at_most zero = omega arith
at_most (suc zero) = omega arith
at_most (suc (suc zero)) = omega arith
at_most (suc (suc (suc n))) = omega arith

server_main_faults_example :
    (server_main sys os ≡ none) ↔ (Listens sys os × Full (first_bytes sys os))
server_main_faults_example = server_main_faults sys os (λ fd room w bytes e. fits room bytes e)
  where
    fits :
        (room : ℕ) (bytes : List ℕ)
        → some (take room (104 ∷ 105 ∷ [])) ≡ some bytes
        → length bytes ≤ room
    fits room bytes e = ground (arith, at_most room)

-- The server accepts twice, and closes the first client only.
stays_open :
    (o : Os) × (server_main sys os ≡ some o)
    × (open_at o (pos 3) ≡ true)
    × (open_at o (pos 4) ≡ false)
    × (open_at o (pos 5) ≡ true)
unfolding server_main serve c_text
stays_open = (_, refl, refl, refl, refl)
