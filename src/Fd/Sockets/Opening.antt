-- ===== src/Fd/Sockets/Opening.antt =====
-- lib/eventmgr/Fd.h and EventMgr.cpp: what `Init` of a socket leaves, on all of its branches.
use cpp_coroutine.Common.{
  ℕ, ◌-◌, ◌≡◌, ◌≢◌, refl, ap, sym, ◌∙◌, some, ◌==◌, arith, Bool-cases, ◌⊎◌, inl, inr, true,
}
use cpp_coroutine.Common.Int.{ℤ, pos, negsuc}
use cpp_coroutine.OrderedMap.{find, put, erase, IsSorted}
use cpp_coroutine.OrderedMap.Laws.{find-put, find-erase, put-IsSorted}
use cpp_coroutine.Util.{io_ok, io_err}
use cpp_coroutine.CoroutineMgr.{◌>>=◌}
use cpp_coroutine.Fd.{Shared, Handles, close_fd, set_newfd, release, new_fd, get}
use cpp_coroutine.Fd.Counts.{count, closed_by}
use cpp_coroutine.Fd.Objects.{IsHandles, get_lem}
use cpp_coroutine.Fd.Making.{set_newfd_lem}
use cpp_coroutine.Fd.Sockets.{
  ServerSocket, SocketCalls, bind_and_listen, is_zero, is_minus_one, htons,
}

release_other :
    (a k : ℕ) (h : Handles) (c : Shared)
    → find a h.shared ≡ some c
    → IsSorted h.shared
    → a ≢ k
    → (t : Handles) × (release a h ≡ some t) × (find k t.shared ≡ find k h.shared)
unfolding release
release_other a k h c at sorted n = elim (Bool-cases (c.owners == 1)) [
  | inl last ↦ (
    record h { shared = erase a h.shared; closed = close_fd c.fd h.closed },
    rw (at, release, last, ◌>>=◌),
    ground (arith, find-erase k a h.shared sorted),
  )
  | inr rest ↦ (
    record h { shared = put a (record c { owners = c.owners - 1 }) h.shared },
    rw (at, release, rest, ◌>>=◌),
    ground (arith, find-put k a (record c { owners = c.owners - 1 }) h.shared),
  )
]

get_at :
    (x a : ℕ) (h : Handles) (c : Shared)
    → find x h.objects ≡ some a
    → find a h.shared ≡ some c
    → get x h ≡ some c.fd
unfolding get
get_at x a h c e f = rw (e, f, get, ◌>>=◌)

set_newfd_step :
    (x b : ℕ) (fd : ℤ) (h : Handles)
    → find x h.objects ≡ some b
    → set_newfd x fd h ≡ release b (record (new_fd fd h) { objects = put x h.next h.objects })
unfolding set_newfd
set_newfd_step x b fd h at = rw (at, ◌>>=◌)

-- `SetNewfd` of a live object: `Get` gives the new descriptor, and the old one is closed if nothing
-- else shares it.
pub newfd_got :
    (x b : ℕ) (fd : ℤ) (h : Handles)
    → IsHandles h
    → find x h.objects ≡ some b
    → (c : Shared) × (t : Handles) × (find b h.shared ≡ some c)
      × (set_newfd x fd h ≡ some t)
      × IsHandles t
      × (get x t ≡ some fd)
      × (t.objects ≡ put x h.next h.objects)
      × (t.closed ≡ closed_by c.fd (count b t.objects) h.closed)
unfolding new_fd
newfd_got x b fd h i at =
    let (c, here, _) = get_lem x b h i at in
    let (t, went, it, objects, closed) = set_newfd_lem x b fd h c i at here in
    let d : Shared = record { fd = fd; owners = 1 } in
    let u : Handles = record (new_fd fd h) { objects = put x h.next h.objects } in
    let apart : b ≢ h.next = λ q. omega (arith, i.below b c here) in
    let (v, freed, same) =
      release_other b h.next u c (ground (arith, find-put b h.next d h.shared, here, apart))
        (put-IsSorted h.next d h.shared i.shared_sorted) apart in
    let one : v ≡ t = cc (set_newfd_step x b fd h at, freed, went) in
    let there : find h.next t.shared ≡ some d =
      ap (λ (z : Handles). find h.next z.shared) (sym one)
      ∙ (same ∙ ground (arith, find-put h.next h.next d h.shared)) in
    (
      c,
      t,
      here,
      went,
      it,
      get_at x h.next t d (ap (find x) objects ∙ ground (arith, find-put x x h.next h.objects))
          there,
      objects,
      closed,
    )

module _ {O : Type 0} (sys : SocketCalls O) where
  -- The calls after `socket` succeed, one after the other.
  pub record Listening (fd : ℤ) (ss : ServerSocket) (o : O) : Type 0 where
    pub reused : (sys.reuse_addr fd o).0 ≡ pos 0
    pub bound :
        (sys.bind fd (record { s_addr = 0; sin_port = htons ss.m_port }) (sys.reuse_addr fd o).1).0
        ≢ negsuc 0
    pub listens :
        (sys.listen fd 20
          (sys.bind fd
            (record { s_addr = 0; sin_port = htons ss.m_port })
            (sys.reuse_addr fd o).1).1).0
        ≡ pos 0

  zero_of : (z : ℤ) → is_zero z ≡ true → z ≡ pos 0
  zero_of z h = ground arith

  pub bind_and_listen_lem :
      (fd : ℤ) (ss : ServerSocket) (o : O)
      → (Listening fd ss o × ((bind_and_listen sys fd ss o).0 ≡ io_ok))
        ⊎ ((¬ Listening fd ss o) × ((bind_and_listen sys fd ss o).0 ≡ io_err))
  unfolding bind_and_listen
  bind_and_listen_lem fd ss o =
      let r1 = sys.reuse_addr fd o in
      let r2 = sys.bind fd (record { s_addr = 0; sin_port = htons ss.m_port }) r1.1 in
      let r3 = sys.listen fd 20 r2.1 in
      elim (Bool-cases (is_zero r1.0)) [
        | inr bad ↦ inr (λ l. ground (arith, l.reused), rw (bad) refl)
        | inl good ↦ elim (Bool-cases (is_minus_one r2.0)) [
          | inl bad ↦ inr (λ l. l.bound (ground arith), rw (good, bad) refl)
          | inr fine ↦ elim (Bool-cases (is_zero r3.0)) [
            | inr bad ↦ inr (λ l. ground (arith, l.listens), rw (good, fine, bad) refl)
            | inl last ↦ inl (
              record {
                reused = zero_of r1.0 good;
                bound = λ h. ground arith;
                listens = zero_of r3.0 last;
              },
              rw (good, fine, last) refl,
            )
          ]
        ]
      ]
