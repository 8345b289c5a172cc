-- ===== src/EventMgr/Receive/Once.antt =====
-- lib/eventmgr/EventMgr.h: the buffer and the result of `tcprecv`, branch by branch.
use mathlib.Core.List.{append_assoc}
use cpp_coroutine.Common.{
  [], ◌∷◌, sym, drop, length-append, length-take_of_le, take-append, take_of_length-eq, ℕ, ◌+◌, ◌-◌,
  ◌%◌, false, ◌^◌, ◌≡◌, ◌≤◌, ◌<◌, ◌⊎◌, inl, inr, refl, ap, ◌∙◌, List, ◌++◌, Option, some, ◌==◌,
  ◌||◌, leb, if◌then◌else◌, length, take, arith, Bool-cases,
}
use cpp_coroutine.Common.Int.{ℤ, pos, ltb_ℤ, to_int}
use cpp_coroutine.Util.{IoResult, io_ok, io_err, io_remote_close}
use cpp_coroutine.Util.MemData.{
  MemData, IsValid, content, left_size, expand, update_use, size, ◌>>=◌,
}
use cpp_coroutine.Util.MemData.Content.{expand_room, length-memcpy}
use cpp_coroutine.EventMgr.Send.{eintr, eagain}
use cpp_coroutine.EventMgr.Receive.{
  RecvResult, received, failed, def_recv_size, after_recv, tcprecv,
}

pub left_size_lem : (d : MemData) → IsValid d → left_size d ≡ length d.bytes - d.offset
unfolding left_size
left_size_lem d v = omega (arith, v.used, v.small)

-- The buffer as `recv` finds it.
roomy :
    (d : MemData)
    → IsValid d
    → d.offset + def_recv_size < 2 ^ 32
    → (e : MemData) × ((if leb (left_size d) def_recv_size then expand d def_recv_size else some d)
        ≡ some e)
      × IsValid e
      × (content e ≡ content d)
      × (def_recv_size ≤ left_size e)
roomy d v h = elim (Bool-cases (leb (left_size d) def_recv_size)) [
  | inl tight ↦
      let (e, grew, ve, same, off, room) = expand_room d def_recv_size v (omega arith) in
      (e, rw (tight, grew), ve, same, omega (arith, left_size_lem e ve))
  | inr wide ↦ (d, rw wide, v, refl, ground arith)
]

-- The array with the bytes behind those in use.
abbrev pub stored : MemData → List ℕ → List ℕ
stored d bs = take d.offset d.bytes ++ (take (length bs) bs ++ drop (d.offset + length bs) d.bytes)

abbrev pub filled : MemData → List ℕ → MemData
filled d bs = record { bytes = stored d bs; offset = d.offset + length bs }

pub length-stored :
    (d : MemData) (bs : List ℕ)
    → d.offset + length bs ≤ length d.bytes
    → length (stored d bs) ≡ length d.bytes
length-stored d bs h = length-memcpy d.bytes d.offset bs (length bs) (omega arith) h

pub content-filled :
    (d : MemData) (bs : List ℕ)
    → d.offset + length bs ≤ length d.bytes
    → content (filled d bs) ≡ content d ++ bs
content-filled d bs h =
    let n : ℕ = length bs in
    let all : length (content d ++ take n bs) ≡ d.offset + n = omega (
      arith,
      length-append (content d) (take n bs),
      length-take_of_le d.offset d.bytes (omega arith),
      length-take_of_le n bs (omega arith),
    ) in
    ap (take (d.offset + n))
      (sym (append_assoc (content d) (take n bs) (drop (d.offset + n) d.bytes)))
    ∙ (take-append (d.offset + n) (content d ++ take n bs) _ (omega arith)
        ∙ (take_of_length-eq (d.offset + n) (content d ++ take n bs) all
            ∙ ap (λ l. content d ++ l) (take_of_length-eq n bs refl)))

module _ (check : List ℕ → ℕ → Option ℤ) where
  -- The result and the buffer `e` after a call on `d`.
  abbrev pub Received : (ℕ → RecvResult) → MemData → ℤ → IoResult → MemData → ℤ → Type 0
  Received recv d pkgsize r e found =
      (room : ℕ) × (def_recv_size ≤ room)
      × (((bs : List ℕ) × (recv room ≡ received bs)
            × (0 < length bs)
            × (content e ≡ content d ++ bs)
            × (check e.bytes e.offset ≡ some found)
            × (r ≡ (if ltb_ℤ (pos 0) found then io_ok else io_err)))
          ⊎ ((content e ≡ content d)
              × (found ≡ pkgsize)
              × (((recv room ≡ received []) × (r ≡ io_remote_close))
                  ⊎ ((errno : ℕ) × (recv room ≡ failed errno)
                      × (r ≡ (if errno == eagain || errno == eintr then io_ok else io_err))))))

  pub after_received :
      (d : MemData) (pkgsize found : ℤ) (b : ℕ) (bs : List ℕ)
      → IsValid d
      → d.offset + length (b ∷ bs) ≤ length d.bytes
      → length (b ∷ bs) < 2 ^ 31
      → check (stored d (b ∷ bs)) (d.offset + length (b ∷ bs)) ≡ some found
      → after_recv check d pkgsize (received (b ∷ bs))
        ≡ some (if ltb_ℤ (pos 0) found then io_ok else io_err, filled d (b ∷ bs), found)
  unfolding after_recv update_use size
  after_received d pkgsize found b bs v h small e =
      let some_came : (length (b ∷ bs) % 2 ^ 32 == 0) ≡ false = ground arith in
      let above : ltb_ℤ (to_int (length (b ∷ bs))) (pos 0) ≡ false = ground arith in
      ground (arith, some_came, above)

  pub after_failed :
      (d : MemData) (pkgsize : ℤ) (errno : ℕ)
      → after_recv check d pkgsize (failed errno)
        ≡ some (if errno == eagain || errno == eintr then io_ok else io_err, d, pkgsize)
  unfolding after_recv
  after_failed d pkgsize errno = ground arith

  pub after_closed :
      (d : MemData) (pkgsize : ℤ)
      → after_recv check d pkgsize (received []) ≡ some (io_remote_close, d, pkgsize)
  unfolding after_recv
  after_closed d pkgsize = refl

  pub into_room :
      (recv : ℕ → RecvResult) (server : ℕ) (d e : MemData) (pkgsize : ℤ)
      → (if leb (left_size d) def_recv_size then expand d def_recv_size else some d) ≡ some e
      → tcprecv check recv (pos server) d pkgsize ≡ after_recv check e pkgsize (recv (left_size e))
  unfolding tcprecv
  into_room recv server d e pkgsize h = ap (λ o. o >>= go) h
    where
      go : MemData → Option (IoResult × MemData × ℤ)
      go x = after_recv check x pkgsize (recv (left_size x))

  -- `tcprecv` on a descriptor that is not negative, into a valid buffer with fewer than 2^32 -
  -- 1024 bytes in use, for a `recv` that stores at most what it has room for, and fewer than 2^31
  -- bytes, and a check that does not fault on buffers of 1024 bytes or more: `recv` is offered at
  -- least 1024 bytes, and the buffer stays valid. Bytes that come stand behind the old content,
  -- and the result is `IO_OK` exactly if the check gives a positive size; with none,
  -- `IO_REMOTE_CLOSE`, or on an error `IO_OK` for `EAGAIN` and `EINTR` and else `IO_ERR`, the
  -- content and the size stay.
  pub tcprecv_lem :
      (recv : ℕ → RecvResult) (server : ℕ) (d : MemData) (pkgsize : ℤ)
      → ((n : ℕ) (bs : List ℕ) → recv n ≡ received bs → (length bs ≤ n) × (length bs < 2 ^ 31))
      → ((bs : List ℕ) (n : ℕ)
          → def_recv_size ≤ length bs
          → n ≤ length bs
          → (found : ℤ) × (check bs n ≡ some found))
      → IsValid d
      → d.offset + def_recv_size < 2 ^ 32
      → (r : IoResult) × (e : MemData) × (found : ℤ) × (tcprecv check recv (pos server) d pkgsize
          ≡ some (r, e, found))
        × IsValid e
        × Received recv d pkgsize r e found
  tcprecv_lem recv server d pkgsize most total v h =
      let (e, there, ve, same, room) = roomy d v h in
      let left = left_size_lem e ve in
      let enter = into_room recv server d e pkgsize there in
      go e there ve same room left enter (recv (left_size e)) refl
    where
      go :
          (e : MemData)
          → (if leb (left_size d) def_recv_size then expand d def_recv_size else some d) ≡ some e
          → IsValid e
          → content e ≡ content d
          → def_recv_size ≤ left_size e
          → left_size e ≡ length e.bytes - e.offset
          → tcprecv check recv (pos server) d pkgsize
            ≡ after_recv check e pkgsize (recv (left_size e))
          → (got : RecvResult) → recv (left_size e) ≡ got
          → (r : IoResult) × (x : MemData) × (found : ℤ) × (tcprecv check recv
                (pos server)
                d
                pkgsize
              ≡ some (r, x, found))
            × IsValid x
            × Received recv d pkgsize r x found
      go e there ve same room left enter (failed errno) q = (
        (if errno == eagain || errno == eintr then io_ok else io_err),
        e,
        pkgsize,
        enter ∙ (ap (after_recv check e pkgsize) q ∙ after_failed e pkgsize errno),
        ve,
        (left_size e, room, inr (same, refl, inr (errno, q, refl))),
      )
      go e there ve same room left enter (received []) q = (
        io_remote_close,
        e,
        pkgsize,
        enter ∙ (ap (after_recv check e pkgsize) q ∙ after_closed e pkgsize),
        ve,
        (left_size e, room, inr (same, refl, inl (q, refl))),
      )
      go e there ve same room left enter (received (b ∷ bs)) q =
          let fits : e.offset + length (b ∷ bs) ≤ length e.bytes =
            omega (arith, (most (left_size e) (b ∷ bs) q).0, ve.used) in
          let (found, c) =
            total (stored e (b ∷ bs)) (e.offset + length (b ∷ bs))
              (omega (arith, length-stored e (b ∷ bs) fits))
              (omega (arith, length-stored e (b ∷ bs) fits)) in
          (
            (if ltb_ℤ (pos 0) found then io_ok else io_err),
            filled e (b ∷ bs),
            found,
            enter
                ∙ (ap (after_recv check e pkgsize) q
                    ∙ after_received e pkgsize found b bs ve fits (most (left_size e) (b ∷ bs) q).1
                        c),
            record {
              used = omega (arith, length-stored e (b ∷ bs) fits);
              small = omega (arith, ve.small, length-stored e (b ∷ bs) fits);
            },
            (
              left_size e,
              room,
              inl (
                b ∷ bs,
                q,
                omega arith,
                content-filled e (b ∷ bs) fits ∙ ap (λ l. l ++ (b ∷ bs)) same,
                c,
                refl,
              ),
            ),
          )
