-- ===== src/EventMgr/Send/Loop.antt =====
-- lib/eventmgr/EventMgr.cpp: the loop of `tcpsend` and the bytes that are sent.
use mathlib.Core.List.{append_assoc, append-nil}
use cpp_coroutine.Common.{
  ℕ, zero, suc, ◌+◌, ◌%◌, ◌^◌, ◌≡◌, ◌≢◌, ◌≤◌, ◌<◌, refl, ap, sym, ◌∙◌, List, [], ◌∷◌, ◌++◌, Option,
  none, some, ◌==◌, true, false, ◌||◌, length, take, drop, arith, length-drop, Bool-cases, inl, inr,
  ◌⊎◌, if◌then◌else◌,
}
use cpp_coroutine.Common.Int.{pos}
use cpp_coroutine.Util.{IoResult, io_ok, io_err, io_timeout, io_remote_close}
use cpp_coroutine.Util.Timer.{Timeval, TimerMs, is_timeout, left_time}
use cpp_coroutine.EventMgr.Call.{Pause, returns, waits, ret, fault, until_wait, change, ◌>>◌}
use cpp_coroutine.EventMgr.Send.{
  SendResult, accepted, refused, SendEnd, returned, blocked, send_loop, tcpsend, wait_writable,
  eintr, eagain,
}

take-nil : (n : ℕ) → take {A = ℕ} n [] ≡ []
take-nil zero = refl
take-nil (suc n) = refl

take-add : (a b c : ℕ) (l : List ℕ) → c ≡ a + b → take c l ≡ take a l ++ take b (drop a l)
take-add zero b c l e = ap (λ n. take n l) (omega arith)
take-add (suc a) b zero l e = absurd (omega arith)
take-add (suc a) b (suc c) [] e = sym (take-nil b)
take-add (suc a) b (suc c) (x ∷ l) e = ap (◌∷◌ x) (take-add a b c l (omega arith))

pub SendResult-cases :
    (r : SendResult) → ((n : ℕ) × (r ≡ accepted n)) ⊎ ((errno : ℕ) × (r ≡ refused errno))
SendResult-cases (accepted n) = inl (n, refl)
SendResult-cases (refused e) = inr (e, refl)

module _ {W : Type 0} (now : W → Timeval) (send : ℕ → List ℕ → W → SendResult × W) where
  -- `send` accepts at most what it is given, and the peer of its descriptor is sent what it
  -- accepts, and nothing more is sent to any peer; `sent w j` is what was sent on descriptor `j`.
  pub record IsSend (sent : W → ℕ → List ℕ) : Type 0 where
    pub at_most :
        (server : ℕ) (src : List ℕ) (w : W) (n : ℕ)
        → (send server src w).0 ≡ accepted n
        → n ≤ length src
    pub grows :
        (server : ℕ) (src : List ℕ) (w : W) (n : ℕ)
        → (send server src w).0 ≡ accepted n
        → sent (send server src w).1 server ≡ sent w server ++ take n src
    pub stays :
        (server : ℕ) (src : List ℕ) (w : W) (errno : ℕ)
        → (send server src w).0 ≡ refused errno
        → sent (send server src w).1 server ≡ sent w server
    pub others :
        (server : ℕ) (src : List ℕ) (w : W) (j : ℕ)
        → j ≢ server
        → sent (send server src w).1 j ≡ sent w j

  -- The first `total` bytes are sent on `server` after what `base` says, and nothing elsewhere.
  abbrev pub Grown : (W → ℕ → List ℕ) → ℕ → (ℕ → List ℕ) → List ℕ → ℕ → W → Type 0
  Grown sent server base src total w =
      (sent w server ≡ base server ++ take total src) × ((j : ℕ) → j ≢ server → sent w j ≡ base j)

  -- So many are sent: all with `IO_OK`, else fewer.
  abbrev pub Sent : (W → ℕ → List ℕ) → ℕ → (ℕ → List ℕ) → List ℕ → SendEnd → W → Type 0
  Sent sent server base src out w =
      (total : ℕ) × (total ≤ length src)
      × Grown sent server base src total w
      × (out ≡ returned io_ok → total ≡ length src)
      × (out ≢ returned io_ok → total < length src)

  -- The loop ends with the bytes that are sent so far, and not with `IO_OK`.
  part :
      (sent : W → ℕ → List ℕ) (server : ℕ) (base : ℕ → List ℕ) (src : List ℕ) (out : SendEnd)
      (w : W) (total : ℕ)
      → total < length src
      → Grown sent server base src total w
      → out ≢ returned io_ok
      → Sent sent server base src out w
  part sent server base src out w total lt h n = (total, omega arith, h, λ e. absurd (n e), λ _. lt)

  step_empty :
      (server : ℕ) (timer : TimerMs) (src : List ℕ) (total : ℕ) (w : W)
      → send_loop now send zero server timer src total w ≡ none
  unfolding send_loop
  step_empty server timer src total w = refl

  step_timeout :
      (fuel server : ℕ) (timer : TimerMs) (src : List ℕ) (total : ℕ) (w : W)
      → is_timeout timer (now w) ≡ true
      → send_loop now send (suc fuel) server timer src total w ≡ some (returned io_timeout, w)
  unfolding send_loop
  step_timeout fuel server timer src total w h = rw (h, send_loop)

  step_refused :
      (fuel server : ℕ) (timer : TimerMs) (src : List ℕ) (total : ℕ) (w : W) (errno : ℕ)
      → is_timeout timer (now w) ≡ false
      → (send server (drop total src) w).0 ≡ refused errno
      → send_loop now send (suc fuel) server timer src total w ≡ (
          if errno == eintr || errno == eagain
          then some (blocked, (send server (drop total src) w).1)
          else some (returned io_err, (send server (drop total src) w).1))
  unfolding send_loop
  step_refused fuel server timer src total w errno h e = rw (h, e, send_loop)

  step_accepted :
      (fuel server : ℕ) (timer : TimerMs) (src : List ℕ) (total : ℕ) (w : W) (n : ℕ)
      → is_timeout timer (now w) ≡ false
      → (send server (drop total src) w).0 ≡ accepted n
      → send_loop now send (suc fuel) server timer src total w ≡ (elim (n == 0) [
        | true ↦ some (returned io_remote_close, (send server (drop total src) w).1)
        | false ↦ elim (total + n == length src) [
          | true ↦ some (returned io_ok, (send server (drop total src) w).1)
          | false ↦
              send_loop now send fuel server timer src
                (total + n)
                (send server (drop total src) w).1
        ]
      ])
  unfolding send_loop
  step_accepted fuel server timer src total w n h e = rw (h, e, send_loop)

  module _ (sent : W → ℕ → List ℕ) (ok : IsSend sent) where
    abbrev Ends : ℕ → Type 0
    Ends fuel =
        (server : ℕ) (timer : TimerMs) (src : List ℕ) (base : ℕ → List ℕ) (total : ℕ) (w : W)
        → total < length src
        → length src ≤ total + fuel
        → Grown sent server base src total w
        → (out : SendEnd) × (w' : W) × (send_loop now send fuel server timer src total w
            ≡ some (out, w'))
          × Sent sent server base src out w'

    -- The bytes after one more call of `send`.
    more_sent :
        (server : ℕ) (src : List ℕ) (base : ℕ → List ℕ) (total n : ℕ) (w : W)
        → Grown sent server base src total w
        → (send server (drop total src) w).0 ≡ accepted n
        → Grown sent server base src (total + n) (send server (drop total src) w).1
    more_sent server src base total n w h e = (
      ok.grows server (drop total src) w n e
          ∙ (ap (λ l. l ++ take n (drop total src)) h.0
              ∙ (append_assoc (base server) (take total src) (take n (drop total src))
                  ∙ ap (λ l. base server ++ l) (sym (take-add total n (total + n) src refl)))),
      λ j m. ok.others server (drop total src) w j m ∙ h.1 j m,
    )

    after_accepted :
        (fuel server : ℕ) (timer : TimerMs) (src : List ℕ) (base : ℕ → List ℕ) (total n : ℕ) (w : W)
        → Ends fuel
        → total < length src
        → length src ≤ total + suc fuel
        → Grown sent server base src total w
        → is_timeout timer (now w) ≡ false
        → (send server (drop total src) w).0 ≡ accepted n
        → (out : SendEnd) × (w' : W) × (send_loop now send (suc fuel) server timer src total w
            ≡ some (out, w'))
          × Sent sent server base src out w'
    after_accepted fuel server timer src base total n w ih lt f h at e =
        let w' = (send server (drop total src) w).1 in
        let step = step_accepted fuel server timer src total w n at e in
        let h' = more_sent server src base total n w h e in
        let most : n ≤ length (drop total src) = ok.at_most server (drop total src) w n e in
        let fits : total + n ≤ length src = omega (arith, length-drop total src) in
        elim (Bool-cases (n == 0)) [
          | inl none_at ↦
              let same : total + n ≡ total = ground arith in
              (
                returned io_remote_close,
                w',
                step ∙ rw none_at,
                part sent server base src (returned io_remote_close) w' total lt
                    (h'.0 ∙ ap (λ i. base server ++ take i src) same, h'.1) (λ q. cc),
              )
          | inr some_at ↦ elim (Bool-cases (total + n == length src)) [
            | inl all ↦ (
              returned io_ok,
              w',
              step ∙ rw (some_at, all),
              (total + n, fits, h', λ q. ground arith, λ q. absurd (q refl)),
            )
            | inr rest ↦
                let (out, v, went, s) =
                  ih server timer src base (total + n) w' (ground arith) (ground arith) h' in
                (out, v, step ∙ (rw (some_at, rest) went), s)
          ]
        ]

    send_loop-Sent : (fuel : ℕ) → Ends fuel
    send_loop-Sent zero server timer src base total w lt f h = absurd (omega arith)
    send_loop-Sent (suc fuel) server timer src base total w lt f h =
        elim (Bool-cases (is_timeout timer (now w))) [
          | inl over ↦ (
            returned io_timeout,
            w,
            step_timeout fuel server timer src total w over,
            part sent server base src (returned io_timeout) w total lt h (λ q. cc),
          )
          | inr at ↦ elim (SendResult-cases (send server (drop total src) w).0) [
            | inl (n, e) ↦
                after_accepted fuel server timer src base total n w (send_loop-Sent fuel) lt f h at
                  e
            | inr (errno, e) ↦
                let w' = (send server (drop total src) w).1 in
                let step = step_refused fuel server timer src total w errno at e in
                let h' : Grown sent server base src total w' = (
                  ok.stays server (drop total src) w errno e ∙ h.0,
                  λ j m. ok.others server (drop total src) w j m ∙ h.1 j m,
                ) in
                elim (Bool-cases (errno == eintr || errno == eagain)) [
                  | inl full ↦ (
                    blocked,
                    w',
                    step ∙ rw full,
                    part sent server base src blocked w' total lt h' (λ q. cc),
                  )
                  | inr failed ↦ (
                    returned io_err,
                    w',
                    step ∙ rw failed,
                    part sent server base src (returned io_err) w' total lt h' (λ q. cc),
                  )
                ]
          ]
        ]

    module _ (monitor_add monitor_del : ℕ → W → W) where
      -- How `tcpsend` stands after the loop.
      abbrev pub after_loop : ℕ → TimerMs → SendEnd → W → Pause W IoResult
      after_loop server timer (returned r) w = returns r w
      after_loop server timer blocked w =
          waits (left_time timer (now (monitor_add server w)) % 2 ^ 32)
            (change (monitor_del server) >> ret io_ok) (monitor_add server w)

      -- `tcpsend` of at least one byte on a descriptor that is not negative, for a `send` that
      -- accepts at most what it is given: its loop ends, on that descriptor was then sent a
      -- prefix of the bytes, and nothing on another one, the prefix being all of them if the loop
      -- ends with `IO_OK` and less otherwise; `tcpsend` returns the result of the loop, or for a
      -- full socket waits for what is left of the timer and then returns `IO_OK`.
      pub tcpsend_lem :
          (server : ℕ) (timer : TimerMs) (src : List ℕ) (w : W)
          → 0 < length src
          → (out : SendEnd) × (w' : W) × Sent sent server (sent w) src out w'
            × (send_loop now send (suc (length src)) server timer src 0 w ≡ some (out, w'))
            × (until_wait (tcpsend now send monitor_add monitor_del (pos server) timer src) w
                ≡ after_loop server timer out w')
      unfolding tcpsend until_wait
      tcpsend_lem server timer src w more =
          let (out, w', e, t) =
            send_loop-Sent (suc (length src)) server timer src (sent w) 0 w more (omega arith)
              (sym (append-nil (sent w server)), λ j m. refl) in
          (out, w', t, e, ap go e ∙ went out w')
        where
          go : Option (SendEnd × W) → Pause W IoResult
          go r =
              until_wait
                (elim r [
                  | none ↦ fault
                  | some x ↦ elim x.0 [
                    | returned result ↦ ret result
                    | blocked ↦ wait_writable now send monitor_add monitor_del server timer
                  ]
                ])
                (elim r [ none ↦ w | some x ↦ x.1 ])

          went : (out : SendEnd) (w' : W) → go (some (out, w')) ≡ after_loop server timer out w'
          went (returned r) w' = refl
          went blocked w' = refl

  -- What `send` leaves alone, the loop leaves alone.
  pub send_loop-keeps :
      {A : Type 0} (f : W → A)
      → ((server : ℕ) (src : List ℕ) (w : W) → f (send server src w).1 ≡ f w)
      → (fuel server : ℕ) (timer : TimerMs) (src : List ℕ) (total : ℕ) (w w' : W) (out : SendEnd)
      → send_loop now send fuel server timer src total w ≡ some (out, w')
      → f w' ≡ f w
  send_loop-keeps f keep zero server timer src total w w' out e =
      absurd (cc (step_empty server timer src total w, e))
  send_loop-keeps f keep (suc fuel) server timer src total w w' out e =
      elim (Bool-cases (is_timeout timer (now w))) [
        | inl over ↦ cc (step_timeout fuel server timer src total w over, e)
        | inr at ↦ elim (SendResult-cases (send server (drop total src) w).0) [
          | inl (n, got) ↦ ground (
            arith,
            step_accepted fuel server timer src total w n at got,
            keep server (drop total src) w,
            send_loop-keeps f keep fuel server timer src (total + n)
                (send server (drop total src) w).1 w' out,
          )
          | inr (errno, got) ↦ ground (
            arith,
            step_refused fuel server timer src total w errno at got,
            keep server (drop total src) w,
          )
        ]
      ]
