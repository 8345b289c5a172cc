-- ===== src/Fd/Making.antt =====
-- lib/eventmgr/Fd.h and Fd.cpp: new objects of `CFd`, and new descriptors for them.
use native.Mathlib.Decide.{ℕ_discrete}
use cpp_coroutine.Common.{
  ℕ, ◌+◌, ◌-◌, ◌≡◌, ◌≢◌, refl, ap, sym, ◌∙◌, subst, Option, none, some, ◌==◌, if◌then◌else◌, arith,
}
use cpp_coroutine.Common.Int.{ℤ}
use cpp_coroutine.OrderedMap.{find, put}
use cpp_coroutine.OrderedMap.Laws.{find-put, put-IsSorted}
use cpp_coroutine.CoroutineMgr.{◌>>=◌}
use cpp_coroutine.Fd.{Shared, Handles, new_fd, construct, copy_construct, set_newfd}
use cpp_coroutine.Fd.Counts.{
  count, held, IsCounted, plus, minus, share_lem, release_lem, closed_by, owners_of, some_same,
}
use cpp_coroutine.Fd.Objects.{IsHandles, IsCounted-same, put_object, held_object, closed_by-same}

-- A new `stFd`, with the pointer to it in no object yet.
new_fd_lem :
    (fd : ℤ) (h : Handles)
    → IsHandles h
    → IsCounted (plus (λ a. 0) h.next) (new_fd fd h)
      × ((a : ℕ) (c : Shared) → find a h.shared ≡ some c → find a (new_fd fd h).shared ≡ some c)
unfolding new_fd
new_fd_lem fd h i =
    let d : Shared = record { fd = fd; owners = 1 } in
    let free : find h.next h.shared ≡ none = unused (find h.next h.shared) refl in
    let nobody : 0 ≡ count h.next h.objects + 0 = ap owners_of (sym free) ∙ i.counts h.next in
    let there : (a : ℕ) → h.next ≢ a → find a (put h.next d h.shared) ≡ find a h.shared =
      λ a n. ground (arith, find-put a h.next d h.shared) in
    let here : find h.next (put h.next d h.shared) ≡ some d =
      ground (arith, find-put h.next h.next d h.shared) in
    (
      record {
        objects_sorted = i.objects_sorted;
        shared_sorted = put-IsSorted h.next d h.shared i.shared_sorted;
        counts = λ a. elim (ℕ_discrete h.next a) [
          | yes q ↦
              subst
                (λ k.
                  owners_of (find k (put h.next d h.shared))
                  ≡ count k h.objects + plus (λ b. 0) h.next k)
                q (ap owners_of here ∙ ground (arith, nobody))
          | no n ↦ ap owners_of (there a n) ∙ (i.counts a ∙ ground arith)
        ];
        owned = λ a x k. elim (ℕ_discrete h.next a) [
          | yes q ↦
              subst (λ (y : Shared). y.owners ≢ 0)
                (some_same here (ap (λ j. find j (put h.next d h.shared)) q ∙ k)) (λ z. omega arith)
          | no n ↦ i.owned a x (sym (there a n) ∙ k)
        ];
        below = λ a x k. elim (ℕ_discrete h.next a) [
          | yes q ↦ omega arith
          | no n ↦ omega (arith, i.below a x (sym (there a n) ∙ k))
        ];
      },
      λ a c k. there a (λ q. omega (arith, i.below a c k)) ∙ k,
    )
  where
    unused : (o : Option Shared) → find h.next h.shared ≡ o → find h.next h.shared ≡ none
    unused none e = e
    unused (some c) e = absurd (omega (arith, i.below h.next c e))

pub set_newfd_lem :
    (x b : ℕ) (fd : ℤ) (h : Handles) (c : Shared)
    → IsHandles h
    → find x h.objects ≡ some b
    → find b h.shared ≡ some c
    → (t : Handles) × (set_newfd x fd h ≡ some t)
      × IsHandles t
      × (t.objects ≡ put x h.next h.objects)
      × (t.closed ≡ closed_by c.fd (count b t.objects) h.closed)
unfolding set_newfd new_fd
set_newfd_lem x b fd h c i at here =
    let (iu, kept) = new_fd_lem fd h i in
    let f : ℕ → ℕ =
      λ k. plus (λ j. 0) h.next k + held k (find x h.objects) - (if h.next == k then 1 else 0) in
    let one : (k : ℕ) → f k ≡ (if b == k then 1 else 0) = λ k. ground (arith, ap (held k) at) in
    let (t, e, it, same, closed) =
      release_lem f b (record (new_fd fd h) { objects = put x h.next h.objects }) c
        (put_object (plus (λ j. 0) h.next) x h.next (new_fd fd h) iu (ground arith)) (kept b c here)
        (ground (arith, one b)) in
    (
      t,
      rw (at, set_newfd, ◌>>=◌) e,
      IsCounted-same (minus f b) (λ k. 0) t (λ k. ground (arith, one k)) it,
      same,
      closed
          ∙ closed_by-same c.fd c.fd (count b (put x h.next h.objects) + minus f b b)
              (count b t.objects) h.closed h.closed refl (ground (arith, ap (count b) same, one b))
              refl,
    )

pub construct-IsHandles :
    (x : ℕ) (fd : ℤ) (h : Handles)
    → IsHandles h
    → find x h.objects ≡ none
    → IsHandles (construct x fd h)
unfolding construct new_fd
construct-IsHandles x fd h i absent =
    let (iu, _) = new_fd_lem fd h i in
    IsCounted-same _ (λ k. 0) (construct x fd h) (λ k. ground (arith, ap (held k) absent))
      (put_object (plus (λ j. 0) h.next) x h.next (new_fd fd h) iu (ground arith))

pub copy_construct-IsHandles :
    (y x a : ℕ) (h : Handles)
    → IsHandles h
    → find x h.objects ≡ some a
    → find y h.objects ≡ none
    → (t : Handles) × (copy_construct y x h ≡ some t) × IsHandles t
unfolding copy_construct
copy_construct-IsHandles y x a h i at absent =
    let (u, shared, iu, objects, kept, _) =
      share_lem (λ k. 0) a h i (omega (arith, held_object x a h at)) in
    (
      record u { objects = put y a u.objects },
      rw (at, shared, copy_construct, ◌>>=◌),
      IsCounted-same _ (λ k. 0) (record u { objects = put y a u.objects })
          (λ k. ground (arith, ap (held k) (ap (find y) objects ∙ absent)))
          (put_object (plus (λ k. 0) a) y a u iu (ground arith)),
    )
