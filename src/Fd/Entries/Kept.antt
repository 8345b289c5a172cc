-- ===== src/Fd/Entries/Kept.antt =====
-- lib/eventmgr/Fd.h: the operations on objects of `CFd` keep the descriptors of the `stFd` that live on.
use cpp_coroutine.Common.{
  ℕ, ◌+◌, ◌-◌, ◌≡◌, ap, sym, subst, ◌∙◌, List, Option, some, ◌==◌, arith, Bool-cases, inl, inr,
  false, true,
}
use cpp_coroutine.OrderedMap.{find, put, erase, IsSorted}
use cpp_coroutine.OrderedMap.Laws.{find-put, find-erase}
use cpp_coroutine.CoroutineMgr.{◌>>=◌}
use cpp_coroutine.Fd.{Shared, Handles, share, release, close_fd}

-- An `stFd` that lives in both states has the same descriptor in both.
abbrev pub Keeps : Handles → Handles → Type 0
Keeps h t =
    (k : ℕ) (c d : Shared) → find k h.shared ≡ some c → find k t.shared ≡ some d → d.fd ≡ c.fd

pub same_shared : {o : Option Shared} {c d : Shared} → o ≡ some c → o ≡ some d → d ≡ c
same_shared e f = cc

-- A change of the number of owners keeps all descriptors.
pub put-Keeps :
    (a n : ℕ) (x : Shared) (h : Handles)
    → find a h.shared ≡ some x
    → Keeps h (record h { shared = put a (record x { owners = n }) h.shared })
put-Keeps a n x h here k c d at to = elim (Bool-cases (a == k)) [
  | inl same ↦
      let mine : d ≡ record x { owners = n } =
        same_shared (ground (arith, find-put k a (record x { owners = n }) h.shared)) to in
      let other : c ≡ x = same_shared here (ap (λ j. find j h.shared) (ground arith) ∙ at) in
      ap (λ (y : Shared). y.fd) mine ∙ sym (ap (λ (y : Shared). y.fd) other)
  | inr apart ↦
      ap (λ (y : Shared). y.fd)
        (same_shared at
          (sym (ground (arith, find-put k a (record x { owners = n }) h.shared)) ∙ to))
]

pub share_at :
    (a : ℕ) (h : Handles) (x : Shared)
    → find a h.shared ≡ some x
    → share a h ≡ some (record h { shared = put a (record x { owners = x.owners + 1 }) h.shared })
unfolding share
share_at a h x here = rw (here, ◌>>=◌)

erase-Keeps :
    (a : ℕ) (closed : List ℕ) (h : Handles)
    → IsSorted h.shared
    → Keeps h (record h { shared = erase a h.shared; closed = closed })
erase-Keeps a closed h sorted k c d at to = elim (Bool-cases (a == k)) [
  | inl same ↦ absurd (ground (arith, find-erase k a h.shared sorted))
  | inr apart ↦
      ap (λ (y : Shared). y.fd)
        (same_shared at (sym (ground (arith, find-erase k a h.shared sorted)) ∙ to))
]

release_last :
    (a : ℕ) (h : Handles) (x : Shared)
    → find a h.shared ≡ some x
    → (x.owners == 1) ≡ true
    → release a h ≡ some (record h { shared = erase a h.shared; closed = close_fd x.fd h.closed })
unfolding release
release_last a h x here last = rw (here, last, ◌>>=◌)

release_rest :
    (a : ℕ) (h : Handles) (x : Shared)
    → find a h.shared ≡ some x
    → (x.owners == 1) ≡ false
    → release a h ≡ some (record h { shared = put a (record x { owners = x.owners - 1 }) h.shared })
unfolding release
release_rest a h x here rest = rw (here, rest, ◌>>=◌)

pub same_handles : {o : Option Handles} {t u : Handles} → o ≡ some t → o ≡ some u → t ≡ u
same_handles e f = cc

pub release-Keeps :
    (a : ℕ) (h t : Handles) (x : Shared)
    → IsSorted h.shared
    → find a h.shared ≡ some x
    → release a h ≡ some t
    → Keeps h t
release-Keeps a h t x sorted here e = elim (Bool-cases (x.owners == 1)) [
  | inl last ↦
      subst (Keeps h) (same_handles (release_last a h x here last) e)
        (erase-Keeps a (close_fd x.fd h.closed) h sorted)
  | inr rest ↦
      subst (Keeps h) (same_handles (release_rest a h x here rest) e)
        (put-Keeps a (x.owners - 1) x h here)
]
