-- ===== src/Fd/Entries/Accepted.antt =====
-- lib/eventmgr/EventMgr.h: the descriptor of a client, from `NewReq` to `DelFd`.
use native.Mathlib.Decide.{ℕ_discrete}
use cpp_coroutine.Common.{
  ℕ, suc, ◌≡◌, ◌≢◌, refl, ap, sym, subst, ◌∙◌, List, [], ◌∷◌, none, some, arith,
}
use cpp_coroutine.Common.Int.{ℤ, pos}
use cpp_coroutine.OrderedMap.{Map, find, From}
use cpp_coroutine.OrderedMap.Laws.{find-put, find-erase, find_below}
use cpp_coroutine.CoroutineMgr.{◌>>=◌}
use cpp_coroutine.Fd
use cpp_coroutine.Fd.{Shared, Handles, construct, new_fd, get}
use cpp_coroutine.Fd.Counts.{count, closed_by}
use cpp_coroutine.Fd.Objects.{IsHandles, get_lem, destroy_lem}
use cpp_coroutine.Fd.Entries.{Temps, add_entry, add_accepted, erase_entry}
use cpp_coroutine.Fd.Entries.Owned.{Open, still, made, dropped}
use cpp_coroutine.Fd.Entries.Kept.{same_shared}
use cpp_coroutine.Fd.Entries.Life.{
  IsFree, Entered, add_entry_lem, put_here, put_there, erase_here, erase_there,
}

-- Nothing counts a number that no object has.
count-none : (a lo : ℕ) (m : Map ℕ) → From lo m → ((k : ℕ) → find k m ≢ some a) → count a m ≡ 0
unfolding find
count-none a lo [] s h = refl
count-none a lo ((i, w) ∷ m) s h =
    let other : w ≢ a = λ q. h i (ground (arith, q)) in
    let rest : (k : ℕ) → find k m ≢ some a = λ k e. elim (ℕ_discrete i k) [
      | yes q ↦ absurd (below i k q s.1 e)
      | no n ↦ h k (ground (arith, n, e))
    ] in
    ground (arith, other, count-none a (suc i) m s.1 rest)
  where
    below : (i k : ℕ) → i ≡ k → From (suc i) m → find k m ≡ some a → ⊥
    below i k q t e = cc (find_below k (suc i) m t (omega arith), e)

-- The number of the next `stFd` is in no object.
fresh_number : (h : Handles) → IsHandles h → (k : ℕ) → find k h.objects ≢ some h.next
fresh_number h i k e =
    let (c, here, _) = get_lem k h.next h i e in omega (arith, i.below h.next c here)

construct-Open : (x n : ℕ) (h : Handles) → Open h.next n (construct x (pos n) h)
unfolding construct new_fd
construct-Open x n h = (
  record { fd = pos n; owners = 1 },
  ground (arith, find-put h.next h.next (record { fd = pos n; owners = 1 }) h.shared),
  refl,
)

add_accepted_step :
    (temps : Temps) (arg node n : ℕ) (h t u : Handles)
    → add_entry temps arg node (construct arg (pos n) h) ≡ some t
    → Fd.destroy arg t ≡ some u
    → add_accepted temps arg node n h ≡ some u
unfolding add_accepted
add_accepted_step temps arg node n h t u e f = rw (e, f, ◌>>=◌)

get-entry :
    (a n x : ℕ) (h : Handles)
    → IsHandles h
    → Open a n h
    → find x h.objects ≡ some a
    → get x h ≡ some (pos n)
get-entry a n x h i (c, here, fd) at =
    let (d, there, e) = get_lem x a h i at in
    e ∙ ap some (ap (λ (y : Shared). y.fd) (same_shared here there) ∙ fd)

-- The address of the call's object is another one, and unused.
pub record IsApart (temps : Temps) (arg node : ℕ) (h : Handles) : Type 0 where
  pub arg_free : find arg h.objects ≡ none
  pub arg-sfd : arg ≢ temps.sfd
  pub arg-pair : arg ≢ temps.pair
  pub arg-node : arg ≢ node

-- `Add(ret)` of `NewReq`.
added_lem :
    (temps : Temps) (arg node n : ℕ) (h : Handles)
    → IsHandles h
    → IsFree temps node h
    → IsApart temps arg node h
    → (t : Handles) × (add_accepted temps arg node n h ≡ some t) × Entered h.next n node h t
added_lem temps arg node n h i f x =
    let h1 : Handles = construct arg (pos n) h in
    let m1 = made arg (pos n) h i x.arg_free in
    let free1 : IsFree temps node h1 = record {
      sfd_free = put_there arg h.next temps.sfd h h1 x.arg-sfd m1 ∙ f.sfd_free;
      pair_free = put_there arg h.next temps.pair h h1 x.arg-pair m1 ∙ f.pair_free;
      node_free = put_there arg h.next node h h1 x.arg-node m1 ∙ f.node_free;
      sfd-pair = f.sfd-pair;
      sfd-node = f.sfd-node;
      pair-node = f.pair-node;
    } in
    let at1 = put_here arg h.next h h1 m1 in
    let (t, e, g) =
      add_entry_lem temps arg node h.next n h1 m1.valid free1 at1 (construct-Open arg n h) in
    let at2 = g.others arg (λ q. x.arg-node (sym q)) ∙ at1 in
    let (u, d, m) = dropped arg node h.next t g.valid at2 g.entry x.arg-node in
    let node_u : find node u.objects ≡ some h.next =
      erase_there arg node t u x.arg-node g.valid m ∙ g.entry in
    (
      u,
      add_accepted_step temps arg node n h t u e d,
      record {
        valid = m.valid;
        open_at = still h.next n node t u g.open_at m.valid m.keeps node_u;
        closed = m.closed ∙ (g.closed ∙ m1.closed);
        entry = node_u;
        others = λ k away. elim (ℕ_discrete arg k) [
          | yes q ↦
              subst (λ j. find j u.objects ≡ find j h.objects) q
                (erase_here arg t u g.valid m ∙ sym x.arg_free)
          | no na ↦
              erase_there arg k t u na g.valid m
              ∙ (g.others k away ∙ put_there arg h.next k h h1 na m1)
        ];
      },
    )

closed_last :
    (n left : ℕ) (fd : ℤ) (l : List ℕ) → fd ≡ pos n → left ≡ 0 → closed_by fd left l ≡ n ∷ l
closed_last n left fd l e z = rw (e, z) refl

-- The objects of `CFd` on the way of an accepted descriptor `n`: while `Add` of `NewReq` runs, no
-- descriptor is closed, whatever temporary objects it makes and destroys; afterwards the entry of
-- the table alone keeps `n` open, and all other objects are as before. When `Destroy` takes the
-- entry away, `close` is called for `n`, once, and for nothing else, and all other objects are
-- still as before.
pub accepted_life :
    (temps : Temps) (arg node n : ℕ) (h : Handles)
    → IsHandles h
    → IsFree temps node h
    → IsApart temps arg node h
    → (t u : Handles) × (add_accepted temps arg node n h ≡ some t)
      × IsHandles t
      × (get node t ≡ some (pos n))
      × (t.closed ≡ h.closed)
      × ((k : ℕ) → node ≢ k → find k t.objects ≡ find k h.objects)
      × (erase_entry node t ≡ some u)
      × IsHandles u
      × (u.closed ≡ n ∷ h.closed)
      × ((k : ℕ) → find k u.objects ≡ find k h.objects)
unfolding erase_entry
accepted_life temps arg node n h i f x =
    let (t, e, g) = added_lem temps arg node n h i f x in
    let (c, here, fd) = g.open_at in
    let (u, d, j, objects, closed) = destroy_lem node h.next t c g.valid g.entry here in
    let back : (k : ℕ) → find k u.objects ≡ find k h.objects = λ k. elim (ℕ_discrete node k) [
      | yes q ↦
          subst (λ k. find k u.objects ≡ find k h.objects) q
            (ap (find node) objects
              ∙ (ground (arith, find-erase node node t.objects g.valid.objects_sorted)
                  ∙ sym f.node_free))
      | no away ↦
          ap (find k) objects
          ∙ (ground (arith, find-erase k node t.objects g.valid.objects_sorted) ∙ g.others k away)
    ] in
    let nobody : count h.next u.objects ≡ 0 =
      count-none h.next 0 u.objects j.objects_sorted
        (λ k q. fresh_number h i k (sym (back k) ∙ q)) in
    (
      t,
      u,
      e,
      g.valid,
      get-entry h.next n node t g.valid g.open_at g.entry,
      g.closed,
      g.others,
      d,
      j,
      closed
          ∙ (closed_last n (count h.next u.objects) c.fd t.closed fd nobody
              ∙ ap (λ l. n ∷ l) g.closed),
      back,
    )
