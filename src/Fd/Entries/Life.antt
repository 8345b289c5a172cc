-- ===== src/Fd/Entries/Life.antt =====
-- lib/eventmgr/FdMgr.h and EventMgr.h: how long a descriptor stays open that `accept` has given.
use native.Mathlib.Decide.{ℕ_discrete}
use cpp_coroutine.Common.{ℕ, ◌≡◌, ◌≢◌, refl, ap, sym, subst, ◌∙◌, none, some, arith}
use cpp_coroutine.Common.Int.{negsuc}
use cpp_coroutine.OrderedMap.{find, put, erase}
use cpp_coroutine.OrderedMap.Laws.{find-put, find-erase}
use cpp_coroutine.CoroutineMgr.{◌>>=◌}
use cpp_coroutine.Fd
use cpp_coroutine.Fd.{Shared, Handles, construct, new_fd, copy_construct, assign, get}
use cpp_coroutine.Fd.Objects.{IsHandles}
use cpp_coroutine.Fd.Entries.{Temps, add_entry}
use cpp_coroutine.Fd.Entries.Owned.{Open, Moved, still, made, copied_to, dropped, assigned_to}

-- Unused addresses for the objects on the way and for the entry, all different.
pub record IsFree (temps : Temps) (node : ℕ) (h : Handles) : Type 0 where
  pub sfd_free : find temps.sfd h.objects ≡ none
  pub pair_free : find temps.pair h.objects ≡ none
  pub node_free : find node h.objects ≡ none
  pub sfd-pair : temps.sfd ≢ temps.pair
  pub sfd-node : temps.sfd ≢ node
  pub pair-node : temps.pair ≢ node

-- The entry of `a` at `node` is there, no object else has changed, and nothing was closed.
pub record Entered (a n node : ℕ) (h t : Handles) : Type 0 where
  pub valid : IsHandles t
  pub open_at : Open a n t
  pub closed : t.closed ≡ h.closed
  pub entry : find node t.objects ≡ some a
  pub others : (k : ℕ) → node ≢ k → find k t.objects ≡ find k h.objects

other_address :
    (x y a : ℕ) (h : Handles) → find x h.objects ≡ none → find y h.objects ≡ some a → x ≢ y
other_address x y a h e f q = cc

bare :
    (x : ℕ) (h : Handles)
    → find h.next (construct x (negsuc 0) h).shared ≡ some (record { fd = negsuc 0; owners = 1 })
unfolding construct new_fd
bare x h = ground (arith, find-put h.next h.next (record { fd = negsuc 0; owners = 1 }) h.shared)

add_step :
    (temps : Temps) (fd node : ℕ) (h h2 h3 h4 h5 h6 : Handles)
    → assign temps.sfd fd (construct temps.sfd (negsuc 0) h) ≡ some h2
    → copy_construct temps.pair temps.sfd h2 ≡ some h3
    → copy_construct node temps.pair h3 ≡ some h4
    → Fd.destroy temps.pair h4 ≡ some h5
    → Fd.destroy temps.sfd h5 ≡ some h6
    → add_entry temps fd node h ≡ some h6
unfolding add_entry
add_step temps fd node h h2 h3 h4 h5 h6 e2 e3 e4 e5 e6 = rw (e2, e3, e4, e5, e6, ◌>>=◌)

-- What `find` sees after an object has got its pointer, and after one is gone.
pub put_here : (x v : ℕ) (h t : Handles) → Moved h t (put x v h.objects) → find x t.objects ≡ some v
put_here x v h t m = ap (find x) m.objects ∙ ground (arith, find-put x x v h.objects)

pub put_there :
    (x v k : ℕ) (h t : Handles)
    → x ≢ k
    → Moved h t (put x v h.objects)
    → find k t.objects ≡ find k h.objects
put_there x v k h t n m = ap (find k) m.objects ∙ ground (arith, find-put k x v h.objects)

pub erase_here :
    (x : ℕ) (h t : Handles) → IsHandles h → Moved h t (erase x h.objects) → find x t.objects ≡ none
erase_here x h t i m =
    ap (find x) m.objects ∙ ground (arith, find-erase x x h.objects i.objects_sorted)

pub erase_there :
    (x k : ℕ) (h t : Handles)
    → x ≢ k
    → IsHandles h
    → Moved h t (erase x h.objects)
    → find k t.objects ≡ find k h.objects
erase_there x k h t n i m =
    ap (find k) m.objects ∙ ground (arith, find-erase k x h.objects i.objects_sorted)

-- The local object has the descriptor.
local_holds :
    (sfd fd a n : ℕ) (h : Handles)
    → IsHandles h
    → find sfd h.objects ≡ none
    → find fd h.objects ≡ some a
    → Open a n h
    → (t : Handles) × (assign sfd fd (construct sfd (negsuc 0) h) ≡ some t)
      × IsHandles t
      × Open a n t
      × (t.closed ≡ h.closed)
      × (find sfd t.objects ≡ some a)
      × ((k : ℕ) → sfd ≢ k → find k t.objects ≡ find k h.objects)
local_holds sfd fd a n h i absent at open_a =
    let apart : sfd ≢ fd = other_address sfd fd a h absent at in
    let (c, here, _) = open_a in
    let h1 : Handles = construct sfd (negsuc 0) h in
    let m1 = made sfd (negsuc 0) h i absent in
    let at1 : find fd h1.objects ≡ some a = put_there sfd h.next fd h h1 apart m1 ∙ at in
    let (t, e, m) =
      assigned_to sfd fd a h.next h1 (record { fd = negsuc 0; owners = 1 }) m1.valid
        (λ q. apart (sym q)) (λ q. omega (arith, i.below a c here)) at1
        (put_here sfd h.next h h1 m1) (bare sfd h) refl in
    (
      t,
      e,
      m.valid,
      still a n sfd h1 t (still a n fd h h1 open_a m1.valid m1.keeps at1) m.valid m.keeps
          (put_here sfd a h1 t m),
      m.closed ∙ m1.closed,
      put_here sfd a h1 t m,
      λ k n. put_there sfd a k h1 t n m ∙ put_there sfd h.next k h h1 n m1,
    )

flip : (x y : ℕ) → x ≢ y → y ≢ x
flip x y n q = n (sym q)

-- The pair and the entry get copies of the local object.
copies_made :
    (sfd pair node a n : ℕ) (h : Handles)
    → IsHandles h
    → Open a n h
    → find sfd h.objects ≡ some a
    → find pair h.objects ≡ none
    → find node h.objects ≡ none
    → sfd ≢ pair
    → sfd ≢ node
    → pair ≢ node
    → (t u : Handles) × (copy_construct pair sfd h ≡ some t)
      × (copy_construct node pair t ≡ some u)
      × IsHandles u
      × Open a n u
      × (u.closed ≡ h.closed)
      × (find sfd u.objects ≡ some a)
      × (find pair u.objects ≡ some a)
      × (find node u.objects ≡ some a)
      × ((k : ℕ) → pair ≢ k → node ≢ k → find k u.objects ≡ find k h.objects)
copies_made sfd pair node a n h i open_a at no_pair no_node sp sn pn =
    let (t, e, m) = copied_to pair sfd a h i at no_pair in
    let pair_t : find pair t.objects ≡ some a = put_here pair a h t m in
    let (u, f, o) =
      copied_to node pair a t m.valid pair_t (put_there pair a node h t pn m ∙ no_node) in
    let node_u : find node u.objects ≡ some a = put_here node a t u o in
    let rest : (k : ℕ) → pair ≢ k → node ≢ k → find k u.objects ≡ find k h.objects =
      λ k np nn. put_there node a k t u nn o ∙ put_there pair a k h t np m in
    (
      t,
      u,
      e,
      f,
      o.valid,
      still a n node t u (still a n pair h t open_a m.valid m.keeps pair_t) o.valid o.keeps node_u,
      o.closed ∙ m.closed,
      rest sfd (flip sfd pair sp) (flip sfd node sn) ∙ at,
      put_there node a pair t u (flip pair node pn) o ∙ pair_t,
      node_u,
      rest,
    )

-- The pair and the local object go, and the entry stays.
copies_dropped :
    (sfd pair node a n : ℕ) (h : Handles)
    → IsHandles h
    → Open a n h
    → find sfd h.objects ≡ some a
    → find pair h.objects ≡ some a
    → find node h.objects ≡ some a
    → sfd ≢ pair
    → sfd ≢ node
    → pair ≢ node
    → (t u : Handles) × (Fd.destroy pair h ≡ some t)
      × (Fd.destroy sfd t ≡ some u)
      × IsHandles u
      × Open a n u
      × (u.closed ≡ h.closed)
      × (find node u.objects ≡ some a)
      × (find sfd u.objects ≡ none)
      × (find pair u.objects ≡ none)
      × ((k : ℕ) → sfd ≢ k → pair ≢ k → find k u.objects ≡ find k h.objects)
copies_dropped sfd pair node a n h i open_a at_sfd at_pair at_node sp sn pn =
    let (t, e, m) = dropped pair node a h i at_pair at_node pn in
    let node_t : find node t.objects ≡ some a = erase_there pair node h t pn i m ∙ at_node in
    let sfd_t : find sfd t.objects ≡ some a =
      erase_there pair sfd h t (flip sfd pair sp) i m ∙ at_sfd in
    let (u, f, o) = dropped sfd node a t m.valid sfd_t node_t sn in
    let node_u : find node u.objects ≡ some a = erase_there sfd node t u sn m.valid o ∙ node_t in
    (
      t,
      u,
      e,
      f,
      o.valid,
      still a n node t u (still a n node h t open_a m.valid m.keeps node_t) o.valid o.keeps node_u,
      o.closed ∙ m.closed,
      node_u,
      erase_here sfd t u m.valid o,
      erase_there sfd pair t u sp m.valid o ∙ erase_here pair h t i m,
      λ k ns np. erase_there sfd k t u ns m.valid o ∙ erase_there pair k h t np i m,
    )

-- `Add` with an object that has an open descriptor.
pub add_entry_lem :
    (temps : Temps) (fd node a n : ℕ) (h : Handles)
    → IsHandles h
    → IsFree temps node h
    → find fd h.objects ≡ some a
    → Open a n h
    → (t : Handles) × (add_entry temps fd node h ≡ some t) × Entered a n node h t
add_entry_lem temps fd node a n h i f at open_a =
    let sfd = temps.sfd in
    let pair = temps.pair in
    let (h2, e2, i2, open2, closed2, at2, rest2) =
      local_holds sfd fd a n h i f.sfd_free at open_a in
    let (h3, h4, e3, e4, i4, open4, closed4, sfd4, pair4, node4, rest4) =
      copies_made sfd pair node a n h2 i2 open2 at2 (rest2 pair f.sfd-pair ∙ f.pair_free)
        (rest2 node f.sfd-node ∙ f.node_free) f.sfd-pair f.sfd-node f.pair-node in
    let (h5, h6, e5, e6, i6, open6, closed6, node6, no_sfd, no_pair, rest6) =
      copies_dropped sfd pair node a n h4 i4 open4 sfd4 pair4 node4 f.sfd-pair f.sfd-node
        f.pair-node in
    (
      h6,
      add_step temps fd node h h2 h3 h4 h5 h6 e2 e3 e4 e5 e6,
      record {
        valid = i6;
        open_at = open6;
        closed = closed6 ∙ (closed4 ∙ closed2);
        entry = node6;
        others = λ k away. elim (ℕ_discrete sfd k) [
          | yes q ↦ subst (λ j. find j h6.objects ≡ find j h.objects) q (no_sfd ∙ sym f.sfd_free)
          | no ns ↦ elim (ℕ_discrete pair k) [
            | yes q ↦
                subst (λ j. find j h6.objects ≡ find j h.objects) q (no_pair ∙ sym f.pair_free)
            | no np ↦ rest6 k ns np ∙ (rest4 k np away ∙ rest2 k ns)
          ]
        ];
      },
    )
