-- ===== src/Fd/Entries/Owned.antt =====
-- lib/eventmgr/FdMgr.h: one operation on objects of `CFd` that share an open descriptor with others.
use cpp_coroutine.Common.{
  ℕ, ◌+◌, ◌≡◌, ◌≢◌, ◌<◌, refl, ap, sym, subst, ◌∙◌, List, none, some, ◌==◌, arith, Bool-cases, inl,
  inr, false,
}
use cpp_coroutine.Common.Int.{ℤ, pos, negsuc}
use cpp_coroutine.OrderedMap.{Map, find, put, erase}
use cpp_coroutine.OrderedMap.Laws.{find-put, find-erase, put-IsSorted}
use cpp_coroutine.CoroutineMgr.{◌>>=◌}
use cpp_coroutine.Fd
use cpp_coroutine.Fd.{
  Shared, Handles, construct, new_fd, copy_construct, assign, share, release, close_fd,
}
use cpp_coroutine.Fd.Counts.{count, closed_by}
use cpp_coroutine.Fd.Objects.{IsHandles, held_object, get_lem, destroy_lem, assign_lem}
use cpp_coroutine.Fd.Making.{construct-IsHandles, copy_construct-IsHandles}
use cpp_coroutine.Fd.Entries.Kept.{
  Keeps, put-Keeps, share_at, release-Keeps, same_shared, same_handles,
}

-- The `stFd` at `a` lives and has the descriptor `n`.
abbrev pub Open : ℕ → ℕ → Handles → Type 0
Open a n h = (c : Shared) × (find a h.shared ≡ some c) × (c.fd ≡ pos n)

-- A good state, with no more descriptors closed than before.
pub record Moved (h t : Handles) (objs : Map ℕ) : Type 0 where
  pub valid : IsHandles t
  pub objects : t.objects ≡ objs
  pub closed : t.closed ≡ h.closed
  pub keeps : Keeps h t

-- It is open as long as an object has it.
pub still :
    (a n y : ℕ) (h t : Handles)
    → Open a n h
    → IsHandles t
    → Keeps h t
    → find y t.objects ≡ some a
    → Open a n t
still a n y h t (c, at, fd) i keeps here =
    let (d, there, _) = get_lem y a t i here in (d, there, keeps a c d at there ∙ fd)

-- A new object.
pub made :
    (x : ℕ) (fd : ℤ) (h : Handles)
    → IsHandles h
    → find x h.objects ≡ none
    → Moved h (construct x fd h) (put x h.next h.objects)
unfolding construct new_fd
made x fd h i absent = record {
  valid = construct-IsHandles x fd h i absent;
  objects = refl;
  closed = refl;
  keeps = λ k c d at to.
      ap (λ (y : Shared). y.fd)
        (same_shared at (
          sym (
            ground
              (arith, find-put k h.next (record { fd = fd; owners = 1 }) h.shared, i.below k c at))
          ∙ to));
}

copy_at :
    (y x a : ℕ) (h : Handles) (c : Shared)
    → find x h.objects ≡ some a
    → find a h.shared ≡ some c
    → copy_construct y x h
      ≡ some (record h {
        shared = put a (record c { owners = c.owners + 1 }) h.shared;
        objects = put y a h.objects;
      })
unfolding copy_construct
copy_at y x a h c at here = rw (at, share_at a h c here, ◌>>=◌)

-- A copy.
pub copied_to :
    (y x a : ℕ) (h : Handles)
    → IsHandles h
    → find x h.objects ≡ some a
    → find y h.objects ≡ none
    → (t : Handles) × (copy_construct y x h ≡ some t) × Moved h t (put y a h.objects)
copied_to y x a h i at absent =
    let (c, here, _) = get_lem x a h i at in
    let (t, e, j) = copy_construct-IsHandles y x a h i at absent in
    let u : Handles = record h {
      shared = put a (record c { owners = c.owners + 1 }) h.shared;
      objects = put y a h.objects;
    } in
    let f = copy_at y x a h c at here in
    (
      u,
      f,
      record {
        valid = subst IsHandles (same_handles e f) j;
        objects = refl;
        closed = refl;
        keeps = put-Keeps a (c.owners + 1) c h here;
      },
    )

pub destroy_at :
    (x a : ℕ) (h : Handles)
    → find x h.objects ≡ some a
    → Fd.destroy x h ≡ release a (record h { objects = erase x h.objects })
unfolding Fd.destroy
destroy_at x a h at = rw (at, ◌>>=◌)

closed_not : (n left : ℕ) (fd : ℤ) (l : List ℕ) → 0 < left → closed_by fd left l ≡ l
closed_not n left (pos m) l h = ground arith
closed_not n left (negsuc m) l h = refl

-- The end of an object while another one shares its `stFd`.
pub dropped :
    (x z a : ℕ) (h : Handles)
    → IsHandles h
    → find x h.objects ≡ some a
    → find z h.objects ≡ some a
    → x ≢ z
    → (t : Handles) × (Fd.destroy x h ≡ some t) × Moved h t (erase x h.objects)
dropped x z a h i at other apart =
    let (c, here, _) = get_lem x a h i at in
    let (t, e, j, objects, closed) = destroy_lem x a h c i at here in
    let left : find z t.objects ≡ some a =
      ap (find z) objects ∙ ground (arith, find-erase z x h.objects i.objects_sorted) in
    (
      t,
      e,
      record {
        valid = j;
        objects = objects;
        closed = closed ∙ closed_not 0 (count a t.objects) c.fd h.closed (held_object z a t left);
        keeps =
            release-Keeps a (record h { objects = erase x h.objects }) t c i.shared_sorted here
              (sym (destroy_at x a h at) ∙ e);
      },
    )

assign_at :
    (y x a b : ℕ) (h : Handles) (c : Shared)
    → x ≢ y
    → find x h.objects ≡ some a
    → find y h.objects ≡ some b
    → find a h.shared ≡ some c
    → assign y x h
      ≡ release b (record h {
        shared = put a (record c { owners = c.owners + 1 }) h.shared;
        objects = put y a h.objects;
      })
unfolding assign
assign_at y x a b h c n at_x at_y here =
    let differ : (x == y) ≡ false = ground arith in
    rw (differ, at_x, at_y, share_at a h c here, ◌>>=◌)

put_lives :
    (a : ℕ) (z : Shared) (m : Map Shared) (k : ℕ) (v : Shared)
    → find k m ≡ some v
    → (w : Shared) × (find k (put a z m) ≡ some w)
put_lives a z m k v at = elim (Bool-cases (a == k)) [
  | inl same ↦ (z, ground (arith, find-put k a z m))
  | inr apart ↦ (v, ground (arith, find-put k a z m))
]

-- An assignment over an object that has no descriptor.
pub assigned_to :
    (y x a b : ℕ) (h : Handles) (d : Shared)
    → IsHandles h
    → x ≢ y
    → a ≢ b
    → find x h.objects ≡ some a
    → find y h.objects ≡ some b
    → find b h.shared ≡ some d
    → d.fd ≡ negsuc 0
    → (t : Handles) × (assign y x h ≡ some t) × Moved h t (put y a h.objects)
assigned_to y x a b h d i n ab at_x at_y there no_fd =
    let (c, here, _) = get_lem x a h i at_x in
    let (t, e, j, objects, closed) = assign_lem y x a b h d i n at_x at_y there in
    let u : Handles = record h {
      shared = put a (record c { owners = c.owners + 1 }) h.shared;
      objects = put y a h.objects;
    } in
    let first : Keeps h u = put-Keeps a (c.owners + 1) c h here in
    let second : Keeps u t =
      release-Keeps b u t d
        (put-IsSorted a (record c { owners = c.owners + 1 }) h.shared i.shared_sorted)
        (ground (arith, find-put b a (record c { owners = c.owners + 1 }) h.shared))
        (sym (assign_at y x a b h c n at_x at_y here) ∙ e) in
    (
      t,
      e,
      record {
        valid = j;
        objects = objects;
        closed = closed ∙ ap (λ (z : ℤ). closed_by z (count b t.objects) h.closed) no_fd;
        keeps = λ k v w at to.
            let (m, mid) = put_lives a (record c { owners = c.owners + 1 }) h.shared k v at in
            second k m w mid to ∙ first k v m at mid;
      },
    )
