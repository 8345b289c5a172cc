-- ===== src/Fd/Sequences.antt =====
-- lib/eventmgr/Fd.h: programs that make, copy, assign and destroy objects of `CFd`.
use native.Mathlib.Decide.{ℕ_discrete}
use cpp_coroutine.Common.{ℕ, ◌≡◌, refl, ap, subst, [], none, some, Option, arith}
use cpp_coroutine.Common.Int.{ℤ}
use cpp_coroutine.OrderedMap.{find}
use cpp_coroutine.Fd.{Shared, Handles, construct, copy_construct, assign, set_newfd, destroy, get}
use cpp_coroutine.Fd.Counts.{count, owners_of}
use cpp_coroutine.Fd.Objects.{IsHandles, get_lem, destroy_lem, assign_lem}
use cpp_coroutine.Fd.Making.{set_newfd_lem, construct-IsHandles, copy_construct-IsHandles}

-- No object yet.
abbrev pub no_handles : Handles
no_handles = record { objects = []; shared = []; next = 0; closed = [] }

-- The states of programs that use objects only while they live.
pub data Made : Handles → Type 0 where
  at_start : Made no_handles
  constructed :
      {h : Handles} (x : ℕ) (fd : ℤ) → find x h.objects ≡ none → Made h → Made (construct x fd h)
  copied :
      {h t : Handles} (y x a : ℕ)
      → find x h.objects ≡ some a
      → find y h.objects ≡ none
      → copy_construct y x h ≡ some t
      → Made h
      → Made t
  assigned :
      {h t : Handles} (y x a b : ℕ)
      → find x h.objects ≡ some a
      → find y h.objects ≡ some b
      → assign y x h ≡ some t
      → Made h
      → Made t
  renewed :
      {h t : Handles} (x b : ℕ) (fd : ℤ)
      → find x h.objects ≡ some b
      → set_newfd x fd h ≡ some t
      → Made h
      → Made t
  destroyed :
      {h t : Handles} (x a : ℕ) → find x h.objects ≡ some a → destroy x h ≡ some t → Made h → Made t

unique : {o : Option Handles} {t u : Handles} → o ≡ some t → o ≡ some u → t ≡ u
unique e f = cc

assign_self : (y x : ℕ) (h : Handles) → x ≡ y → assign y x h ≡ some h
unfolding assign
assign_self y x h q = ground arith

pub no_handles-IsHandles : IsHandles no_handles
unfolding find
no_handles-IsHandles = record {
  objects_sorted = tt;
  shared_sorted = tt;
  counts = λ a. refl;
  owned = λ a c e. absurd cc;
  below = λ a c e. absurd cc;
}

Made-IsHandles : (h : Handles) → Made h → IsHandles h
Made-IsHandles h at_start = no_handles-IsHandles
Made-IsHandles h (constructed {h = g} x fd absent m) =
    construct-IsHandles x fd g (Made-IsHandles g m) absent
Made-IsHandles t (copied {h} y x a at absent e m) =
    let (u, f, i) = copy_construct-IsHandles y x a h (Made-IsHandles h m) at absent in
    subst IsHandles (unique f e) i
Made-IsHandles t (assigned {h} y x a b at_x at_y e m) = elim (ℕ_discrete x y) [
  | yes q ↦ subst IsHandles (unique (assign_self y x h q) e) (Made-IsHandles h m)
  | no n ↦
      let i = Made-IsHandles h m in
      let (c, here, _) = get_lem y b h i at_y in
      let (u, f, j, _, _) = assign_lem y x a b h c i n at_x at_y here in
      subst IsHandles (unique f e) j
]
Made-IsHandles t (renewed {h} x b fd at e m) =
    let i = Made-IsHandles h m in
    let (c, here, _) = get_lem x b h i at in
    let (u, f, j, _, _) = set_newfd_lem x b fd h c i at here in subst IsHandles (unique f e) j
Made-IsHandles t (destroyed {h} x a at e m) =
    let i = Made-IsHandles h m in
    let (c, here, _) = get_lem x a h i at in
    let (u, f, j, _, _) = destroy_lem x a h c i at here in subst IsHandles (unique f e) j

-- In every state that a program reaches from no object by making objects of `CFd` at unused
-- addresses, and copying, assigning, `SetNewfd` and destroying of live ones, a live object leads
-- to an `stFd` that has not been destroyed, `Get` gives its descriptor, and the number of
-- pointers to it is that of the live objects that share it.
pub get_of_live :
    (x a : ℕ) (h : Handles)
    → Made h
    → find x h.objects ≡ some a
    → (c : Shared) × (find a h.shared ≡ some c)
      × (get x h ≡ some c.fd)
      × (c.owners ≡ count a h.objects)
get_of_live x a h m at =
    let i = Made-IsHandles h m in
    let (c, here, e) = get_lem x a h i at in
    (c, here, e, omega (arith, i.counts a, ap owners_of here))
