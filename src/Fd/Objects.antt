-- ===== src/Fd/Objects.antt =====
-- lib/eventmgr/Fd.h and Fd.cpp: the objects of `CFd`, and when their descriptors are closed.
use cpp_coroutine.Common.{
  ℕ, ◌+◌, ◌-◌, ◌≡◌, ◌≢◌, ◌<◌, ap, sym, ◌∙◌, List, some, ◌==◌, if◌then◌else◌, arith, false,
}
use cpp_coroutine.Common.Int.{ℤ}
use cpp_coroutine.OrderedMap.{find, put, erase}
use cpp_coroutine.OrderedMap.Laws.{put-IsSorted, erase-IsSorted}
use cpp_coroutine.CoroutineMgr.{◌>>=◌}
use cpp_coroutine.Fd.{Shared, Handles, assign, destroy, get}
use cpp_coroutine.Fd.Counts.{
  count, held, IsCounted, plus, minus, live, share_lem, release_lem, closed_by, count-put,
  count-erase,
}

-- All pointers are in live objects.
abbrev pub IsHandles : Handles → Type 0
IsHandles h = IsCounted (λ a. 0) h

pub IsCounted-same :
    (e f : ℕ → ℕ) (h : Handles) → ((a : ℕ) → f a ≡ e a) → IsCounted e h → IsCounted f h
IsCounted-same e f h same i = record {
  objects_sorted = i.objects_sorted;
  shared_sorted = i.shared_sorted;
  counts = λ a. i.counts a ∙ ap (λ n. count a h.objects + n) (sym (same a));
  owned = i.owned;
  below = i.below;
}

-- A pointer goes into an object, and what was there comes out.
pub put_object :
    (e : ℕ → ℕ) (y a : ℕ) (h : Handles)
    → IsCounted e h
    → 0 < e a
    → IsCounted
        (λ b. e b + held b (find y h.objects) - (if a == b then 1 else 0))
        (record h { objects = put y a h.objects })
put_object e y a h i more = record {
  objects_sorted = put-IsSorted y a h.objects i.objects_sorted;
  shared_sorted = i.shared_sorted;
  counts = λ b. i.counts b ∙ ground (arith, count-put b y a 0 h.objects i.objects_sorted);
  owned = i.owned;
  below = i.below;
}

erase_object :
    (y a : ℕ) (h : Handles)
    → IsHandles h
    → find y h.objects ≡ some a
    → IsCounted (λ b. if a == b then 1 else 0) (record h { objects = erase y h.objects })
erase_object y a h i at = record {
  objects_sorted = erase-IsSorted y h.objects i.objects_sorted;
  shared_sorted = i.shared_sorted;
  counts = λ b. i.counts b ∙ ground (arith, count-erase b y h.objects, ap (held b) at);
  owned = i.owned;
  below = i.below;
}

pub held_object : (y a : ℕ) (h : Handles) → find y h.objects ≡ some a → 0 < count a h.objects
held_object y a h at = ground (arith, count-erase a y h.objects, ap (held a) at)

-- `Get` of a live object gives its descriptor.
pub get_lem :
    (x a : ℕ) (h : Handles)
    → IsHandles h
    → find x h.objects ≡ some a
    → (c : Shared) × (find a h.shared ≡ some c) × (get x h ≡ some c.fd)
unfolding get
get_lem x a h i at =
    let (c, here) = live (λ b. 0) a h i (omega (arith, held_object x a h at)) in
    (c, here, rw (at, here, get, ◌>>=◌))

pub closed_by-same :
    (fd g : ℤ) (m n : ℕ) (l k : List ℕ)
    → fd ≡ g
    → m ≡ n
    → l ≡ k
    → closed_by fd m l ≡ closed_by g n k
closed_by-same fd g m n l k a b c = rw (a, b, c)

-- With all pointers in live objects and counted, destroying a live object of `CFd` takes out this
-- object and keeps the counts right; `close` is called, once, for its descriptor exactly if no
-- other object shares it and it is not negative, and for no other descriptor.
pub destroy_lem :
    (x a : ℕ) (h : Handles) (c : Shared)
    → IsHandles h
    → find x h.objects ≡ some a
    → find a h.shared ≡ some c
    → (t : Handles) × (destroy x h ≡ some t)
      × IsHandles t
      × (t.objects ≡ erase x h.objects)
      × (t.closed ≡ closed_by c.fd (count a t.objects) h.closed)
unfolding destroy
destroy_lem x a h c i at here =
    let u : Handles = record h { objects = erase x h.objects } in
    let (t, e, it, same, closed) =
      release_lem (λ b. if a == b then 1 else 0) a u c (erase_object x a h i at) here
        (ground arith) in
    (
      t,
      rw (at, destroy, ◌>>=◌) e,
      IsCounted-same (minus (λ b. if a == b then 1 else 0) a) (λ b. 0) t (λ b. ground arith) it,
      same,
      closed ∙ ap (λ n. closed_by c.fd n h.closed) (ground arith),
    )

-- With all pointers in live objects and counted, assigning one live object of `CFd` to another
-- makes the second share what the first points to, changes no other object and keeps the counts
-- right; `close` is called, once, for the descriptor that the second had exactly if no object
-- shares it any more and it is not negative, and for no other.
pub assign_lem :
    (y x a b : ℕ) (h : Handles) (c : Shared)
    → IsHandles h
    → x ≢ y
    → find x h.objects ≡ some a
    → find y h.objects ≡ some b
    → find b h.shared ≡ some c
    → (t : Handles) × (assign y x h ≡ some t)
      × IsHandles t
      × (t.objects ≡ put y a h.objects)
      × (t.closed ≡ closed_by c.fd (count b t.objects) h.closed)
unfolding assign
assign_lem y x a b h c i n at_x at_y here =
    let (u, shared, iu, objects, kept, same_fd) =
      share_lem (λ k. 0) a h i (omega (arith, held_object x a h at_x)) in
    let (d, there, fd) = same_fd b c here in
    let v : Handles = record u { objects = put y a u.objects } in
    let f : ℕ → ℕ =
      λ k. plus (λ j. 0) a k + held k (find y u.objects) - (if a == k then 1 else 0) in
    let out : find y u.objects ≡ some b = ap (find y) objects ∙ at_y in
    let one : (k : ℕ) → f k ≡ (if b == k then 1 else 0) = λ k. ground (arith, ap (held k) out) in
    let (t, e, it, same, closed) =
      release_lem f b v d (put_object (plus (λ k. 0) a) y a u iu (ground arith)) there
        (ground (arith, one b)) in
    let last : minus f b b ≡ 0 = ground (arith, one b) in
    let differ : (x == y) ≡ false = ground arith in
    (
      t,
      rw (differ, at_x, at_y, shared, assign, ◌>>=◌) e,
      IsCounted-same (minus f b) (λ k. 0) t (λ k. ground (arith, one k)) it,
      same ∙ ap (put y a) objects,
      closed
          ∙ closed_by-same d.fd c.fd (count b v.objects + minus f b b) (count b t.objects) u.closed
              h.closed fd (omega (arith, ap (count b) same, last)) kept,
    )
