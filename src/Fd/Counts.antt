-- ===== src/Fd/Counts.antt =====
-- lib/eventmgr/Fd.h: the numbers of pointers to the descriptors.
use native.Mathlib.Decide.{ℕ_discrete}
use cpp_coroutine.Common.{
  ℕ, suc, ◌+◌, ◌-◌, ◌≡◌, ◌≢◌, ◌<◌, refl, ap, sym, ◌∙◌, subst, List, [], ◌∷◌, Option, none, some,
  ◌==◌, if◌then◌else◌, arith, Bool-cases, inl, inr, Option-cases,
}
use cpp_coroutine.Common.Int.{ℤ, pos, negsuc}
use cpp_coroutine.OrderedMap.{Map, IsSorted, From, find, put, erase}
use cpp_coroutine.OrderedMap.Laws.{find-put, find-erase, find_below, put-IsSorted, erase-IsSorted}
use cpp_coroutine.CoroutineMgr.{◌>>=◌}
use cpp_coroutine.Fd.{Shared, Handles, share, release, close_fd}

-- How many entries have the value.
abbrev pub count : ℕ → Map ℕ → ℕ
count a [] = 0
count a ((x, b) ∷ m) = (if b == a then 1 else 0) + count a m

abbrev pub held : ℕ → Option ℕ → ℕ
held a none = 0
held a (some b) = if b == a then 1 else 0

pub count-erase : (a x : ℕ) (m : Map ℕ) → count a (erase x m) + held a (find x m) ≡ count a m
unfolding erase find
count-erase a x [] = refl
count-erase a x ((j, b) ∷ m) = ground (arith, count-erase a x m)

pub count-put :
    (a x v lo : ℕ) (m : Map ℕ)
    → From lo m
    → count a (put x v m) + held a (find x m) ≡ count a m + (if v == a then 1 else 0)
unfolding put find
count-put a x v lo [] s = ground arith
count-put a x v lo ((j, b) ∷ m) s =
    ground (arith, count-put a x v (suc j) m s.1, find_below x (suc j) m s.1)

-- The pointers that `shared_ptr` counts.
abbrev pub owners_of : Option Shared → ℕ
owners_of none = 0
owners_of (some c) = c.owners

-- The counts are right, with pointers `e` that are not in an object at the moment.
pub record IsCounted (e : ℕ → ℕ) (h : Handles) : Type 0 where
  pub objects_sorted : IsSorted h.objects
  pub shared_sorted : IsSorted h.shared
  pub counts : (a : ℕ) → owners_of (find a h.shared) ≡ count a h.objects + e a
  pub owned : (a : ℕ) (c : Shared) → find a h.shared ≡ some c → c.owners ≢ 0
  pub below : (a : ℕ) (c : Shared) → find a h.shared ≡ some c → a < h.next

abbrev pub plus : (ℕ → ℕ) → ℕ → ℕ → ℕ
plus e a b = e b + (if a == b then 1 else 0)

abbrev pub minus : (ℕ → ℕ) → ℕ → ℕ → ℕ
minus e a b = e b - (if a == b then 1 else 0)

pub some_same : {o : Option Shared} {c d : Shared} → o ≡ some c → o ≡ some d → c ≡ d
some_same e f = cc

-- A pointer that is counted leads to an `stFd`.
pub live :
    (e : ℕ → ℕ) (a : ℕ) (h : Handles)
    → IsCounted e h
    → 0 < count a h.objects + e a
    → (c : Shared) × (find a h.shared ≡ some c)
live e a h i more = elim (Option-cases (find a h.shared)) [
  | inl none_at ↦ absurd (omega (arith, i.counts a, ap owners_of none_at, more))
  | inr (c, at) ↦ (c, at)
]

-- What the number of pointers to `a` is set to, the others kept.
IsCounted-put :
    (e f : ℕ → ℕ) (a : ℕ) (c d : Shared) (h : Handles)
    → IsCounted e h
    → find a h.shared ≡ some c
    → d.owners ≢ 0
    → ((b : ℕ) → a ≢ b → f b ≡ e b)
    → d.owners ≡ count a h.objects + f a
    → IsCounted f (record h { shared = put a d h.shared })
IsCounted-put e f a c d h i at some_left same total =
    let there : (b : ℕ) → a ≢ b → find b (put a d h.shared) ≡ find b h.shared =
      λ b n. ground (arith, find-put b a d h.shared) in
    let here : find a (put a d h.shared) ≡ some d = ground (arith, find-put a a d h.shared) in
    record {
      objects_sorted = i.objects_sorted;
      shared_sorted = put-IsSorted a d h.shared i.shared_sorted;
      counts = λ b. elim (ℕ_discrete a b) [
        | yes q ↦
            subst (λ k. owners_of (find k (put a d h.shared)) ≡ count k h.objects + f k) q
              (ap owners_of here ∙ total)
        | no n ↦ ap owners_of (there b n) ∙ (i.counts b ∙ omega (arith, same b n))
      ];
      owned = λ b x k. elim (ℕ_discrete a b) [
        | yes q ↦
            subst (λ (y : Shared). y.owners ≢ 0)
              (some_same here (ap (λ j. find j (put a d h.shared)) q ∙ k)) some_left
        | no n ↦ i.owned b x (sym (there b n) ∙ k)
      ];
      below = λ b x k. elim (ℕ_discrete a b) [
        | yes q ↦ subst (λ j. j < h.next) q (i.below a c at)
        | no n ↦ i.below b x (sym (there b n) ∙ k)
      ];
    }

pub share_lem :
    (e : ℕ → ℕ) (a : ℕ) (h : Handles)
    → IsCounted e h
    → 0 < count a h.objects + e a
    → (t : Handles) × (share a h ≡ some t)
      × IsCounted (plus e a) t
      × (t.objects ≡ h.objects)
      × (t.closed ≡ h.closed)
      × ((b : ℕ) (c : Shared)
          → find b h.shared ≡ some c
          → (d : Shared) × (find b t.shared ≡ some d) × (d.fd ≡ c.fd))
unfolding share
share_lem e a h i more =
    let (c, at) = live e a h i more in
    let d : Shared = record c { owners = c.owners + 1 } in
    (
      record h { shared = put a d h.shared },
      rw (at, share, ◌>>=◌),
      IsCounted-put e (plus e a) a c d h i at (λ z. omega arith) (λ b n. ground arith)
          (ground (arith, i.counts a, ap owners_of at)),
      refl,
      refl,
      λ b x k. elim (ℕ_discrete a b) [
        | yes q ↦ (
          d,
          ground (arith, find-put b a d h.shared),
          ap (λ (y : Shared). y.fd) (some_same at (ap (λ j. find j h.shared) q ∙ k)),
        )
        | no n ↦ (x, ground (arith, find-put b a d h.shared), refl)
      ],
    )

-- Whether `close` was called for the descriptor of an `stFd`.
abbrev pub closed_by : ℤ → ℕ → List ℕ → List ℕ
closed_by (pos n) left l = if left == 0 then n ∷ l else l
closed_by (negsuc n) left l = l

close_last : (fd : ℤ) (left : ℕ) (l : List ℕ) → left ≡ 0 → close_fd fd l ≡ closed_by fd left l
unfolding close_fd
close_last (pos n) left l z = ground arith
close_last (negsuc n) left l z = refl

close_not : (fd : ℤ) (left : ℕ) (l : List ℕ) → left ≢ 0 → l ≡ closed_by fd left l
close_not (pos n) left l z = ground arith
close_not (negsuc n) left l z = refl

pub release_lem :
    (e : ℕ → ℕ) (a : ℕ) (h : Handles) (c : Shared)
    → IsCounted e h
    → find a h.shared ≡ some c
    → 0 < e a
    → (t : Handles) × (release a h ≡ some t)
      × IsCounted (minus e a) t
      × (t.objects ≡ h.objects)
      × (t.closed ≡ closed_by c.fd (count a h.objects + minus e a a) h.closed)
unfolding release
release_lem e a h c i at more =
    let there : (b : ℕ) → a ≢ b → find b (erase a h.shared) ≡ find b h.shared =
      λ b n. ground (arith, find-erase b a h.shared i.shared_sorted) in
    let gone : find a (erase a h.shared) ≡ none =
      ground (arith, find-erase a a h.shared i.shared_sorted) in
    let before : (b : ℕ) (x : Shared)
        → find b (erase a h.shared) ≡ some x
        → find b h.shared ≡ some x =
      λ b x k. ground (arith, find-erase b a h.shared i.shared_sorted) in
    let total : c.owners ≡ count a h.objects + e a = ap owners_of (sym at) ∙ i.counts a in
    elim (Bool-cases (c.owners == 1)) [
      | inl last ↦ (
        record h { shared = erase a h.shared; closed = close_fd c.fd h.closed },
        rw (at, release, last, ◌>>=◌),
        record {
          objects_sorted = i.objects_sorted;
          shared_sorted = erase-IsSorted a h.shared i.shared_sorted;
          counts = λ b. elim (ℕ_discrete a b) [
            | yes q ↦
                subst (λ k. owners_of (find k (erase a h.shared)) ≡ count k h.objects + minus e a k)
                  q (ap owners_of gone ∙ ground (arith, total, last))
            | no n ↦ ap owners_of (there b n) ∙ (i.counts b ∙ ground arith)
          ];
          owned = λ b x k. i.owned b x (before b x k);
          below = λ b x k. i.below b x (before b x k);
        },
        refl,
        close_last c.fd (count a h.objects + minus e a a) h.closed (ground (arith, total, last)),
      )
      | inr rest ↦ (
        record h { shared = put a (record c { owners = c.owners - 1 }) h.shared },
        rw (at, release, rest, ◌>>=◌),
        IsCounted-put e (minus e a) a c (record c { owners = c.owners - 1 }) h i at
            (λ z. ground arith) (λ b n. ground arith) (ground arith),
        refl,
        close_not c.fd (count a h.objects + minus e a a) h.closed
            (λ z. ground (arith, total, rest)),
      )
    ]
