-- ===== src/Tests/Handles.antt =====
-- Two objects that share a descriptor, and a third one.
use cpp_coroutine.Common.{ℕ, ◌≢◌, ◌≡◌, refl, [], ◌∷◌, some, arith}
use cpp_coroutine.Common.Int.{pos}
use cpp_coroutine.OrderedMap
use cpp_coroutine.OrderedMap.{find}
use cpp_coroutine.Fd.{
  Shared, Handles, construct, copy_construct, new_fd, share, assign, destroy, release, close_fd,
  get,
}
use cpp_coroutine.Fd.Counts.{count, closed_by}
use cpp_coroutine.Fd.Objects.{IsHandles, destroy_lem, assign_lem}
use cpp_coroutine.Fd.Entries.{Temps, add_accepted, erase_entry}
use cpp_coroutine.Fd.Entries.Life.{IsFree}
use cpp_coroutine.Fd.Entries.Accepted.{IsApart, accepted_life}
use cpp_coroutine.Fd.Sequences.{Made, at_start, constructed, copied, no_handles, get_of_live}

abbrev five : Shared
five = record { fd = pos 5; owners = 2 }

-- Objects 1 and 2 have descriptor 5, object 3 has 6.
abbrev pub three_handles : Handles
three_handles = record {
  objects = (1, 0) ∷ (2, 0) ∷ (3, 1) ∷ [];
  shared = (0, five) ∷ (1, record { fd = pos 6; owners = 1 }) ∷ [];
  next = 2;
  closed = [];
}

pub three_handles-IsHandles : IsHandles three_handles
unfolding find
three_handles-IsHandles = record {
  objects_sorted = (omega arith, (omega arith, (omega arith, tt)));
  shared_sorted = (omega arith, (omega arith, tt));
  counts = λ a. ground arith;
  owned = λ a c e. ground arith;
  below = λ a c e. ground arith;
}

one_found : find 1 three_handles.objects ≡ some 0
unfolding find
one_found = refl

pub three_at : find 3 three_handles.objects ≡ some 1
unfolding find
three_at = refl

five_found : find 0 three_handles.shared ≡ some five
unfolding find
five_found = refl

six_found : find 1 three_handles.shared ≡ some (record { fd = pos 6; owners = 1 })
unfolding find
six_found = refl

destroy_lem_example :
    (t : Handles) × (destroy 1 three_handles ≡ some t)
    × IsHandles t
    × (t.objects ≡ OrderedMap.erase 1 three_handles.objects)
    × (t.closed ≡ closed_by (pos 5) (count 0 t.objects) [])
destroy_lem_example =
    destroy_lem 1 0 three_handles five three_handles-IsHandles one_found five_found

assign_lem_example :
    (t : Handles) × (assign 3 1 three_handles ≡ some t)
    × IsHandles t
    × (t.objects ≡ OrderedMap.put 3 0 three_handles.objects)
    × (t.closed ≡ closed_by (pos 6) (count 1 t.objects) [])
assign_lem_example =
    assign_lem 3 1 0 1 three_handles (record { fd = pos 6; owners = 1 }) three_handles-IsHandles
      (λ h. omega arith) one_found three_at six_found

-- The last object takes its descriptor with it.
six_closed :
    assign 3 1 three_handles
    ≡ some (record {
      objects = (1, 0) ∷ (2, 0) ∷ (3, 0) ∷ [];
      shared = (0, record { fd = pos 5; owners = 3 }) ∷ [];
      next = 2;
      closed = 6 ∷ [];
    })
unfolding assign share release close_fd find OrderedMap.put OrderedMap.erase
six_closed = refl

abbrev one_object : Handles
one_object = record {
  objects = (1, 0) ∷ [];
  shared = (0, record { fd = pos 5; owners = 1 }) ∷ [];
  next = 1;
  closed = [];
}

one_made : construct 1 (pos 5) no_handles ≡ one_object
unfolding construct new_fd OrderedMap.put
one_made = refl

abbrev two_objects : Handles
two_objects = record {
  objects = (1, 0) ∷ (2, 0) ∷ [];
  shared = (0, five) ∷ [];
  next = 1;
  closed = [];
}

two_made : Made two_objects
unfolding construct new_fd copy_construct share OrderedMap.put find
two_made = copied 2 1 0 refl refl refl (constructed 1 (pos 5) refl at_start)

two_found : find 2 two_objects.objects ≡ some 0
unfolding find
two_found = refl

get_of_live_example :
    (c : Shared) × (find 0 two_objects.shared ≡ some c)
    × (get 2 two_objects ≡ some c.fd)
    × (c.owners ≡ 2)
get_of_live_example = get_of_live 2 0 two_objects two_made two_found

abbrev temps : Temps
temps = record { sfd = 10; pair = 11 }

three-IsFree : IsFree temps 20 three_handles
unfolding find
three-IsFree = record {
  sfd_free = refl;
  pair_free = refl;
  node_free = refl;
  sfd-pair = λ h. omega arith;
  sfd-node = λ h. omega arith;
  pair-node = λ h. omega arith;
}

three-IsApart : IsApart temps 12 20 three_handles
unfolding find
three-IsApart = record {
  arg_free = refl;
  arg-sfd = λ h. omega arith;
  arg-pair = λ h. omega arith;
  arg-node = λ h. omega arith;
}

accepted_life_example :
    (t u : Handles) × (add_accepted temps 12 20 7 three_handles ≡ some t)
    × IsHandles t
    × (get 20 t ≡ some (pos 7))
    × (t.closed ≡ [])
    × ((k : ℕ) → 20 ≢ k → find k t.objects ≡ find k three_handles.objects)
    × (erase_entry 20 t ≡ some u)
    × IsHandles u
    × (u.closed ≡ 7 ∷ [])
    × ((k : ℕ) → find k u.objects ≡ find k three_handles.objects)
accepted_life_example =
    accepted_life temps 12 20 7 three_handles three_handles-IsHandles three-IsFree three-IsApart
