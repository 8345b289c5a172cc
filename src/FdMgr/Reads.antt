-- ===== src/FdMgr/Reads.antt =====
-- lib/eventmgr/FdMgr.h: the methods of `CFdMgr`, on tables of the two kinds of entry.
use cpp_coroutine.Common.{
  ℕ, suc, ◌≡◌, ◌↔◌, ◌<◌, refl, ◌∙◌, false, [], ◌∷◌, none, some, if◌then◌else◌, arith,
}
use cpp_coroutine.Common.Int.{pos}
use cpp_coroutine.OrderedMap
use cpp_coroutine.OrderedMap.{Map, From, IsSorted}
use cpp_coroutine.OrderedMap.Laws.{put-IsSorted, find-put, find_below}
use cpp_coroutine.Util.{PortType, io_ok, io_err}
use cpp_coroutine.FdKey.{Text, FdKey, IpPort, ip_port_empty, ip_port_eq, key_lt}
use cpp_coroutine.FdKey.Order.{plain_key, plain-lt-plain}
use cpp_coroutine.FdMgr.{
  FdData, fd_data, Table, find, erase, get_fd, get_conn, add_fd, add_conn, destroy,
}
use cpp_coroutine.FdMgr.Lookup.{
  Conns, table, IsOrdered, find_conn, Under, Heads, find_fd_plain-From, find-answer-From,
  answer-Heads, answer, find_addr,
}
use cpp_coroutine.FdMgr.Insert.{
  FreshFd, insert_plain, insert_conn, insert_addr, insert_conn-IsOrdered, find_conn-insert_conn,
}

answer-put :
    (f g : ℕ) (d : FdData) (ps : Map FdData) (cs : Conns FdData)
    → f < g
    → answer f (OrderedMap.put g d ps) cs ≡ none
unfolding OrderedMap.put
answer-put f g d [] cs lt = ground arith
answer-put f g d ((j, w) ∷ ps) cs lt = ground (arith, answer-put f g d ps cs lt)

erase_step :
    (k j : FdKey) (v : FdData) (m : Table FdData)
    → erase k ((j, v) ∷ m) ≡ (if key_lt j k then (j, v) ∷ erase k m else m)
unfolding erase
erase_step k j v m = refl

erase-table :
    (lo f : ℕ) (v : FdData) (ps : Map FdData) (cs : Conns FdData)
    → From lo ps
    → OrderedMap.find f ps ≡ some v
    → erase (plain_key f) (table ps cs) ≡ table (OrderedMap.erase f ps) cs
unfolding OrderedMap.find OrderedMap.erase
erase-table lo f v [] cs s h = cc
erase-table lo f v ((j, w) ∷ ps) cs s h = ground (
  arith,
  erase_step (plain_key f) (plain_key j) w (table ps cs),
  plain-lt-plain j f,
  find_below f (suc j) ps s.1,
  erase-table (suc j) f v ps cs s.1,
)

module _ (ps : Map FdData) (cs : Conns FdData) (sorted : IsSorted ps) (ordered : IsOrdered cs) where
  -- In a table of sorted descriptors and ordered connections, `Get(fd)` of a descriptor that was
  -- added with no address gives its entry.
  pub get_fd_plain :
      (f : ℕ) {v : FdData} → OrderedMap.find f ps ≡ some v → get_fd (pos f) (table ps cs) ≡ some v
  unfolding get_fd
  get_fd_plain f {v} h = find_fd_plain-From 0 f ps cs v sorted h

  -- In a table of sorted descriptors `ps` and ordered connections `cs`, a descriptor that is not
  -- in `ps` is found by `Get(fd)` exactly if all of `ps` are smaller and the first connection has
  -- it.
  pub get_fd_conn_iff :
      (f : ℕ) (v : FdData)
      → OrderedMap.find f ps ≡ none
      → (get_fd (pos f) (table ps cs) ≡ some v) ↔ (Under f ps × Heads f v cs)
  unfolding get_fd
  get_fd_conn_iff f v h = rw (find-answer-From 0 f ps cs sorted ordered h) (answer-Heads f v ps cs)

  -- In a table of sorted descriptors and ordered connections, `Get(ip, port, type)` of an address
  -- that is not empty gives the connection with that address, or nothing if there is none.
  pub get_conn_lem :
      (ip : Text) (port : ℕ) (type : PortType)
      → let a : IpPort = record { ip = ip; port = port; type = type } in
        ip_port_empty a ≡ false → get_conn ip port type (table ps cs) ≡ find_conn a cs
  unfolding get_conn
  get_conn_lem ip port type full = find_addr _ ps cs full ordered

  -- In a table of sorted descriptors and ordered connections, `Add(fd)` of a descriptor that is
  -- in neither part succeeds and puts it among the descriptors.
  pub add_fd_lem :
      (f : ℕ)
      → OrderedMap.find f ps ≡ none
      → FreshFd f cs
      → add_fd (pos f) (table ps cs) ≡ some (table (OrderedMap.put f (fd_data (pos f)) ps) cs)
  unfolding add_fd
  add_fd_lem f h n = insert_plain f (fd_data (pos f)) ps cs sorted ordered h n

  -- In a table of sorted descriptors and ordered connections, `Add(fd, ip, port, type)` with an
  -- address that is not empty and not in use, and a descriptor that is in neither part, succeeds:
  -- the connections stay ordered, the new address is found with the new node, and the lookup by
  -- any other address is as before (the lookup by descriptor is not stated).
  pub add_conn_lem :
      (f : ℕ) (ip : Text) (port : ℕ) (type : PortType)
      → let a : IpPort = record { ip = ip; port = port; type = type } in
        ip_port_empty a ≡ false
        → find_conn a cs ≡ none
        → OrderedMap.find f ps ≡ none
        → FreshFd f cs
        → (cs' : Conns FdData) × (add_conn (pos f) ip port type (table ps cs) ≡ some (table ps cs'))
          × IsOrdered cs'
          × ((c : IpPort)
              → find_conn c cs'
                ≡ (if ip_port_eq a c then some (fd_data (pos f)) else find_conn c cs))
  unfolding add_conn
  add_conn_lem f ip port type full absent free n =
      let a : IpPort = record { ip = ip; port = port; type = type } in
      let d : FdData = fd_data (pos f) in
      (
        insert_conn a f d cs,
        insert_addr a f d ps cs full ordered n absent free,
        insert_conn-IsOrdered a f d cs full absent ordered,
        λ c. find_conn-insert_conn a c f d cs absent,
      )

  -- Below a descriptor that was put in, `Get(fd)` finds no connection.
  pub get_fd-put :
      (f g : ℕ) (d : FdData)
      → OrderedMap.find f ps ≡ none
      → f < g
      → get_fd (pos f) (table (OrderedMap.put g d ps) cs) ≡ none
  unfolding get_fd
  get_fd-put f g d h lt =
      find-answer-From 0 f (OrderedMap.put g d ps) cs (put-IsSorted g d ps sorted) ordered
        (ground (arith, find-put f g d ps))
      ∙ answer-put f g d ps cs lt

  -- In such a table, once `Add(fd)` has put in a new descriptor `g` greater than a descriptor `f`
  -- that is not in `ps`, `Get(f)` finds nothing and `Destroy(f)` fails and changes nothing, also
  -- if `f` is the socket of a connection.
  pub get_fd_hidden :
      (f g : ℕ) (t : Table FdData)
      → OrderedMap.find f ps ≡ none
      → OrderedMap.find g ps ≡ none
      → FreshFd g cs
      → f < g
      → add_fd (pos g) (table ps cs) ≡ some t
      → (get_fd (pos f) t ≡ none) × (destroy (pos f) t ≡ (io_err, t))
  get_fd_hidden f g t hf hg n lt e =
      let d : FdData = fd_data (pos g) in
      let same : t ≡ table (OrderedMap.put g d ps) cs = cc (e, add_fd_lem g hg n) in
      let hidden : find (plain_key f) (table (OrderedMap.put g d ps) cs) ≡ none =
        unfold get_fd in get_fd-put f g d hf lt in
      rw same (unfold get_fd destroy in (hidden, rw (hidden, destroy)))

  -- In a table of sorted descriptors and ordered connections, `Destroy(fd)` of a descriptor that
  -- was added with no address takes its entry out, and no other.
  pub destroy_plain :
      (f : ℕ) (v : FdData)
      → OrderedMap.find f ps ≡ some v
      → destroy (pos f) (table ps cs) ≡ (io_ok, table (OrderedMap.erase f ps) cs)
  unfolding destroy
  destroy_plain f v h =
      rw (find_fd_plain-From 0 f ps cs v sorted h, erase-table 0 f v ps cs sorted h, destroy)
