-- ===== src/FdKey/Order.antt =====
-- lib/eventmgr/FdMgr.h: the order of addresses, and the comparison of keys of each kind.
use cpp_coroutine.Common.{
  ℕ, ◌≡◌, ◌⊎◌, inl, inr, refl, true, false, not, [], ◌∷◌, ◌==◌, ltb, if◌then◌else◌, arith,
}
use cpp_coroutine.Common.Int.{pos}
use cpp_coroutine.Util.{PortType}
use cpp_coroutine.FdKey.{
  Text, text_eq, text_lt, IpPort, ip_port_empty, ip_port_eq, ip_port_lt, port_type_no, no_ip_port,
  no_fd, fd_empty, fd_eq, FdKey, key_lt,
}

pub text_eq_refl : (s : Text) → text_eq s s ≡ true
unfolding text_eq
text_eq_refl [] = refl
text_eq_refl (a ∷ s) = ground (arith, text_eq_refl s)

pub eq_of_text_eq : (s t : Text) → text_eq s t ≡ true → s ≡ t
unfolding text_eq
eq_of_text_eq [] [] h = refl
eq_of_text_eq [] (b ∷ t) h = cc
eq_of_text_eq (a ∷ s) [] h = cc
eq_of_text_eq (a ∷ s) (b ∷ t) h = ground (arith, eq_of_text_eq s t)

text_lt_irrefl : (s : Text) → text_lt s s ≡ false
unfolding text_lt
text_lt_irrefl [] = refl
text_lt_irrefl (a ∷ s) = ground (arith, text_lt_irrefl s)

text_lt_trans : (s t u : Text) → text_lt s t ≡ true → text_lt t u ≡ true → text_lt s u ≡ true
unfolding text_lt
text_lt_trans [] [] u h k = cc
text_lt_trans [] (b ∷ t) [] h k = cc
text_lt_trans [] (b ∷ t) (c ∷ u) h k = refl
text_lt_trans (a ∷ s) [] u h k = cc
text_lt_trans (a ∷ s) (b ∷ t) [] h k = cc
text_lt_trans (a ∷ s) (b ∷ t) (c ∷ u) h k = ground (arith, text_lt_trans s t u)

text_lt_total : (s t : Text) → text_eq s t ≡ false → (text_lt s t ≡ true) ⊎ (text_lt t s ≡ true)
unfolding text_lt text_eq
text_lt_total [] [] h = cc
text_lt_total [] (b ∷ t) h = inl refl
text_lt_total (a ∷ s) [] h = inr refl
text_lt_total (a ∷ s) (b ∷ t) h = ground (arith, text_lt_total s t)

port_type_cases : (a b : PortType) → port_type_no a ≡ port_type_no b → a ≡ b
port_type_cases a b h = ground arith

pub eq_of_ip_port_eq : (a b : IpPort) → ip_port_eq a b ≡ true → a ≡ b
unfolding ip_port_eq
eq_of_ip_port_eq a b h = ground (arith, eq_of_text_eq a.ip b.ip, port_type_cases a.type b.type)

pub ip_port_eq_refl : (a : IpPort) → ip_port_eq a a ≡ true
unfolding ip_port_eq
ip_port_eq_refl a = ground (arith, text_eq_refl a.ip)

pub ip_port_lt_irrefl : (a : IpPort) → ip_port_lt a a ≡ false
unfolding ip_port_lt
ip_port_lt_irrefl a = ground (arith, text_lt_irrefl a.ip)

pub ip_port_lt_trans :
    (a b c : IpPort) → ip_port_lt a b ≡ true → ip_port_lt b c ≡ true → ip_port_lt a c ≡ true
unfolding ip_port_lt
ip_port_lt_trans a b c h k = ground (
  arith,
  text_lt_trans a.ip b.ip c.ip,
  eq_of_text_eq a.ip b.ip,
  eq_of_text_eq b.ip c.ip,
  eq_of_text_eq a.ip c.ip,
  text_eq_refl a.ip,
  text_lt_irrefl a.ip,
)

pub ip_port_lt_total :
    (a b : IpPort) → ip_port_eq a b ≡ false → (ip_port_lt a b ≡ true) ⊎ (ip_port_lt b a ≡ true)
unfolding ip_port_lt ip_port_eq
ip_port_lt_total a b h = ground (
  arith,
  text_lt_total a.ip b.ip,
  eq_of_text_eq a.ip b.ip,
  eq_of_text_eq b.ip a.ip,
  text_eq_refl a.ip,
)

-- The keys that the table holds: those of accepted and listening sockets, and of connections made;
-- and those it is asked for by address. A lookup by descriptor uses a key of the first kind.
abbrev pub plain_key : ℕ → FdKey
plain_key fd = record { ip_port = no_ip_port; socket_fd = pos fd }

abbrev pub conn_key : IpPort → ℕ → FdKey
conn_key a fd = record { ip_port = a; socket_fd = pos fd }

abbrev pub addr_key : IpPort → FdKey
addr_key a = record { ip_port = a; socket_fd = no_fd }

-- Every address but the missing one comes after it.
nonempty_text :
    (s : Text)
    → text_eq s [] ≡ false
    → (text_lt [] s ≡ true) × (text_lt s [] ≡ false) × (text_eq [] s ≡ false)
unfolding text_eq text_lt
nonempty_text [] h = cc
nonempty_text (a ∷ s) h = (refl, refl, refl)

empty_after :
    (a : IpPort)
    → ip_port_empty a ≡ false
    → (ip_port_lt no_ip_port a ≡ true)
      × (ip_port_lt a no_ip_port ≡ false)
      × (ip_port_eq a no_ip_port ≡ false)
      × (ip_port_eq no_ip_port a ≡ false)
unfolding ip_port_empty ip_port_lt ip_port_eq
empty_after a h = ground (arith, nonempty_text a.ip, eq_of_text_eq a.ip [], text_eq_refl [])

module _ (a : IpPort) (full : ip_port_empty a ≡ false) where
  pub plain-lt-conn : (f g : ℕ) → key_lt (plain_key f) (conn_key a g) ≡ not (f == g)
  unfolding key_lt fd_empty fd_eq
  plain-lt-conn f g = ground (arith, empty_after a full)

  pub conn-lt-plain : (f g : ℕ) → key_lt (conn_key a g) (plain_key f) ≡ false
  unfolding key_lt fd_empty fd_eq
  conn-lt-plain f g = ground (arith, empty_after a full)

  pub plain-lt-addr : (f : ℕ) → key_lt (plain_key f) (addr_key a) ≡ true
  unfolding key_lt fd_empty fd_eq
  plain-lt-addr f = ground (arith, empty_after a full)

  pub addr-lt-plain : (f : ℕ) → key_lt (addr_key a) (plain_key f) ≡ false
  unfolding key_lt fd_empty fd_eq
  addr-lt-plain f = ground (arith, empty_after a full)

  module _ (b : IpPort) (full' : ip_port_empty b ≡ false) where
    pub conn-lt-conn :
        (f g : ℕ)
        → key_lt (conn_key a f) (conn_key b g) ≡ (if f == g then false else ip_port_lt a b)
    unfolding key_lt fd_empty fd_eq
    conn-lt-conn f g = ground (arith, eq_of_ip_port_eq a b, ip_port_lt_irrefl a)

    pub conn-lt-addr : (f : ℕ) → key_lt (conn_key a f) (addr_key b) ≡ ip_port_lt a b
    unfolding key_lt fd_empty fd_eq
    conn-lt-addr f = ground (arith, eq_of_ip_port_eq a b, ip_port_lt_irrefl a)

    pub addr-lt-conn : (f : ℕ) → key_lt (addr_key a) (conn_key b f) ≡ ip_port_lt a b
    unfolding key_lt fd_empty fd_eq
    addr-lt-conn f = ground (arith, eq_of_ip_port_eq a b, ip_port_lt_irrefl a)

pub plain-lt-plain : (f g : ℕ) → key_lt (plain_key f) (plain_key g) ≡ ltb f g
unfolding key_lt ip_port_empty ip_port_eq ip_port_lt fd_empty fd_eq text_eq
plain-lt-plain f g = ground arith
