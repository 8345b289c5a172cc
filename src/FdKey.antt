-- ===== src/FdKey.antt =====
-- lib/eventmgr/FdMgr.h, `stFdKey`: the key of the table of descriptors, an address and a
-- descriptor, either of which may be missing, and the comparison that `std::map` is given.
pub mod Order
use cpp_coroutine.Common.{
  ℕ, Bool, true, false, ◌&&◌, ◌||◌, not, List, [], ◌∷◌, ◌==◌, ltb, if◌then◌else◌,
}
use cpp_coroutine.Common.Int.{ℤ, pos, negsuc, ltb_ℤ}
use cpp_coroutine.Util.{PortType, port_tcp, port_udp}

-- A text by its bytes.
abbrev pub Text : Type 0
Text = List ℕ

unfoldable pub text_eq : Text → Text → Bool
text_eq [] [] = true
text_eq (a ∷ s) (b ∷ t) = a == b && text_eq s t
text_eq _ _ = false

-- `operator<` of `std::string`.
unfoldable pub text_lt : Text → Text → Bool
text_lt [] [] = false
text_lt [] (b ∷ t) = true
text_lt (a ∷ s) [] = false
text_lt (a ∷ s) (b ∷ t) = ltb a b || (a == b && text_lt s t)

-- The enumerators of `EPORTTYPE` as numbers.
abbrev pub port_type_no : PortType → ℕ
port_type_no port_tcp = 0
port_type_no port_udp = 1

pub record IpPort : Type 0 where
  pub ip : Text
  pub port : ℕ
  pub type : PortType

-- The constructor of `stIpPort`.
abbrev pub no_ip_port : IpPort
no_ip_port = record { ip = []; port = 0; type = port_udp }

-- `stIpPort::empty`
unfoldable pub ip_port_empty : IpPort → Bool
unfolding text_eq
ip_port_empty a = text_eq a.ip [] && a.port == 0

-- `stIpPort::operator==`; `operator!=` is its negation.
unfoldable pub ip_port_eq : IpPort → IpPort → Bool
ip_port_eq a b =
    text_eq a.ip b.ip && (a.port == b.port && port_type_no a.type == port_type_no b.type)

-- `stIpPort::operator<`
unfoldable pub ip_port_lt : IpPort → IpPort → Bool
ip_port_lt a b =
    if not (text_eq a.ip b.ip)
    then text_lt a.ip b.ip
    else if not (a.port == b.port)
    then ltb a.port b.port
    else if not (port_type_no a.type == port_type_no b.type)
    then ltb (port_type_no a.type) (port_type_no b.type)
    else false

-- The descriptor of `stFdKey::stFd`; its constructor stores -1.
abbrev pub no_fd : ℤ
no_fd = negsuc 0

-- `stFdKey::stFd::empty`
unfoldable pub fd_empty : ℤ → Bool
fd_empty fd = ltb_ℤ fd (pos 0)

unfoldable pub fd_eq : ℤ → ℤ → Bool
fd_eq (pos a) (pos b) = a == b
fd_eq (negsuc a) (negsuc b) = a == b
fd_eq _ _ = false

pub record FdKey : Type 0 where
  pub ip_port : IpPort
  pub socket_fd : ℤ

-- `stFdKey::operator<`: keys with the same address, or the same descriptor, count as equal.
unfoldable pub key_lt : FdKey → FdKey → Bool
key_lt a b =
    if (not (ip_port_empty a.ip_port) && not (ip_port_empty b.ip_port))
      && ip_port_eq a.ip_port b.ip_port
    then false
    else if (not (fd_empty a.socket_fd) && not (fd_empty b.socket_fd))
        && fd_eq a.socket_fd b.socket_fd
    then false
    else if not (ip_port_eq a.ip_port b.ip_port)
    then ip_port_lt a.ip_port b.ip_port
    else if not (fd_eq a.socket_fd b.socket_fd)
    then ltb_ℤ a.socket_fd b.socket_fd
    else false
