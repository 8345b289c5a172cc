-- ===== src/Tests/Table.antt =====
-- A descriptor table with a socket that listens and a connection.
use cpp_coroutine.Common.{◌≡◌, ◌↔◌, refl, false, [], ◌∷◌, some, none, arith, if◌then◌else◌}
use cpp_coroutine.Common.Int.{pos}
use cpp_coroutine.OrderedMap
use cpp_coroutine.OrderedMap.{Map, IsSorted}
use cpp_coroutine.Util.{port_tcp, io_ok, io_err}
use cpp_coroutine.FdKey.{Text, IpPort, ip_port_empty, ip_port_eq, text_eq}
use cpp_coroutine.FdMgr.{FdData, fd_data, Table, get_fd, get_conn, add_fd, add_conn, destroy}
use cpp_coroutine.FdMgr.Lookup.{Conns, table, IsOrdered, find_conn, Under, Heads}
use cpp_coroutine.FdMgr.Insert.{FreshFd}
use cpp_coroutine.FdMgr.Reads.{
  get_fd_plain, get_fd_conn_iff, get_conn_lem, add_fd_lem, add_conn_lem, get_fd_hidden,
  destroy_plain,
}

abbrev server : Text
server = 49 ∷ 48 ∷ []

abbrev client : Text
client = 49 ∷ 49 ∷ []

abbrev address : Text → IpPort
address ip = record { ip = ip; port = 80; type = port_tcp }

abbrev listening : Map FdData
listening = (3, fd_data (pos 3)) ∷ []

abbrev connections : Conns FdData
connections = (address server, 6, fd_data (pos 6)) ∷ []

listening-IsSorted : IsSorted listening
listening-IsSorted = (omega arith, tt)

connections-IsOrdered : IsOrdered connections
unfolding ip_port_empty text_eq
connections-IsOrdered = (refl, tt)

three_found : OrderedMap.find 3 listening ≡ some (fd_data (pos 3))
unfolding OrderedMap.find
three_found = refl

six_absent : OrderedMap.find 6 listening ≡ none
unfolding OrderedMap.find
six_absent = refl

seven_absent : OrderedMap.find 7 listening ≡ none
unfolding OrderedMap.find
seven_absent = refl

server_full : ip_port_empty (address server) ≡ false
unfolding ip_port_empty text_eq
server_full = refl

client_full : ip_port_empty (address client) ≡ false
unfolding ip_port_empty text_eq
client_full = refl

client_absent : find_conn (address client) connections ≡ none
unfolding ip_port_eq text_eq
client_absent = refl

seven_fresh : FreshFd 7 connections
seven_fresh = ((λ h. omega arith), tt)

three_read : get_fd (pos 3) (table listening connections) ≡ some (fd_data (pos 3))
three_read =
    get_fd_plain listening connections listening-IsSorted connections-IsOrdered 3 three_found

destroy_plain_run :
    destroy (pos 3) (table listening connections)
    ≡ (io_ok, table (OrderedMap.erase 3 listening) connections)
destroy_plain_run =
    destroy_plain listening connections listening-IsSorted connections-IsOrdered 3 (fd_data (pos 3))
      three_found

get_fd_conn_iff_example :
    (get_fd (pos 6) (table listening connections) ≡ some (fd_data (pos 6)))
    ↔ (Under 6 listening × Heads 6 (fd_data (pos 6)) connections)
get_fd_conn_iff_example =
    get_fd_conn_iff listening connections listening-IsSorted connections-IsOrdered 6
      (fd_data (pos 6)) six_absent

get_conn_lem_run :
    get_conn server 80 port_tcp (table listening connections)
    ≡ find_conn (address server) connections
get_conn_lem_run =
    get_conn_lem listening connections listening-IsSorted connections-IsOrdered server 80 port_tcp
      server_full

seven_added :
    add_fd (pos 7) (table listening connections)
    ≡ some (table (OrderedMap.put 7 (fd_data (pos 7)) listening) connections)
seven_added =
    add_fd_lem listening connections listening-IsSorted connections-IsOrdered 7 seven_absent
      seven_fresh

add_conn_lem_example :
    (cs : Conns FdData) × (add_conn (pos 7) client 80 port_tcp (table listening connections)
      ≡ some (table listening cs))
    × IsOrdered cs
    × ((c : IpPort)
        → find_conn c cs ≡ (
            if ip_port_eq (address client) c
            then some (fd_data (pos 7))
            else find_conn c connections))
add_conn_lem_example =
    add_conn_lem listening connections listening-IsSorted connections-IsOrdered 7 client 80 port_tcp
      client_full client_absent seven_absent seven_fresh

abbrev grown : Table FdData
grown = table (OrderedMap.put 7 (fd_data (pos 7)) listening) connections

get_fd_hidden_run : (get_fd (pos 6) grown ≡ none) × (destroy (pos 6) grown ≡ (io_err, grown))
get_fd_hidden_run =
    get_fd_hidden listening connections listening-IsSorted connections-IsOrdered 6 7 grown
      six_absent seven_absent seven_fresh (omega arith) seven_added
