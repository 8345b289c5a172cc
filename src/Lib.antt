-- ===== src/Lib.antt =====
-- cpp_coroutine: coroutines for x86-64 Linux, with a scheduler, timers and a table of sockets on them.
--
-- A program calls `CoroutineMgr::Init` and then loops over `CMonitorEpoll::RunOnce` and
-- `CoroutineMgr::ScheduleAll`. Each request is a coroutine: `CreateCoroutine` makes its stack and its
-- context, `__SwitchCoroutine__` stores one context and loads another, `CoroutineMgr` keeps the
-- coroutines by id and `CExpireMgr` those that wait by deadline. `RunOnce` wakes an expired coroutine
-- or asks for events: it accepts clients, makes a coroutine for each package of theirs, and gives the
-- answers of other servers to the coroutines that wait for them in `tcpsendrecv`. Sockets stand in the
-- table of `CFdMgr`, received bytes in `CMemData`, and the programs of test1 and test2 exchange packages
-- of `HeadPkg`.
--
-- Which file is about which part:
--   Common, OrderedMap        helpers; `std::map` and `std::set` over unsigned keys
--   Util, Util/Timer,         lib/eventmgr/util.h: enumerations, `CTimerMS` (`Reset` is `reset` and so
--     Util/MemData              on), `CMemData`; Elapsed and Content hold the lemmas
--   ExpireMgr                 lib/eventmgr/ExpireMgr.h: `Del`, `Add`, `Set`, `NextWaitTime`; Links is
--                               about the two maps, Spec about deadlines by id
--   Coroutine                 lib/coroutine: the machine and switch.s; Switch has its lemmas, Create
--                               `CreateCoroutine`, Stack `__GetStack__`
--   CoroutineMgr              lib/eventmgr/CoroutineMgr.h and .cpp: `Create`, `Destroy`, `SetReady`,
--                               `Init`, `WaitAndSchedule`, `Entry`, `Schedule`, `ScheduleAll`;
--                               Invariant, Start, Slices and Rounds hold the lemmas;
--                               Slices/Ends is about what a part leaves
--   Fd                        lib/eventmgr/Fd.h and Fd.cpp: `stFd` and `CFd`; Counts, Objects, Making
--                               and Sequences hold the lemmas
--   FdKey, FdMgr              lib/eventmgr/FdMgr.h: the comparison of keys, the table; Nodes, Plain and
--                               Pointers are about `stFdData*`
--   EventMgr                  lib/eventmgr/EventMgr.h: the timer part of `RunOnce`; Wake has its lemmas
--   EventMgr/Net              lib/eventmgr/EventMgr.h and .cpp: what the monitor keeps, the calls of the
--                               system, `RegisterPackage` and the tests of events
--   EventMgr/Handlers         lib/eventmgr/EventMgr.h: `TcpConnect`, `Add`, `Del`, `DelFd`, `NewReq`,
--                               `DoReadTcp`, `AddServerFd`; Accepts, Requests, Replies, Hidden and
--                               Closing hold the lemmas
--   EventMgr/Dispatch         lib/eventmgr/EventMgr.h: `RunOnce`; the main loop of test2/main2.cpp;
--                               Rounds has the lemmas on rounds of it, Reach those on steps in
--                               any order
--   EventMgr/Call             calls that wait, up to the wait and from it on; Bodies is
--                               about the scheduler running them
--   EventMgr/Send, Receive    lib/eventmgr/EventMgr.cpp and .h: `tcpsend`, with its loop in Loop
--                               and its faults in Total, and `tcprecv`, with its branches in Once
--                               and a new buffer in Fresh
--   EventMgr/Connect          lib/eventmgr/EventMgr.cpp: `tcpconnect`, `tcpsendrecv`; Steps is about the
--                               parts between two waits, Request about a call over a connection;
--                               Exchange goes from an answer that is read to the end of the call
--   Fd/Entries                lib/eventmgr/FdMgr.h: the objects of `CFd` in the table's entries and on
--                               the way to them; Kept, Owned, Life and Accepted hold the lemmas
--   EventMgr/Kept             lib/eventmgr/EventMgr.h: handlers that leave the scheduler as it is
--   EventMgr/Unknown,         lib/eventmgr/EventMgr.h: an answer under a number that no call has;
--     Listeners, Udp            `AddServerFd`; `udpsendrecv` and `DoTask`
--   Fd/Sockets                lib/eventmgr/Fd.h and EventMgr.cpp: the classes of sockets and `CFdEpoll`;
--                               Opening, Servers and Clients are about `Init`
--   Util/Text                 lib/eventmgr/util.h and EventMgr.h: `format`, `GetYMDHMS`, `DumpHex`,
--                               `PrintEpollEvent`; Digits and Dates read the texts back
--   DebugString               lib/eventmgr/CoroutineMgr.h and FdMgr.h: `DebugString`, and the lines that
--                               `Dump` logs
--   HeadPkg                   pb/head.h, pb/head.cpp, pb/testpb.proto; Prefix is about longer buffers
--   Examples                  test1/main1.cpp and test2/main2.cpp: what the callbacks share; Calls and
--                               Packages hold the lemmas on their calls and packages
--   Examples/Server           `process` of test2/main2.cpp; Answers is about what it sends,
--                               Scheduled about it as the callback of a coroutine
--   Examples/Client           `process` of test1/main1.cpp; Asking goes to the wait for the answer,
--                               Forward from there on, Delivered from the answer that is read to
--                               the end, Lost is about the numbers of both sides
--   Examples/Start            `main` of both up to the loop; Ready is about the state there
--   CloseConnect              test1/close-connect-client.cpp and close-connect-server.cpp, `main` of
--                               both; Reads is about the text that is printed, Descriptors about
--                               what stays open
--   Tests                     runs on small data
--
-- Machine integers are natural numbers with the wrap written out (`% 2 ^ 32`, `% 2 ^ 64`), `int` is an
-- integer, a pointer to a node is its key, also where a callback keeps it over a wait: a node that was
-- erased and entered again under the same key is then taken for the old one. The length that `recv`
-- returns is narrowed to `int`. `none` stands for a fault: an access through a null or
-- dangling pointer or outside an array, a read of what was never assigned, or a return into nothing.
-- The memory of the machine is read and written in words of eight bytes, and addresses do not wrap.
--
-- A callback is a tree of its calls of `WaitAndSchedule` and of changes of what the program shares
-- (`Body`); its code, the clock, `calloc` and the code that protobuf generates are arguments. A
-- callback makes no request of its own in this model, so the table of coroutines does not grow while one
-- runs. The saved registers of a node are told apart by where they lead (`Saved`); the machine of
-- Coroutine is about how a switch gets there. The functions that a callback calls and that may wait are
-- trees too (`Call`), which may fault; `until_wait` runs one up to its next wait or its end, and `as_body`
-- makes a part of a callback of one that does not fault. The calls of the system, `epoll_wait`, `epoll_ctl`,
-- `accept`, `recv`, `send`, `socket` and `connect`, are an argument of type `Calls`, and what they change is
-- part of what the program shares. The id of the coroutine that runs is an argument of `tcpconnect`, and
-- the functions for checks and sequence numbers are arguments by their address.
--
-- `ScheduleAll` recurs on fuel: a node costs at most two steps, since one that was ready is seen
-- again, so twice the bound on the ids is enough. The loop of `tcpsend` has one step of fuel more than
-- there are bytes, since each call of `send` after which it goes on has taken one. `Body` and `Call` are
-- finite between two waits. The main loop runs a given number of rounds.
--
-- The table of FdMgr holds descriptors; the objects of `CFd` that its entries keep alive are those of
-- Fd/Entries. The objects of Fd have addresses, and `shared_ptr` its counts.
--
-- A callback whose calls cannot fault is its tree `as_body`; so `process` of test2, for a buffer that
-- `Decode` can read, is run by the scheduler over `App`.
--
-- The programs of test1 and test2 share the sockets and the counter of `HeadPkg` (`App`); `within` runs a
-- call on the sockets among their calls. The messages of testpb.proto are records, and their code is an
-- argument. While `process` waits, its request does not change, since nothing but `NewReq` and `DoReadTcp`
-- writes to the request of a node, and these to a new one.
--
-- Not modelled: `DoReadUdp` and `DoWrite`, which do nothing; logs and other printing, for
-- which `TcpConnect` asks for the error; `test` and `testmap` of the programs, which nothing calls.
-- `malloc` of C++ containers and `calloc` in `CreateCoroutine` for a node do not fail: a node of the
-- scheduler always has a context. The tree of the descriptor table is seen as the list of its entries.
pub mod Common
pub mod OrderedMap
pub mod Util
pub mod Fd
pub mod FdKey
pub mod FdMgr
pub mod CoroutineMgr
pub mod EventMgr
pub mod Examples
pub mod CloseConnect
pub mod DebugString
pub mod HeadPkg
pub mod Tests
pub mod Coroutine
pub mod ExpireMgr
