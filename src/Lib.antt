-- ===== src/Lib.antt =====
-- Model of the connection client of this repository: a library for games that keeps a TCP and a UDP
-- connection to one server, runs the KCP protocol over them, and is driven from Lua scripts.
--
-- Parts, and how they interact. A script calls the functions of connclient/src/myextension.cpp,
-- which look the connection up in a registry and call a client. The calls of a client put tasks
-- into a queue for its net thread; the net thread runs them, reads and writes the sockets, drives
-- the KCP session and the timers, and puts events into a second queue, which `Update` empties on
-- the main thread by running Lua callbacks.
--
-- Files:
--   Prelude, Prelude/*  shared names: tests on numbers, integers, lists over native numbers.
--   Stream              connclient/src/stream.cpp: the byte buffer. Stream/Buffer has the
--                       invariant `IsValid`, Stream/Tail writes at the end, Stream/Room
--                       `EnsureWritable` and `Append`, Stream/History a stream over its life.
--   Wire                connclient/src/conn_protocol.h: the packed heads as bytes.
--   TimeExpire          connclient/src/time_expire.cpp: the timer of the pings.
--   KcpSession          connclient/src/kcp_session.cpp over the KCP library.
--   Os                  the system calls, and the clock of connclient/src/time_api.cpp.
--   SocketApi           connclient/src/socket_api.cpp: the calls that the client makes.
--                       SocketApi/Servers has the other calls, SocketApi/Addresses the texts of
--                       addresses, SocketApi/Descriptors an account of the open descriptors.
--   TimeApi             the rest of connclient/src/time_api.cpp, and connclient/src/sys_api.cpp.
--   FileApi             connclient/src/file_api.cpp, and file_api.h in FileApi/Names.
--   Client              connclient/src/conn_client.cpp, one file for each group of members:
--     State             the members of `ConnClientPrivate` and `SetConnState`
--     Send              SendTCPBuf, SendUDPBuf, UdpWrite, OnTcpWrite, KCPOutput, InnerClose;
--                       Send/Released is about the descriptors that a close gives back
--     Relink            AddRelinkInterval, ClearRelinkInterval
--     Connect           CreateConnect, InnerConnect, CheckTimeout, CheckRelink, SwitchNetwork
--     Ping              SendTcpPing, SendUdpPing, ConnectSuccess, ReConnectSuccess
--     Read              OnTcpRead, ReadStream, OnUdpRead, InputToKcp, CreateKCP; Read/Reassembly is
--                       about frames that come in pieces
--     Loop              NetThreadLoop; Loop/Sending is about the way from SendMsg to KCP
--     Link              the members that make up a connection, and predicates on them that the
--                       handlers keep: the invariant, the states that a walk through the handlers
--                       may come to, and the events of a first connect that it may put out
--     System            the actions of both threads, runs of them in any order, and the
--                       state machine of `conn_state_` as a relation (System/Phases)
--     Blocking          ConnectBlock and the destructor
--     Log               LogDebug, LogInfo, LogError, their macros, KcpLogFun
--     Api               Connect, Close, SendMsg, the setters, Update, CallLuaCallback
--   Extension           connclient/src/myextension.cpp over the interface `ClientApi`, which
--                       Extension/Instance fills with the client. Extension/Script has the table
--                       of the methods, and scripts as lists of calls and frames.
--   Tests               a small system, library and client, and the theorems at concrete inputs.
--
-- State and operations. A class is a record with a field for each member, without the trailing
-- underscore; a member function is a function from the record to the record, with the code's
-- result in front where it has one. -1 as a descriptor and a null pointer are `none`. A function
-- of the code is named in snake_case: `InnerClose` is `inner_close`.
--
-- Parameters. The operating system is `Os`, the allocator `Allocator`, the KCP library (ikcp.h,
-- ikcp.cpp, a copy of another project) `KcpLib`, the set of callbacks that the script system can
-- run `callable`. The library reads none of what its output callback returns; the datagrams of a
-- call are delivered after the call, in order. So a close in the output callback, which in the code
-- flushes and may release the control block while the library's call goes on, comes after that call
-- here: what the library does when it is entered again in the middle of a call is not modelled.
--
-- Bounds and fuel. `InnerClose` flushes KCP, whose output can fail and call `InnerClose` again:
-- `inner_close` recurs on a depth; where it runs out, the field `fault` says so. The loop
-- of `ReadStream` takes fuel; where it runs out, the field `fault` says so. The fuel of the loop of
-- `InputToKcp` is the number of passes that the macro `while_s` allows, 1000000 in the code.
-- Client/Read/Progress is about the fuel that is enough for `ReadStream`, Client/Read/Stuck about the
-- streams for which none is. A fault `terminated` stands for an exception that nothing catches.
-- The sum that `EnsureWritable` tests wraps around as an `int`; the offsets of `Skip` are meant within
-- the range of `int`, as Stream says. Times and other counts are unbounded numbers; the fields of the
-- wire format are 32-bit or 8-bit patterns with their wrap-around written out. The host is little-endian, and not Windows.
--
-- Not modelled: the log lines inside the other functions, the pipe that wakes `select`, the
-- priority of the net thread and its sleep without descriptors; the races between the two threads
-- on members that both use, each call of the main thread and each action of the net thread counting
-- as atomic; what a Lua function does while it runs as a callback, a change
-- of the registry in the middle of the update of a frame included; concurrentqueue.h, a copy of
-- another project, used as a queue.
pub mod Prelude
pub mod Stream
pub mod Wire
pub mod TimeExpire
pub mod KcpSession
pub mod Os
pub mod FileApi
pub mod SocketApi
pub mod TimeApi
pub mod Client
pub mod Extension
pub mod Tests
