-- ===== src/Lib.antt =====
-- EyPS is a game server: a UDP server that speaks KCP with the game's clients, and an HTTP server
-- for logins. This library models the program in C++ function by function.
--
-- Parts and files (paths of the code from the repository's root):
--   Wire      util/util.h, util/bufferView.*, util/dynamicBuffer.*: integers of either byte order,
--             strings, and the two buffers, with their offsets, capacities and exceptions.
--   Packet    util/BasePacket.*: the frame of a game packet, read and built over the buffers.
--   Crypto    util/Crypto.cpp: Xor, generateKey, createToken and the base64 wrappers.
--   Game      game/Kcp.* (Handshake, Kcp, Queue), game/packet (Handlers, Messages) and
--             game/GameServer.* (Server). A datagram reaches ParsePacket, which looks its sender up
--             in g_Clients; a stranger's request makes a connection, a client's datagram goes
--             through KCP, is deciphered and pushed to the front of the connection's queue; the
--             queue's thread takes packets off the back and calls their handlers, which answer. Server/Life
--             puts the table beside the turns of all the connections' threads, and keeps the numbers of
--             the connections that have deleted themselves (Freed).
--   Config    util/psConfig.*: the lookups in psconfig.lua, with the Lua stack.
--   Pool      pool/IOServicePool.*: the services, given out in turn.
--   Database  database/Account.*, database/databaseHelper.* and database/databaseManager.* (Manager):
--             accounts over the collections of a database (Collections), the ids and the session keys,
--             and what it means that a database is sound (Sound).
--   Http      http: the authenticators (Auth) and the logins (Login) over the accounts, the JSON answers
--             (Bodies, Objects) as the calls of rapidjson's writer (Json), which handlers answer a
--             request's target (Routes), the region answers (Regions), the whole responses (Responses, and
--             Responses/Unsent for those that nothing sends),
--             the session with its pending operations (Session), the acceptor (Listener), and a
--             connection from the detection of TLS to its end, with its timers (Connection).
--   Logger    util/log.*: the sinks of the log.
--   Main      main.cpp and util/Singleton.h, over World, what the surroundings decide: main loads the
--             keys and the configuration, opens the database, makes the pool and starts the HTTP server
--             on its first service and the game server on the next; the signal handler ends the pool.
--   Prelude   what all of them share; Tests: runs on concrete inputs.
--
-- How the code is modelled. An object is a record, a method a function on it. A method that throws
-- is an `Exec` of Prelude/Exec, which keeps the object beside the exception; where no exception but
-- undefined behaviour is possible (a null pointer, a division by zero, an overrun buffer) the result
-- is `none`, which also stands for an exception that nothing catches. An unsigned integer of w bits
-- is a native number with its wrap-around written out; a byte string is a list of numbers. The clock
-- is an argument. The detached threads are steps of the relation Game.Queue.Reach.Step, one per call
-- of the connection that they make; in Game/Server/Life a turn of a thread is one packet or one round
-- of the clock.
--
-- Parameters. What is not in the repository is a parameter: the KCP library's calls (Game/Ikcp), the
-- generated protobuf classes and the packet ids (Packet/Head, Game/Messages), the Lua state (Config),
-- the calls of mongocxx (Database/Collections), rapidjson's parser (Http/Login), SHA-1, Boost's base64
-- (Crypto/Base64), the error codes of Boost's sockets, and for which datagrams the socket's
-- send_to throws (`sends` of Game/Ikcp). Where it throws in ParsePacket, no connection is stored;
-- where it throws in a connection's thread, the program ends. A parameter too is what the compiled
-- program reads where http/HttpHandleReq.h casts a span to a string, which is undefined (`as_string`
-- of Http/Regions).
-- std::mt19937_64 is written out (Crypto/Mersenne).
--
-- Bounds and fuel. Sizes are addresses: theorems on buffers ask for lengths below 2 ^ 62 or so. The
-- loop of PacketQueueHandler, as it runs where no packet comes meanwhile, runs on the queue's length
-- plus one, since no handler pushes packets; Game/Server/Life interleaves one pass of it, which needs no
-- fuel, with the datagrams. Xor counts with an int, and has a result below 2 ^ 31 bytes only. A read of
-- no bytes at the end of a view, an index out of range, is the error `past_the_end` of Prelude/Exec.
--
-- Not modelled: the format of the log, what certificates hold, the copies of KCP and RapidJSON under
-- external/, and the bytes of the HTTP streams.
pub mod Prelude
pub mod Crypto
pub mod Wire
pub mod Packet
pub mod Game
pub mod Config
pub mod Logger
pub mod Main
pub mod Pool
pub mod Database
pub mod Http
pub mod Tests
