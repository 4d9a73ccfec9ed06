-- ===== src/Lib.antt =====
-- The Forgotten Server (C++ sources under src/): models of parts of the server, and what is
-- proved of them.
--
-- The parts. Connections bring packets, which a protocol decrypts and parses and to which it
-- answers by output messages (networkmessage, outputmessage, protocol, connection). Players who
-- find the server full wait in a list (waitlist). Work that is to be done later waits in the
-- scheduler, whose thread hands it to the dispatcher when it is due (scheduler), whose thread
-- executes one task after another (dispatcher). Players form parties with a leader, members and
-- invited players (party). Maps, items and the data of players are kept as trees of nodes with
-- properties (fileloader). Items have attributes (itemattributes, item) and lie in containers,
-- which lie in containers themselves (container). Players own private channels of the chat and
-- invite others to them (chat). Positions name the tiles of the map (position).
--
-- The files. Position.antt is src/position.h. Network/Buffer.antt and Network/Message.antt are
-- src/networkmessage.h and .cpp: the C array is a list of bytes, the `uint16_t` counters are
-- numbers that wrap, and a read behind the array is `none`. Network/Message/Fields.antt composes
-- those operations as senders and receivers do. Network/Xtea.antt is the cipher of
-- src/protocol.cpp and Network/Protocol.antt the headers of src/outputmessage.h, `XTEA_encrypt`,
-- `XTEA_decrypt`, `onSendMessage` and `onRecvMessage` of src/protocol.cpp, and the checksum test
-- of src/connection.cpp. Network/Pool.antt and its children are the pool of
-- src/outputmessage.cpp with what of src/connection.cpp and src/protocol.cpp sends its messages:
-- a message is its address, a shared pointer one occurrence in a list, and what the threads do a
-- sequence of steps. A message is lost when it is released while the dispatcher does not run,
-- which then throws the task away. Login/WaitList.antt is src/waitlist.cpp, a list with the
-- functions `find`, `cleanup`, `getSlot` and `login`. Threads/Scheduler.antt is
-- src/scheduler.cpp: one function for what each thread does under the lock, and a run as any
-- sequence of them. Threads/Dispatcher.antt is src/dispatcher.cpp in the same way, with what
-- became of each task as the result of a run. Party.antt and its children State.antt,
-- Experience.antt and Operations.antt are src/party.cpp with the functions of src/player.cpp
-- that it calls: a party is its record and the players a function from their numbers; what an
-- operation deletes is `none`. Prelude/Pointers.antt has the searches in its lists,
-- Party/Members.antt and Party/Leaving.antt the proofs. A party is tied to its players when
-- exactly its leader and its members point to it, the leader is no member, nobody is twice in a
-- list, and exactly the invited players, none of them in the party, list it among their
-- invitations. Files/Escape.antt and Files/Nodes.antt are `FileLoader` of src/fileloader.h and
-- .cpp: a file is the list of its bytes, and the loops of `parseNode` take fuel, of which the
-- length of the file is enough. Files/Stream.antt is `PropStream` and `PropWriteStream` of
-- src/fileloader.h. Container.antt and its children are src/container.h and .cpp and
-- src/depot.cpp with what they call of src/thing.cpp and src/item.cpp: items are a function from
-- numbers that stand for their addresses. Heap.antt has the items, their parents and weights,
-- Change.antt the functions that change a container, Iterator.antt the way through all that is
-- in it, Query.antt with its child the queries, Weights.antt, Held.antt with theirs, Moving.antt
-- and Depot.antt the proofs. Items/Attributes.antt and its children are src/itemattributes.h and
-- .cpp: a `std::map` is the list of its entries in the order of their keys. Items/Reading.antt
-- and its children are how src/item.cpp reads and writes an item, Items/Keys.antt the names of
-- the attributes. Chat.antt and its children are the private channels of src/chat.cpp, with the
-- handlers of src/game.cpp that invite to them and exclude from them: the map of channels is a
-- function from their numbers, and a player the number of his character. Prelude.antt and its
-- children hold what the modules share.
--
-- The clock is an argument of the functions that read it. The priority queue of the scheduler is
-- a list of which any task with the smallest time may be on top: the place of the top is an
-- argument.
--
-- Words and bounds. A `uint32_t` or `uint16_t` is a number, with the wrap-around written out; a
-- pointer cast to `uint32_t*` reads and stores four bytes, lowest first. The loops of the cipher
-- and of the lists recur on what is left; only the parser of node files and the ways up from a
-- container to its parents take fuel, the latter as much as there are parents, and the iterator
-- of a container as much as there are things in it. Positions in a file and what is left of a
-- property stream are `int32_t` in the source: a file of 2 GB or more has an outcome of its own,
-- and a stream is compared by its size as that type. Weights are whole hundredths, where the
-- source adds numbers of type `double`. What tiles, players and the virtual cylinder answer to a
-- container's query is a parameter.
--
-- Not modelled: the digest of Crypto++ (a parameter), the compression by zlib (`onSendMessage`
-- is modelled with it switched off), sockets, threads, Lua, the database, of containers what is
-- sent to the clients, read and written, and the game logic proper: creatures, combat,
-- conditions, spells, the map, houses and, of the chat, all but the private channels.
pub mod Prelude
pub mod Position
pub mod Network
pub mod Login
pub mod Threads
pub mod Party
pub mod Files
pub mod Container
pub mod Items
pub mod Chat
