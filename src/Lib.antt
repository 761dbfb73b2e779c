-- ===== src/Lib.antt =====
-- An echo service over TCP: a client sends lines of text, a server shows them and sends them back to
-- clients whose address stands in a white list.
--
-- Parts and files:
-- * Packets models shared/include/Network/Packets.h: packet types, sizes and ports.
-- * Poco holds what is taken from outside: the FIFO buffer (record Fifo, with the documented behaviour
--   in IsFifo), the host of a socket's peer (Peers), memory that the program has not written
--   (Memory: new blocks, uninitialised locals, the bytes behind a block), and what receiveBytes of a
--   client's socket, which does not block, comes to (Receipt: an exception, -1, bytes). Poco.Ring is a
--   FIFO that meets the description.
-- * Poco.Lengths is a length and the block for it, as both sides read them; Server.Handled and
--   Client.Receive.Handled tell on the bytes alone what either side does with whatever it receives,
--   and Server.Leak when an answer carries bytes of the server's memory.
-- * Effect lists what a run shows: lines printed, bytes sent, sockets closed. A send takes all bytes.
-- * Singleton models shared/include/CSingleton.h, the m_pInstance of each class, and the constructors
--   of the classes that derive from it; Singleton.Once what stays of an object once it was made.
-- * Server.Packet models server/src/packets; Server.Translator CPacketTranslator, CPacketHandler and
--   the packet half of CServer; Server.Callbacks the two functions that CServer registers.
-- * Heap models the blocks that packets and options take and release: Heap.Packets those of
--   CPacketHandler::ProcessPacket, Heap.Options the one of COption. What delete does to a block of
--   new[], which the language leaves undefined, is a parameter.
-- * Sqlite holds the statements and the parameter for sqlite3_open and sqlite3_exec, Sqlite.Table a
--   database that meets the description. WhiteList models server/src/CWhiteList.cpp, WhiteList.Session
--   histories of commands on it and WhiteList.Life the object from its constructor to its destructor.
-- * Console models ShowHelp and run, which both CActionManager share: Server.Console is the
--   administrator's (server/src/CActionManager.cpp), Client.Console the user's
--   (client/src/CActionManager.cpp).
-- * Server.Control models the calls on CServer (server/src/CServer.cpp), Server.Events calls and
--   callbacks as one step each, Server.Start server/src/main.cpp up to the threads, Server.Program
--   main with the console that it waits for, Server.Sessions the update loop with the commands of the
--   console between its rounds, and Server.System owner, update thread and console in any order of
--   their calls, the thread one socket at a time: Server.System.Rounds finds the rounds in it, and
--   Server.System.Bound measures the thread's way to its end.
-- * Network.LifeCycle models the construction, the starts, Close, Exit and the destructor of
--   shared/include/Network/CNetwork.cpp as the owning thread sees them, Network.Closing the calls of
--   the owner beside its thread, each call one step; the thread's own steps are those of
--   Server.System.
-- * Network.Handlers models the handler list of shared/include/Network/CNetwork.cpp, Network.Update the
--   loop CNetworkServer::OnUpdate, with one Turn for what select and the sockets give in a round,
--   Network.Reach its reachable states, and Network.Admission what holds in all of them.
-- * Client.Option models client/src/COption.cpp, Client.Action the result that CActionManager hands to
--   CClient::ListenAction, Client.Receive CClient::PacketHandler and CNetwork::OnUpdate.
-- * Client.Connect models the calls on CClient (client/src/CClient.cpp), Client.Events calls and
--   callbacks as one step each, Client.Start client/src/main.cpp up to the threads, Client.Program main
--   with the console that it waits for, and Client.System console and update thread in any order of
--   their calls.
-- * Echo joins client and server for one message, Echo.Handshake for a client that asks to be let
--   in, Echo.Conversation for the lines of a user, and
--   Echo.World a server with any number of clients and users, in any order of what they do. There a
--   connection gives the packets of its sender whole, and nobody connects or leaves.
--
-- Conventions: a byte is a number below 256, a block of memory or a std::string a list of bytes, a
-- 32-bit word its bytes with the lowest first, an int its bit pattern. A call returns an Outcome: a
-- value, or the fault that ends it (an exception that leaves it, a failed assertion, an access outside
-- an object). Loops run over lists of inputs; only the rounds of the two consoles are counted by fuel,
-- and more rounds than prompts are enough, as each round takes a prompt. Where a call faults, what it
-- has sent before is not told. Server.System shows what came before the call.
--
-- A word typed at a console is read into a char array, and counts from there on up to its first NUL.
-- Addresses elsewhere are those of C strings and of POCO hosts, without a NUL, so that a statement
-- formatted with %s has them whole.
--
-- A peer is shown by its host alone; the port that toString adds is left out, and so is the own address
-- in the line on an unknown packet, where address() is taken not to throw. A database handle that a
-- later Initialize overwrites is not followed.
--
-- Not modelled: interleavings inside one call, the release of objects other than packets, options and
-- networks, partial sends, and the text of fixed console lines. POCO and
-- SQLite are copies of other projects.
pub mod Console
pub mod Heap
pub mod Singleton
pub mod Base
pub mod Poco
pub mod Packets
pub mod Effect
pub mod Server
pub mod Sqlite
pub mod WhiteList
pub mod Network
pub mod Client
pub mod Echo
pub mod Tests
