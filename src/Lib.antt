-- ===== src/Lib.antt =====
-- The Windows IOCP UDP game: the protocol that server and client share, and the server.
--
-- The program's core is a UDP protocol in Common/. A game packet is a header of six bytes and a payload
-- (Common/Packet). A packet that must arrive is wrapped with a sequence number and the acknowledgement
-- of the other side's packets (Common/Net/Reliable): the sender keeps it in a window and sends it again
-- until it is acknowledged or given up, the receiver tracks which numbers it has seen. Authenticated
-- packets carry their own number, which a guard of 256 bits checks against replays (Common/Net/Auth).
-- The server (Server/Net/UdpServer) keeps the peers and their rooms, the accounts that have logged in,
-- the reliable sessions, the game world and the matches behind one mutex. A packet is authenticated by
-- its session, passes the reliable layer and is dispatched to the handler of its type; a timer advances
-- the game, times peers out and sends packets again.
--
-- Parts, their files and the code they model:
-- - Prelude: numbers, words, bits and lists that the other modules share; nothing of the program.
-- - Sequence: Common/Net/SequenceNumber.h. `IsSequenceNewer` is `is_sequence_newer`, and so on.
-- - Identity: Common/Net/SessionToken.h and EndpointKey.h.
-- - Packet.Reader and Packet.Writer: Common/Packet/Serialization/PacketReader.h and PacketWriter.h. A
--   reader is a function on the bytes and the offset, which a failed read leaves where it stopped; a
--   writer is its buffer and its flag. Packet.Wire says which bytes a reader takes and a writer adds.
-- - Packet.PacketType and Packet.Header: Common/Packet/PacketType.h, PacketReliability.h,
--   PacketConstants.h, PacketHeader.h and the header functions of
--   Serialization/PacketSerializationCore.h.
-- - Packet.Codec: `PacketCodec<TPacket>`, `SerializePacket` and `DeserializePacket`, for any packet; a
--   packet's type parameter is the record of the fields behind its header. Packet.Codecs has the codecs
--   of Common/Packet/Game, Control and Account and shows for each one the law that Packet.Codec asks of
--   a codec.
-- - Reliable.AckTracker: Common/Net/Reliable/ReliableUdpProtocol.h. Reliable.SendWindow:
--   ReliableUdpSendWindow.h. Reliable.PacketBuilder: ReliableUdpPacketBuilder.h and the reliable header.
--   Reliable.Session: ReliableUdpSession.h, which joins the three.
-- - Auth.ReplayGuard: Common/Net/Auth/PacketReplayGuard.h and PacketReplayGuard.cpp.
-- - Auth.AuthenticatedPacket: AuthenticatedUdpPacket, PacketAuthenticator and PacketAuthentication of
--   Common/Net/Auth and Common/Packet/PacketAuthenticationPolicy.h. The HMAC that `BCryptHash` of Windows
--   computes is a parameter, a function from the key and the data to a tag, or to none when it fails.
-- - Snapshot: Common/Net/Snapshot/SnapshotChunkAssemblerCore.h, for any type of data. Its two tables are
--   functions from the room.
-- - Server.Peers: Server/Service/PeerState.h, PeerRoomManager.h and PeerRoomManager.cpp. The peer table is
--   the list of its entries, since the code walks it; the room table is a function from the room.
-- - Server.Accounts: Server/Service/AuthenticatedAccountRegistry and AccountLoginAdmissionService, on the
--   maps from endpoints of Server.EndpointTable, which the peers use too.
-- - Server.Sessions: Server/Net/ReliableUdpSessionRegistry.h, which joins Reliable.Session,
--   Auth.ReplayGuard and Auth.AuthenticatedPacket for each endpoint. Its set of closing endpoints is a
--   function from the endpoint.
-- - Server.Join, Server.Leaving and Server.Commands: Server/Service/PeerSessionService and
--   PlayerCommandService.
-- - Server.Dispatch: Server/Protocol/UdpPacketDispatcher and PacketPayloadValidator, and the templates of
--   Server/Net/UdpServer.cpp that make a handler, on any state.
-- - Server.UdpServer: Server/Net/UdpServer.cpp. Membership and Upkeep have what each handler does while it
--   holds the mutex, a section; Requests and Receive have the handlers with the packets that they hand to
--   the packet sender, and the way of a packet to its handler. Interleaving runs sections in any order,
--   as the threads may.
-- - Game.Layout, Game.Movement and Game.Rules: Common/Game, the rooms, movement, collisions and rules.
--   Game.World: the state of Server/Game/GameWorld, StatePool.h and BulletFactory.h. Game.Simulation and
--   Game.Respawns: GameSimulation. Game.Matches: MatchHistoryTracker. The operations of `float` are the
--   parameter `Floats`, on bit patterns.
-- - Faults: Common/Net/Fault, the fault simulation: UdpFaultPacketScheduler with the packets that are held
--   back, Faults.Decisions: UdpFaultDecisionGenerator, and Faults.Simulator: UdpFaultSimulator. The generator
--   of random numbers is the parameter `Random`.
-- - Tests: each law at a concrete input.
--
-- How the code is carried over. A method that changes its object is a function from the state, and the
-- answer with the new state is a pair. A byte is a number below 256 and a word one below 2 ^ 16, 2 ^ 32
-- or 2 ^ 64, with the wrap-around written out; signed integers and floats on the wire are their bit
-- patterns. A time is a number of clock ticks. Sequence numbers are 32-bit and go round; the laws on
-- whole histories hold while the numbers stay below 2 ^ 31. A shift of a 32-bit word by 32, undefined
-- in C++, is the parameter `wide`. Loops run over a list, but for the two that remove what they visit: their
-- fuel is a round more than the elements, which Game.World.Pool and Game.Simulation.Rounds show is enough.
-- An unordered map is the list of its entries in the order of a walk where the code walks it.
--
-- Not modelled: sockets, completion ports, threads, files, the database, rendering and the clock, whose
-- readings are arguments; logs and metrics; the queue of login requests and the packets of a snapshot; the
-- client's game.
pub mod Prelude
pub mod Sequence
pub mod Identity
pub mod Packet
pub mod Reliable
pub mod Auth
pub mod Snapshot
pub mod Faults
pub mod Game
pub mod Server
pub mod Tests
