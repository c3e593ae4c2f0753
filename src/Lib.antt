-- ===== src/Lib.antt =====
-- ft_irc: an IRC server in C++98, one process and one thread around poll.
--
-- The program reads lines from its connections, parses each into a message, and runs the command
-- that the message names; commands change clients and channels and write replies into the clients'
-- write buffers, which the poll loop sends. What this library models, by file:
--   Reply, Reply/Numeric, Reply/IrcNumeric: common/IrcHelpers.cpp and common/Reply.cpp, the case
--     mapping and the text of replies.
--   Utf8: the loops of Client::sendReply, Message::spliter and truncateUtf8 that cut a line.
--   Client: Client.hpp and Client.cpp without the methods that follow a channel.
--   Channel: the state of channel/Channel.hpp and the methods that touch no client.
--   Heap: the objects by address, sendToOne, sendToAll, sendToAllExcept, broadcastQuit and
--     broadcastNickChange.
--   Handlers/Member, Handlers/Talk, Handlers/Modes: handleJoin, handlePart, handleKick,
--     handleInvite, removeQuitUser; handleTopic, handleChannelPrivmsg; handleMode,
--     handleModeOperator.
--   Parse/Message: parse/Message.cpp.
--   Server: network/Server.hpp, network/ChannelHandler.cpp, network/ServerUtils.cpp.
--   Server/Disconnect: network/ServerDisconnect.cpp.
--   Commands: parse/Parser.cpp and parse/CommandRegistry.cpp; Commands/Session, Commands/Rooms and
--     Commands/ModeCommand: the classes of common/commandlist/.
--   Loop: network/ServerConnection.cpp, and checkIdleClients and refreshPollEvents of
--     network/Server.cpp; Loop/Round: one round of Server::run; Loop/Run: Server::run and the
--     destructor.
--   Start: main.cpp and Server::init.
-- Base and Map hold what these share: lists over native numbers, texts as lists of bytes, and
-- `std::map` as a list sorted by key. Links states how clients and channels point at each other and
-- breaks what each handler does into moves; Server/People says who is registered, who has which
-- nickname and that names have their format; Server/Inv puts both together with the maps of the
-- server; Server/Vacant follows the
-- channels without members. Safe goes through the commands and the steps of the poll loop, up to
-- the servers that are reached and the end of the program. Room is the specification of a channel
-- as sets of clients, without order, messages and pointers, with the requests that its handlers
-- answer; Handlers/Refusals says which are refused. Room/Modes reads MODE lines as a client does, and
-- Reply/Source the `nick!user@host` in front of a line. Commands/Gate and Commands/Alone are about
-- a client that is not registered. Tests applies the theorems.
--
-- How the code is read. A pointer is an address into the heap; an address is not used again after
-- its object is deleted, and a deleted object reads as a blank one, so that a statement about the
-- lists of all addresses says that none of them leads to a deleted object. A byte is a number, and
-- the "C" locale is assumed for the character classes. `std::time` is an argument `now`, and
-- so are the results of poll, recv, send, accept and fcntl. The user limit is a natural number:
-- the code only stores positive limits and 0. The loop over complete lines has as fuel one more
-- than the bytes in the read buffer, of which each line takes at least one. The loop of
-- Server::run is a list of what poll reports, which ends where g_stop is set. That accept reports
-- a descriptor which no open connection has is assumed where it is needed, and strtol is a
-- parameter.
--
-- Not modelled: the signal handlers of main.cpp, the socket that init leaves to the destructor
-- where it fails, console output, exceptions and a lack of memory.
pub mod Base
pub mod Map
pub mod Reply
pub mod Utf8
pub mod Client
pub mod Channel
pub mod Heap
pub mod Handlers
pub mod Links
pub mod Room
pub mod Parse
pub mod Server
pub mod Start
pub mod Commands
pub mod Loop
pub mod Safe
pub mod Tests
