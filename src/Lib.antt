-- ===== src/Lib.antt =====
-- The Picasso backend: contacts, chat and presence for users who log in through Steam.
--
-- HTTP and web socket handlers (src/transport) call services (src/service), which keep their data
-- through repositories on PostgreSQL (src/storage) and announce changes as events (src/domain);
-- the event sink turns events into frames for the live connections of the hub (src/transport/ws),
-- where each session has a bounded queue in front of its socket. A login goes through Steam
-- (src/steam).
--
-- Base is shared notation: Boolean tests, lists and integers on native numbers, relational tables
-- (Base.Table), on which a query is a function from the rows to the rows, and the texts and
-- numbers of the C++ library (Base.Text, Base.Numerals). Domain has the vocabulary of src/domain,
-- a module for each header. Dto has the objects on the wire of src/dto: Dto.Envelope and Dto.Rest
-- the fields, Dto.Mappers the maps from the domain, Dto.MessageType the wire names.
--
-- Storage.Rows has the tables of src/storage/migrations/0001_init.sql; the SQL statements of
-- src/storage/PicassoDatabaseClient.hpp are in Storage.ContactQueries,
-- Storage.ConversationQueries, Storage.ChatQueries and Storage.SessionQueries, and
-- Storage.ContactRepository, Storage.ConversationRepository, Storage.ChatRepository and
-- Storage.SessionRepository are the methods of src/storage/PgContactRepository.cpp,
-- src/storage/PgConversationRepository.cpp, src/storage/PgChatRepository.cpp and
-- src/storage/PgSessionRepository.cpp. Storage.SocialGraph states what the tables of contacts
-- keep to, and its children have the lemmas on the methods; Storage.LevelViews and
-- Storage.RequestViews say what the readers of a level and of a request see after each method;
-- Storage.DirectMessages, Storage.Invites and Storage.MessageLog have what is shown of
-- conversations and messages.
--
-- Service.World is the state of a service, the database and the events published so far.
-- Service.Contacts is src/service/ContactService.cpp and Service.Conversations
-- src/service/ConversationService.cpp. Service.Chat is submit and remove of
-- src/service/ChatService.cpp, with the token buckets in Service.Chat.Rate, and Service.CatchUp
-- is sync and history. Service.Auth is src/service/AuthService.cpp, the sessions and the logins
-- that wait, and Steam.OpenId is src/steam/OpenIdVerifier.cpp. Service.CallSignal is
-- src/service/CallSignalService.cpp.
--
-- Transport.FrameQueue is src/transport/ws/BoundedFrameQueue.hpp, Transport.Hub
-- src/transport/ws/ConnectionHub.cpp, Transport.EnvelopeCodec src/transport/ws/EnvelopeCodec.cpp
-- and Transport.EventSink src/transport/ws/WsEventSink.cpp. Transport.Session is
-- src/transport/ws/WsSession.cpp, with the frames of a client in Transport.Session.Dispatch and
-- the writing thread in Transport.Session.Writer; Transport.Gate is how a socket gets its session
-- (src/transport/ws/WsController.hpp, src/transport/ws/WsModule.cpp), and Transport.Serving joins
-- a session with the chat service, the sink and the hub. Transport.Http is src/transport/http:
-- the parsing of numbers, Transport.Http.Reply the identity of the caller and the handler of
-- errors, a module for each controller, and Transport.Http.Api all requests that need a session.
-- The fixed pages and the static assets of src/transport/http/HealthController.hpp are in
-- Transport.Http.Assets.
--
-- Logger.ActivityLogger is the lines of src/logger/ActivityLogger.cpp,
-- Logger.ActivityLogger.Calendar its dates and Logger.ActivityLogger.Rotation its files: the
-- directory is a function from the names to the entries, and a call of the log is one function on
-- the state of the logger. Logger.CsvLogger is src/logger/CsvLogger.cpp. App.Config is
-- src/app/Config.cpp with the environment as an argument, App.Startup what src/app/App.cpp and
-- src/app/ServerRunner.cpp do and log from the start to the exit, and App.System the state of the
-- services under any sequence of requests, of logins and of frames. Tests has runs of the program
-- and the theorems at concrete inputs.
--
-- Steam ids and times are natural numbers, and a difference of times is an integer; sizes in the
-- frame queue, ids read from texts and the cursor of deletions wrap at 2 ^ 64. A map is an
-- association list, a transaction is one function on the database, and a failed query, which
-- throws in the source, does not occur, except where a constraint on a dm or the key of the
-- sessions refuses a row: then the transaction is rolled back, all but the sequence of the ids.
-- Tokens are counted in exact 2,000ths in place of doubles. The readings of the clock are
-- arguments, and so are SHA-256, the random bytes of a token, the POST to Steam, the JSON of
-- oat++, the reading of a file, the environment, the directory of the logs, the date, what the
-- database answers when it is opened, whether the port can be bound, and whether a weak pointer
-- is alive or a write to a socket throws. Every loop is over a list, except three on fuel: the
-- printing of a number takes 20 steps, enough for 64 bits; the redaction of a data source name
-- takes a step for each character of it, and each step takes at least one; and the writing thread
-- takes any number of steps above the number of queued entries, which is enough for it to return
-- or to wait. Rows that SQL may return in any order keep the order of the table.
--
-- Not modelled: concurrent database calls, sockets, threads and the mutexes beyond the atomicity
-- of a call, the construction of the components but the repositories, which has no logic of its
-- own, the object mapping of oat++, the output of the console, the length at which oat++ cuts a
-- log message, and the headers of HTTP other than the content type.
pub mod Base
pub mod Domain
pub mod Dto
pub mod Storage
pub mod Steam
pub mod Service
pub mod Transport
pub mod Logger
pub mod App
pub mod Tests
