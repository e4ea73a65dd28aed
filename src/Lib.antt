-- ===== src/Lib.antt =====
-- The services of lesser, a social platform in Go: its pure helpers under service/pkg, and the
-- business logic of the auth, user, channel, chat, content, interaction, comment, notification,
-- superuser and timeline services together with the SQL statements they run, and the front of the gateway.
--
-- A gRPC handler calls the logic of its service, which calls data access objects; those run one SQL
-- statement each, some inside a transaction. The interaction and the comment service call the content
-- service, which keeps the counters. The gateway lets requests through to the handlers. The tables
-- are the only shared state.
--
-- Common holds lists, Boolean tests, integers and texts, and models no code.
--
-- Id is service/pkg/id/snowflake.go: `generate` is Generate, `wait_next_millis` waitNextMillis,
-- `parse_snowflake` ParseSnowflake. An int64 is a number below 2 ^ 64 and its operations are those of
-- Id.Words. A call reads the clock from a list of readings, which is also the fuel of the waiting loop:
-- a call that uses up the list is waiting, and Id.Clock says when that is. Id.Global is the
-- package's own generator with its sync.Once.
--
-- Db is WithTransaction of service/pkg/db/postgres.go. A call is a function on a store, that is the
-- tables and the number of statements run, and `fails n` tells whether the n-th statement fails, so
-- that every error branch is taken for some `fails`. A statement that fails changes nothing. A
-- statement is atomic and calls run one after the other. A panic inside a transaction is not modelled.
--
-- Users is service/user: Users.Statements the SQL of internal/data_access, Users.Service the
-- operations of internal/logic/user_service.go, by their names, and Users.Profile
-- UpdateProfile. Settings, search and the paged lists are not modelled.
--
-- Auth is service/auth: Auth.Service the operations of internal/logic/auth_service.go on the tables
-- and the Redis keys of internal/data_access. The package internal/crypto, which wraps Argon2 and JWT,
-- is a record of functions. Of the keys in Redis only the counter of failed logins expires; Auth.Lockout
-- is about it. Auth.Logout is Logout and the blacklist.
--
-- Channel is service/channel: Channel.Statements the SQL of internal/data_access, Channel.Service and
-- Channel.Posts the operations of internal/logic/channel_service.go, Channel.Errors the status codes.
-- GetOwnedChannels and SearchChannels are not modelled.
--
-- Identifiers are compared and nothing else, so they are numbers; the identifier of a new row is an
-- argument. Counters of the database are natural numbers without a bound.
--
-- Page is service/pkg/page/pagination.go without the cursors. An int32 is an integer, and what the
-- code computes in int32 wraps.
--
-- Retry is service/pkg/grpc/client/retry.go without the delays. The loop has fuel for one round more
-- than there are attempts, which is enough for every return.
--
-- Content is service/content: Content.Statements the SQL of internal/data_access, Content.Service the
-- operations of internal/logic/content_service.go on one content. A story's expiry is a time in hours.
-- The paged lists are not modelled. Content.Client is a call of this service by another one, over a
-- network that may lose the call or its answer.
--
-- Interaction is service/interaction: Interaction.Service the operations of
-- internal/logic/interaction_service.go with the three tables of internal/data_access; the counters
-- stand in the content service's store, which Interaction.Remote reaches through Content.Client.
--
-- Comment is service/comment: Comment.Statements the SQL and Comment.Service the operations of
-- internal/logic/comment_service.go and of internal/data_access, with the calls of the content service
-- in Comment.Remote. The sorting of a list is a parameter, since the database does it.
--
-- Gateway is the front of service/gateway: Gateway.Interceptor, Gateway.Token (internal/auth/jwt.go),
-- Gateway.Limiter (internal/ratelimit) and Gateway.Router. The JWT library, the auth service's answers
-- and the token bucket of golang.org/x/time/rate are arguments; Gateway.Limiter.IsTokenBucket is what
-- the package documents of the bucket. The ticker of the cleanup is the tick
-- of Gateway.Cleanup, which may come at any time. The forwarding of the calls is not modelled.
--
-- Notification is service/notification: Notification.Service the operations of
-- internal/logic/notification_service.go with the SQL, Notification.Events the handlers of
-- internal/messaging/event_worker.go. The broker is a list of deliveries in any order.
--
-- Chat is service/chat: Chat.Statements the SQL, Chat.Unread the cache of the unread counters in Redis
-- (internal/logic/unread_cache.go), Chat.Service the operations of internal/logic/chat_service.go. A
-- call of Redis is a statement that may fail.
--
-- Streams is internal/handler/stream.go of service/chat (Streams.Talks) and of service/channel
-- (Streams.Updates). A connection is the number of its arrival. The goroutines that send are a list
-- of sends, of which a step makes any one; a handler's own steps come between them in any order. To
-- which connections Redis brings an update is an argument.
--
-- Superuser is service/superuser: Superuser.Statements the SQL of internal/data_access,
-- Superuser.Service and Superuser.Lists the operations of internal/logic/superuser_service.go,
-- Superuser.Query the queries of an administrator, and Superuser.Handler the gRPC handlers, from the
-- metadata of a request on. Argon2, the JWT library and what the database answers to a free text are
-- arguments. Left out are the status of the database, Redis and RabbitMQ, and the schema of the tables.
--
-- Timeline is service/timeline: Timeline.Feeds the queries of internal/data_access, Timeline.Service the
-- operations of internal/logic/timeline_service.go with the client of the interaction service, and
-- Timeline.Handler the gRPC handlers, which use Page. Rows that an ORDER BY leaves equal stand by ranks,
-- an argument that may differ in each statement. The score of the recommended feed is an argument.
--
-- The search service, the gRPC handlers of the other services and the rest
-- of service/pkg are not modelled. Generated code, the mobile client and the deployment tool are not
-- modelled.
pub mod Common
pub mod Id
pub mod Db
pub mod Users
pub mod Auth
pub mod Channel
pub mod Chat
pub mod Content
pub mod Interaction
pub mod Comment
pub mod Notification
pub mod Gateway
pub mod Page
pub mod Retry
pub mod Streams
pub mod Superuser
pub mod Timeline
