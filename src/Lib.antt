-- ===== src/Lib.antt =====
-- Refract is a gateway between clients of four LLM protocols and the upstreams that an administrator
-- configures as channels. A request names a model and comes over a protocol. The planner
-- (crates/refract-router/src/plan.rs) turns the channels into a route, a list of candidates in the
-- order in which they are to be tried. The executor (crates/refract-router/src/executor.rs) goes
-- through the route: it puts the candidates whose endpoints are suspended last, takes a key of the
-- channel from the key selector (crates/refract-router/src/keys.rs), calls the upstream within a
-- budget of calls, changes the key when a key fails, and goes to the next candidate when the channel
-- fails. What happens is written to the health repository (crates/refract-store/src/health_repo.rs),
-- whose breaker suspends endpoints. The affinity engine (crates/refract-router/src/affinity.rs) pins a
-- caller to the channel that served it. A stream of an upstream is cut into frames by the parser of
-- crates/refract-protocol/src/stream.rs. The users' money is kept by the wallet repository, and their
-- codes by mail by the verification repository. Before all that the rate limiter (crates/refract-api/src/rate.rs)
-- counts the requests of the client's key, and the registrations of an address.
--
-- Which file models which part:
--   Core/Protocol    crates/refract-core/src/protocol.rs: Protocol, ProtocolSet as a byte of bits
--   Core/Error       crates/refract-core/src/error.rs: ErrorKind, GatewayError
--   Core/Routing     crates/refract-core/src/routing.rs: RoutingPolicy, RankKey, weighted_pick
--   Core/Address     crates/refract-core/src/address.rs: UpstreamAddress; Resolve makes the URL, Paths has
--                    the texts of URLs, also those of protocol.rs
--   Core/Channel     crates/refract-core/src/channel.rs: Config holds the data, Validation the check
--   Router/Plan      crates/refract-router/src/plan.rs: Gather collects, diagnoses and lists, Arrange
--                    orders and pins
--   Router/Keys      crates/refract-router/src/keys.rs: KeySelector, KeyRotator
--   Router/Executor  crates/refract-router/src/executor.rs: prioritize and the helpers; Loop holds
--                    execute_normalized, Streams the opening and the tracking of a stream
--   Store/Health     crates/refract-store/src/health_repo.rs: BreakerPolicy, HealthRepo
--   Store/Wallet     crates/refract-store/src/wallet_repo.rs: WalletRepo; Journal is its specification
--   Store/ApiKeys    crates/refract-store/src/key_repo.rs: ApiKey, ApiKeyRepo; Backup has export and
--                    replace_all, Owners is about the separation of the owners
--   Store/Verification  crates/refract-store/src/verification_repo.rs: VerificationRepo; Slots is its
--                    specification
--   Core/Affinity    crates/refract-core/src/affinity.rs: AffinitySettings and their check
--   Router/Affinity  crates/refract-router/src/affinity.rs: AffinityEngine; Match finds a request's key,
--                    Cache holds the bindings
--   Codec/Sse        crates/refract-protocol/src/stream.rs: SseFrame, SseParser
--   Codec/Aggregate  the same file: StreamEvent, StreamAggregator
--   Codec/Messages   crates/refract-protocol/src/codec/messages.rs: MessagesStreamEncoder and
--                    MessagesStreamDecoder; Client is what a client accepts
--   Codec/Json       the JSON values of the codecs
--   Codec/Usage      crates/refract-protocol/src/ir.rs: Usage
--   Api/Rate         crates/refract-api/src/rate.rs: RateLimiter, IpRateLimiter; Register has AuthRateLimiter,
--                    whose instants are numbers of nanoseconds, and TtlCache the cache of that name
--   Base             lists, maps, sorting, results and texts that the parts share
--   Examples         concrete data, and the theorems applied to it
-- The modules below those of a part hold its theorems and are named for what they prove.
--
-- How the code corresponds to the model: a method that changes its object takes and returns the
-- object's record; a `HashMap` is an association list; `Result` and `Option` are values; a panic of an
-- index out of range is `none`. Numbers are unbounded where the code cannot reach their bound, and
-- keep the wrap or the saturation of the code elsewhere. The random source is a function that the
-- operations take; the clock's readings are numbers of seconds that they take. The executor's codecs,
-- HTTP client, clock and error texts are the record `Services`. The loop of the executor also carries a log
-- of the calls it sends, which is no state of the code and which nothing in it reads.
--
-- Fuel: the loops of the planner take the number of candidates as their bound. The rounds of
-- a candidate take fuel that its keys and its retries of empty replies bound. The parser's loop takes
-- the length of its buffer, since each line takes a byte at least.
--
-- Not modelled: the JSON codecs but the streams of Messages (crates/refract-protocol/src/codec), the HTTP client
-- (crates/refract-upstream), the handlers (crates/refract-api but rate.rs), the other repositories
-- (crates/refract-store), the byte-exact and the streaming executions, the router's events, and the
-- web console: they are I/O or translate data whose shape the parts above do not look at.
mod Base
pub mod Core
pub mod Router
pub mod Store
pub mod Api
pub mod Codec
mod Examples
