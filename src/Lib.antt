-- ===== src/Lib.antt =====
-- IUH Exchange: the marketplace of a university, as services that share a database and a Kafka
-- broker. The development models the order service (packages/order-service), where the state of a
-- sale is kept: the order, its handover, its payment, its disputes and its complaints; the accounts
-- and the karma of the user service (packages/user-service); the reservations and the offers of the product service
-- (packages/product-service); the circuit breaker of the API gateway (packages/api-gateway); and the
-- STOMP frames of the WebSocket gateway (packages/ws-gateway).
--
-- How the parts work together. A buyer's request places an order (`createOrder`), once per
-- idempotency key, and announces it; the product service reserves the product and answers by a
-- message, which the saga's consumer turns into a change of the order's status. From there buyer,
-- seller and admins act on the order by requests; each handler reads the order by its id, checks
-- and changes it in memory, saves it, and publishes events. The completion of an order and the end
-- of a dispute are such events; the user service's consumer turns them into changes of the users'
-- karma, which decides what a user may do. The gateway stands before all services and stops sending
-- requests to one that fails.
--
-- The files, from packages/order-service/src unless said otherwise:
--   Base             tests, lists, texts, signed numbers and results shared by all parts; Base.Result
--                    has the exceptions of packages/common/src/exceptions as failures
--   Orders.Model     the document of models/Order.js, its parts grouped into records
--   Orders.Events    the payloads of the topics that services/*.js publish
--   Orders.Store     the environment of a request (clock, random texts, broker), the state (orders
--                    table, Redis keys, events taken by the broker), `findById`, `save`, and the
--                    shape of a handler: `update_order` logs the failure of a publish, as in
--                    services/order.service.js, `update_order_strict` fails with it, as in
--                    controllers/payment.controller.js
--   Orders.Transitions, Orders.Flags   VALID_TRANSITIONS, appendStatusHistory, actorRoleFor and the
--                    comparisons with the texts of the enums
--   Orders.Saga      markAwaitingSellerConfirmation, cancelOrder and services/saga.service.js
--   Orders.Create    createOrder, getAcceptedOfferCheckout, getProductCheckoutSnapshot; its child
--                    modules hold theorems
--   Orders.Closing   confirmOrder, rejectOrder, cancelByBuyer, reportNoShow
--   Orders.Handover  proposeHandover, respondHandover, confirmHandover
--   Orders.Disputes, Orders.Rulings   openDispute, addDisputeEvidence, resolveDispute
--   Orders.Issues    openPaymentIssue, resolvePaymentIssue
--   Orders.Payments  the handlers of controllers/payment.controller.js
--   Orders.Views     what is read out: the pages, the statistics, the receipt
--   Orders.Machine   all requests and messages as one step function, and the states it reaches
--   Orders.Lifecycle, Orders.Accounts, Orders.Meetings, Orders.Guards   theorems on the orders
--   Orders.Tests, Karma.Tests, Products.Tests, Gateway.Tests, Auth.Tests, Stomp.Tests,
--                    Common.Tests, Products.Offers.Tests   runs on concrete data
--
-- From packages/user-service/src/services:
--   Karma.Policy     karma-policy.js and syncPermissionsWithKarma
--   Karma.Service    applyKarmaAdjustment and karma-consumer.service.js
--   Karma.Permissions, Karma.Ledger, Karma.Once   theorems on them
--
-- From packages/user-service/src/controllers/auth.controller.js:
--   Auth.Model       an account (models/User.js), the table of accounts, what a request meets, and
--                    compareToken of packages/common/src/utils/helpers.js
--   Auth.Register    getStudentIdFromEmail, checkEmail, register
--   Auth.Otp         verifyOtp, resendOtp
--   Auth.Login       login; Auth.Tokens: refreshToken, logout
--   Auth.Passwords   changePassword, forgotPassword, resetPassword
--   Auth.Table, Auth.Register.*, Auth.Otp.*, Auth.Login.*, Auth.Tokens.*, Auth.Passwords.*
--                    theorems on them
--
-- From packages/product-service/src:
--   Products.Saga    services/saga.listener.js, with the fields of models/Product.js that it uses;
--                    the read of a product and the update that reserves it are two steps
--   Products.Saga.Laws, Products.Saga.Sweep   theorems on it
--   Products.Offers.Document   models/Offer.js and the helpers of controllers/offer.controller.js
--   Products.Offers.Handlers, Products.Offers.Reads   the handlers of that controller
--   Products.Offers.Kept, Products.Offers.Steps, Products.Offers.Final, Products.Offers.Waiting,
--   Products.Offers.Fewer, Products.Offers.Single, Products.Offers.Accepted   theorems on them
--
-- From packages/common/src/utils/helpers.js:
--   Common.Retry     withRetry, and a theorem on it; Common.Paging: parsePagination
--
-- From packages/api-gateway/src/middleware:
--   Gateway.Breaker  createCircuitBreaker of circuit-breaker.js, and theorems in Gateway.Breaker.Laws
--
-- From packages/ws-gateway/src (packages/chat-service has a copy of the parser):
--   Stomp.Codec      parseFrame, serializeFrame and the escapes of utils/stomp-parser.js
--   Stomp.Stream     its FrameAccumulator, and the handler of `data` in services/socket.service.js up
--                    to the dispatch on the command
--   Stomp.Escape, Stomp.Lines, Stomp.Lacks, Stomp.RoundTrip, Stomp.Stream.*   theorems on them
--
-- Conventions. Each handler `f` of the source is a function of the environment and the state that
-- returns the answer and the next state; what it does between the read and the save of the order is
-- a function of the order alone. A request runs from its read to its save without another in
-- between: the interleaving of requests on one key in `createOrder` is the exception, where the
-- part behind the first read of the key is `claim_key`. Ids are numbers since they are only compared,
-- a date is its number of milliseconds, prices are natural numbers. Enums of the source are data
-- types, so texts outside of them do not occur. A text of a STOMP frame is its list of UTF-16 units.
-- All functions are structural recursions, but for two loops on fuel. `withRetry` gets as many rounds
-- as it may make calls. The loop over the complete frames of a buffer (`drain`) gets as many as the
-- buffer has units; each round takes at least one unit off it, so that this is enough.
--
-- Failures of the database are not modelled, but for the refusal of a second order with a key, of an
-- account that collides with another, and of an offer that the schema does not allow.
--
-- Not modelled: the HTTP controllers and routes, the calls that enrich an order for reading, and
-- the expiry of a Redis key after a day. What `fetch` of the product service gives, an answer or
-- none, is a parameter of `createOrder`, as are the clock, the random texts and the broker. Of the accounts, the functions of
-- bcrypt, SHA-256 and JWT, the lower-casing of the runtime and the mailer are parameters.
pub mod Base
pub mod Orders
pub mod Karma
pub mod Auth
pub mod Common
pub mod Gateway
pub mod Products
pub mod Stomp
