-- ===== src/Lib.antt =====
-- The backend of the plant shop (backend/internal, in Go): the selling of products, from the cart
-- over the checkout to payment, delivery, return and refund.
--
-- The program is a set of packages over one PostgreSQL database. A package has a model.go with its
-- types, statuses and validation, and a repository.go whose methods are database transactions;
-- handlers call them. Each transaction is modelled as a function from the store to a new store or
-- an error, and an error keeps the old store, as the rollback does. The row locks (FOR UPDATE)
-- make the transactions on an order, a coupon or a cart run one after the other, so a transaction
-- is one step.
--
-- Base, Text      the shared vocabulary: results, tables as lists of rows, keys, int64 with its
--                 wrap-around, texts as lists of runes with their length in bytes,
--                 strings.TrimSpace and strconv.ParseInt
-- Store           all tables as one record, the clock and the configuration (Env), the errors of
--                 the database
-- Order           backend/internal/order. Model: statuses and CanTransition. Input:
--                 CheckoutInput.Validate and Trimmed. Shipping: LoadShipping and
--                 ShippingConfig.Fee. Checkout: CreateFromCart, as price (up to the total) and
--                 place (the writes). Cancel: UpdateStatus, CancelOwnOrder and ExpireReservations,
--                 with restoreOrderStock in Inventory. Conservation and its children: the units of
--                 each product.
-- Coupon          backend/internal/coupon. Model: validation, CalculateDiscount, CheckEligibility.
--                 Repository: Eligible, redemptions and their release.
-- Payment         backend/internal/payment. Repository: the transactions on attempts. Settlement:
--                 FinalizeVerifiedPayment and FinalizeFailedPayment. Reconciliation: what is known
--                 of an attempt. Handler: RequestZarinPal, Callback, ReconcilePayment and
--                 ExpireAbandoned. Gateway: the Client interface, which Zarinpal fills from HTTP
--                 responses, read by Json (decodeUniqueJSON).
-- Returns, Refund backend/internal/return and backend/internal/refund: the two machines and their
--                 transactions; Refund.Handler: AdminCreate, AdminManualRefund and AdminRefund
--                 with the provider; Refund.Requests: AdminUpdateStatus and the lookups;
--                 Returns.Handler and its child Moves: the requests of customers and
--                 administrators.
-- Notification    backend/internal/notification: event keys and EnqueueTx, which other
--                 transactions call; Queue and Worker: the claiming, sending and retrying of the
--                 outbox.
-- Cart            backend/internal/cart: AddItem, UpdateItemQuantity and DeleteItem in Repository,
--                 merge.go in Merge.
-- Address         backend/internal/address: Create, Update and Delete with the rule of one default
--                 address; Handler.
-- Http            the caller's rights and the id in the path, for the handlers
-- System          the calls that change orders as steps of the whole shop, and what every sequence
--                 of them keeps
-- Examples        one shop in which the theorems are applied.
--
-- Checkout reads the carts and the products, uses Coupon inside its transaction, and writes
-- orders, redemptions and the outbox. Payment reads and marks orders; Cancel asks Payment's
-- attempts whether money may still arrive; Refund marks orders as refunded, and Returns asks
-- Refund whether the money went back.
--
-- Amounts are int64 and wrap at 2^63 as in Go; ids, stocks and quantities are natural numbers, as
-- the constraints of their columns keep them. Times are natural numbers. A status or method that
-- the source holds as a string is a data type with the source's constants, and where a caller's
-- string can arrive, one more constructor for any other string. Fuel is needed in two places: the
-- decimal printing of an id has as many rounds as the id plus one, more than its digits, and the
-- JSON decoder has two units for each token, which is enough since a token takes at most two
-- calls. All other loops of the source run over lists. A handler is a sequence of transactions:
-- what one has committed stays when a later one fails.
--
-- Parameters: UPPER of the database, the decoding of a refund provider's JSON and the provider,
-- the environment of LoadShipping, the HTTP exchange with the gateway and strings.ToLower, the
-- mail server, what the driver makes of a NULL for a string, which rows another transaction has
-- locked, and the order of attempts by a column that is not kept. The constraints of the schema
-- (backend/migrations) that a transaction can violate are tests within it. Not modelled: SQL and
-- connection failures, the encoding of HTTP requests and replies, payloads and texts of
-- notifications, most read-only queries, and the packages of the catalogue, the profiles and sign-
-- in, and the content.
pub mod Base
pub mod System
pub mod Text
pub mod Address
pub mod Http
pub mod Order
pub mod Coupon
pub mod Cart
pub mod Payment
pub mod Returns
pub mod Refund
pub mod Notification
pub mod Store
pub mod Examples
