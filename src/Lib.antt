-- ===== src/Lib.antt =====
-- The order book server of a perpetual contract: it keeps signed orders in a table, matches an
-- incoming order with the orders of the other side, trades the matches in one transaction of the
-- operator's account, and tells subscribers of it over websockets.
--
-- Which file models which part (paths from the repository's root):
--   Base, with Tests, Lists, Int, Text, Sort: names of the libraries passed on, Boolean tests,
--     results, lists over native numbers, integers, texts as lists of code units, insertion sort.
--   BigNumber: the package bignumber.js as an interface, with the laws that it documents;
--     BigNumber/Laws what follows from them, BigNumber/Whole an instance over the integers.
--   Types and Types/Values: src/types.ts, src/entities and src/errors.ts, and the conversions of
--     prices, fees and balances; Types/Solidity their way to the contracts and back, and Constants
--     the limits of src/constants.ts.
--   Hex and Signature: the texts and signatures of src/utils.ts (signatureToVRS, fixRawSignature,
--     createTypedSignature, ecRecoverTypedSignature and the rest).
--   Ethers: what is called of the package ethers and of the contracts, as parameters.
--   Orders: src/orders.ts, from getOrderHash and signOrder to orderHasValidSignature.
--   Api: createPerpetualOrder of src/api.ts, with the random number as a parameter.
--   TradeOperation: src/tradeOperation.ts, src/trade.ts, and the payloads of src/liquidation.ts and
--     src/deleverage.ts. The operation is passed as a state; commit returns it with the result.
--   OrderUtils and Pagination: orderUtils, paginationUtils and jsonifyPerpetualOrder of
--     src/utils.ts.
--   Store: the repository of orders, which typeorm implements, as an interface; Store/Rows an
--     instance over a list.
--   Matching: src/services/orderbook_service.ts, fulfillOrderAsync up to the commit: candidates,
--     their order, and the loop as structural recursion over them. Matching/Fills describes the
--     loop as a list of fills, Matching/Loop and Matching/Legs relate the two.
--   Service: fulfillOrderAsync as a whole, addOrderAsync, cancelOrdersAsyncByHash and
--     getOrderByHashIfExistsAsync over a world of orders, history and events.
--   Market: quoteAsync, getOrderBookAsync, getTradesHistoryAsync and getFundingRate of the same file,
--     and calculateFundingrate of src/utils.ts.
--   Handlers: postOrderAsync, cancelOrderAsync and getOrderByHashAsync of
--     src/handlers/orderbook_handlers.ts, and getAccount of src/perpetual.ts.
--   Listing: getOrdersAsync and its handler, over the queries of the database as an interface.
--   Readings: src/funding_oracle.ts, src/getters.ts, src/price_oracle.ts, the contract calls of
--     src/orders.ts, src/liquidation.ts and src/services/account_service.ts, and getMarkets.
--   Exchange: the two requests that change the state, as src/routers/orderbook_router.ts hands them
--     to the handlers. Exchange/Moves is the abstract exchange, a book of orders that a request moves,
--     Exchange/Sound its invariant, Exchange/Books the book that a table stands for, and
--     Exchange/Refines the refinement.
--   Routes: the requests that read, with the handlers that pass an answer on, and the normaliser of
--     addresses.
--   Requests: getAppAsync of src/app.ts, from a request over the normaliser of addresses to its route,
--     and requests one after the other; Requests/Addresses is about the addresses of a query, and
--     Requests/Pages about the pages of the order book.
--   Environment and Config: the checks and the settings of src/config.ts.
--   Wallets and App: src/wallet_provider.ts, and the start of src/index.ts with
--     getDefaultAppDependenciesAsync of src/app.ts.
--   Networks, Script, Deploy: scripts/helpers.ts and src/addresses.ts. Script is what a script does to
--     a chain that answers each request by the requests before it, and Script/Steps the rules for
--     it; Deploy/Load is src/contracts.ts, Deploy/Promise what a deployment promises, Deploy/Parts,
--     Deploy/Traders, Deploy/Initial and Deploy/Complete the proof.
--   Maps, Channels, Websocket: src/services/websocket_service.ts: JavaScript's maps, the filters and
--     updates, and the state of clients and subscriptions with a step for each event.
--   Interleaved: the two requests of Exchange where they overlap: one gives way to the others at each await on
--     the database or the chain, and keeps its local variables meanwhile. Interleaved/Sound is about
--     the book of orders, Interleaved/Alone about the moves of one request, and Interleaved/Serial
--     about requests that do not overlap. The lookups of one cancellation are one move.
--   Broadcast: start of src/services/websocket_service.ts, whose listeners turn the events of a request
--     into messages. Broadcast/Reaches is about any events, Broadcast/Post about those of
--     postOrderAsync.
--   Tests: the theorems at concrete inputs; Tests/Interleaved two requests that overlap.
--
-- A handler calls the service; the service matches, builds a trade operation, commits it through the
-- wallet, writes the table and the history and emits events; the websocket service turns each event
-- into messages to the sockets whose subscriptions it passes. A start loads the settings, unlocks the
-- wallets that sign for the operator, and takes the contracts from the book that a deployment saves.
--
-- Bounds: every loop is structural recursion over the list that it visits, so there is no fuel. A
-- BigNumber is finite and exact in sums and products; a page and its size are whole numbers; the
-- clock is a number of milliseconds that stands still during a call. Writes to the database do not
-- fail, so fulfillOrderAsync is not modelled where one of its saves throws after the transaction is
-- confirmed; a deletion by an empty list is refused. The ABI coder of ethers throws on a value that
-- is not of its type; its hash of values, solidityKeccak256, is taken as total. A throw of a
-- listener ends what Broadcast sends, and does not reach the handler that emits. A call of the
-- service runs without another one in between, except in Interleaved.
--
-- Not modelled: the contracts and their bindings, the framework's wiring and matching of paths, the
-- connection to the database, logging, and the demonstration scripts, which send requests to the
-- server. Of the readings and the deployment, what a contract answers is a parameter.
pub mod Base
pub mod Api
pub mod App
pub mod BigNumber
pub mod Types
pub mod Hex
pub mod Interleaved
pub mod Ethers
pub mod Signature
pub mod Orders
pub mod TradeOperation
pub mod OrderUtils
pub mod Pagination
pub mod Store
pub mod Matching
pub mod Readings
pub mod Networks
pub mod Script
pub mod Requests
pub mod Routes
pub mod Service
pub mod Market
pub mod Handlers
pub mod Config
pub mod Environment
pub mod Constants
pub mod Deploy
pub mod Exchange
pub mod Listing
pub mod Maps
pub mod Broadcast
pub mod Channels
pub mod Wallets
pub mod Websocket
pub mod Tests
