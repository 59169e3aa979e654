-- ===== src/Lib.antt =====
-- The market-data path of an exchange gateway on DPDK: the forwarding of packets, a TCP client over raw
-- packets, WebSocket frames and subscriptions, the connections to the exchanges with their parsers,
-- the local order books, the outgoing feed of books, and the histogram of latencies.
--
-- MicroTcp (src/modules/network/micro_tcp.h, micro_tcp.cpp) builds and reads packets itself. A packet
-- is an Mbuf of Packet.antt. MicroTcp.antt has the state and the operations `new`, `connect`,
-- `send_data`, `create_tcp_packet`, `parse_tcp_packet` and `extract_rx_data`; MicroTcp/Process.antt has
-- `process_rx`, one function for each part of that method. Each takes the state and gives the new one
-- with the packets it sends, none being a null pointer. The mempool and the checksums are DPDK's, and
-- are the parameter `Dpdk`. Sequence numbers are natural numbers, with the wrap at 2^32 written out.
--
-- OrderBook (src/modules/market_data/order_book.h, order_book.cpp) keeps price levels in two sorted
-- maps, Base/SortedMap.antt being std::map as the list of its entries in key order. The methods hold
-- the book's mutex for their whole body, and are functions of the book. A quantity, a double in the
-- source, is a value of any type Q with the test `<= 0.0` as a parameter. OrderBook/Manager.antt is
-- the class OrderBookManager.
--
-- Classifier.antt (src/modules/classifier/classifier.cpp) says which packets take the fast path,
-- MdParser.antt (src/modules/parser/parser.cpp) finds a book update in a UDP packet, and
-- Forwarding.antt (src/core/forwarding.cpp) is the loop that shares a packet between the kernel and the
-- strategy's ring by its reference count. What the ring and the ports take is a parameter.
--
-- WebSocket.antt is the framing of messages: WebSocketFramer (src/modules/network/websocket_framer.h),
-- and the frames that WebSocketClient (src/modules/network/websocket_client.cpp) writes and reads. A
-- byte is a natural number and the masking keys are parameters.
--
-- UdpFeed.antt is UdpPublisher (src/modules/network/udp_publisher.h, udp_publisher.cpp), the binary
-- feed of books; UdpFeed/Decode.antt has a reader of that format written from the packet layout.
--
-- Subscriptions.antt is the part of WebSocketClient that keeps the subscriptions and reconnects; its
-- requests and the parsed answers are values, and Subscriptions/History.antt has its histories.
--
-- Latency.antt is LatencyHistogram (src/modules/telemetry/latency_histogram.h), with the microseconds
-- of a latency computed exactly.
--
-- BoostClient.antt is BoostWebSocketClient (src/modules/network/boost_websocket_client.cpp) with its
-- queue (concurrentqueue.h). What Boost was asked to do stands in the field `pending`; a step ends one
-- of these operations and runs its handler. BoostClient/History.antt has the steps.
--
-- Connection.antt is OkxConnection and BybitConnection (src/modules/exchange/okx_connection.cpp and
-- bybit_connection.cpp), over the client of BoostClient.antt, the publisher of UdpFeed.antt and the
-- adapter interface of ExchangeAdapter.antt (exchange_adapter.h). OkxAdapter.antt and BybitAdapter.antt
-- are its two implementations, ExchangeRegistry.antt (exchange_registry.h) finds the adapter of an
-- exchange, and JsonParser.antt is JsonParser (src/modules/parser/json_parser.cpp);
-- Json.antt has what they use of simdjson and of the number conversions, as parameters, and the loops
-- that the adapters share.
--
-- TlsSocket.antt is TlsSocket (src/modules/network/tls_socket.cpp) over OpenSSL, which is a parameter;
-- TlsSocket/Laws.antt has what OpenSSL documents. Handshake.antt is the connection of WebSocketClient
-- (src/modules/network/websocket_client.cpp): what it sends through TLS over MicroTcp.antt, and, in
-- Handshake/Process.antt, connect and process_rx, one function for each part of the method.
-- Handshake/History.antt has the histories of its calls.
--
-- Messages.antt is what process_websocket_frame (src/modules/network/websocket_client.cpp) makes of a
-- frame: it reads the message with the JSON parameters of Json.antt, updates the books of
-- OrderBook/Manager.antt, and hands the text to the application. Config.antt is config_load
-- (src/config/config.c) with the loops of src/main.cpp over the symbols.
--
-- NetworkUtils.antt is NetworkUtils (src/modules/network/network_utils.cpp); what the system answers is
-- a parameter.
--
-- Upgrade.antt is what handle_tcp_data and handle_tls_data (src/modules/network/websocket_client.cpp) do:
-- the test of the server's answer, and frames that come over TLS.
--
-- Every loop is a recursion on the list it runs over, or on the number of its rounds. Fuel is used by
-- `poll` of Connection.antt, whose source loops until the queue is empty, where one round more than
-- there are messages is enough, and in Handshake.antt: the flush has one round more than there are
-- bytes to send, the feed as many as bytes were received, and the pump the ten of the source.
--
-- Not modelled: logging and start-up, which are calls of DPDK and of the system, and the heartbeat of
-- WebSocketClient, whose fields nothing reads.
pub mod Base
pub mod AeroTypes
pub mod OrderBook
pub mod Packet
pub mod MicroTcp
pub mod Classifier
pub mod MdParser
pub mod Forwarding
pub mod WebSocket
pub mod UdpFeed
pub mod Subscriptions
pub mod TlsSocket
pub mod Handshake
pub mod Messages
pub mod Upgrade
pub mod NetworkUtils
pub mod Config
pub mod Latency
pub mod BoostClient
pub mod ExchangeAdapter
pub mod ExchangeRegistry
pub mod Connection
pub mod Json
pub mod JsonParser
pub mod OkxAdapter
pub mod BybitAdapter
