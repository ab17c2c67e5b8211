-- ===== src/Lib.antt =====
-- A verification library for trade_plat, a platform that runs contestants' trading bots against a
-- matching engine and scores them from the trades.
--
-- The parts and how they interact. Bots (bot-fleet/main.py, sample_bot/) send orders over a
-- WebSocket to the gateway of the matching engine (matching-engine/networking/TCPServer.cpp). The
-- engine sends its trades through Kafka to a scoring worker (telemetry/scoring_engine.py), which
-- validates the stream of one contestant, disqualifies at the first violation and otherwise
-- publishes figures to Redis. The orchestrator (infra/orchestrator.py) builds the image of a
-- submission, starts a scoring worker, runs the image in a sandbox and cleans up. The web gateway
-- (telemetry/api.py) stages an upload, starts the orchestrator and streams the leaderboard. The
-- load test (bench/run_loadtest.py) restarts the stack, runs the bots and summarizes what the
-- worker printed.
--
-- Which file models which part:
--   Scoring/Event        TradeEvent, unpack_trade_events
--   Scoring/State        ContestantState: __init__, check_price_priority, validate, accept, prune
--   Scoring/Percentile   percentile
--   Scoring/Metrics      ContestantState.metrics
--   Scoring/Feed         the function feed of run_self_test: validate and accept along a stream
--   Scoring/Worker       publish_metrics, disqualify and the loop of main
--   Wire/Order           struct.pack of format_order, and the memcpy of the gateway
--   Wire/Frame           websocket_binary_frame, and the frame loop of TCPServer.cpp
--   Wire/Trade           the packed struct TradeEvent of matching-engine/MarketEvents.h
--   Fleet/Bot            the class Bot: connect, disconnect, read_loop, send_order
--   Fleet/Orders         generate_order_id, format_order
--   Fleet/Roster         the construction of the fleet in main, and the totals of metrics_reporter
--   Fleet/Report         the line that metrics_reporter prints
--   Fleet/Strategy       Bot.run and bot_logic of the three kinds of bot
--   Fleet/Sample         sandbox_sdk.py and solution.py of sample_bot/
--   Orchestrator/Language  the language and the entry point of auto_detect_and_build
--   Orchestrator/Effects   runs as lists of effects with an ending; try and finally
--   Orchestrator/Cluster   the calls of Kubernetes and Docker
--   Orchestrator/Exchange  ensure_exchange_service, deploy_exchange_core
--   Orchestrator/Lifecycle start_scoring_engine and run
--   Bench/Stack          service_states, wait_until_ready, restart_stack of bench/run_loadtest.py
--   Bench/Parsing        harvest_scoring_samples, parse_fleet_ops, parse_fleet_totals
--   Bench/Summary        summarize, aggregate; Bench/Statistics has their medians and extremes
--   Bench/Campaign       the loop of main over the runs, and its exit status
--   Gateway/Upload       receive_submission of telemetry/api.py
--   Gateway/Leaderboard  read_leaderboard of telemetry/api.py
--   Gateway/Stream       leaderboard_stream of telemetry/api.py
--   Engine/Book          Order and OrderBook of matching-engine/: levels, orderMap, eraseAt
--   Engine/Matching      addOrder, matching and cancelOrder of MatchingEngine.cpp
--   Engine/Priority      what the engine promises, as two plain queues, and its refinement
--   Engine/Stream        its trades as the stream that Scoring/Feed validates
-- Each has its theorems in the files of its folder. Common holds the list and test helpers, texts
-- as lists of character codes, decimal numerals and the interface of doubles; Tests holds concrete runs and an instance of each theorem.
--
-- How the model is built. A struct is a record, a text that the code only compares is a
-- constructor of a data type, and a dictionary is an association list. Integers of Python are
-- natural numbers: every field that the code reads from the wire is unsigned. Doubles are a
-- parameter, the record Floats of Common/Floats, whose operations have no laws; a theorem that
-- needs some takes them as a second record (LinearOrder, PriceOrder, Tolerance, Scaling, Codec),
-- and Tests/Fixed has an instance of each. Clocks are functions of the number of the reading, or
-- readings in a list. What the network, Kubernetes, Docker, Redis and Kafka answer is an argument
-- of the function that asks. An exception is a constructor of the result type, and the exceptions
-- modelled are these: in the scoring worker those of the poll, the unpacking, the index of
-- percentile and the three calls of Redis in publish_metrics; in connect of the bots those that
-- its except names and those that it does not; in the orchestrator an ApiException with its
-- status and any other exception of connect, of the calls of Kubernetes and of docker build, and
-- of Popen, while the terminate, wait and kill of a started process do not raise; in the web
-- gateway those of the upload and, in a stream, of get_message and of read_leaderboard. What
-- kills a process is not modelled, and an exception that these lists do not name is not either.
-- The laws that theorems assume of doubles and of float() are documented behaviour of IEEE 754
-- and of Python: the order of numbers, the exactness of cut products below 2^45, and that float()
-- reads the digits of an integer as that integer.
--
-- Loops. The loops over events, polls, attempts and reads of the clock run along a list of what
-- the environment answers, so they need no fuel: the end of the list is the point up to which
-- the run was watched, and results that end there say so (running, pending, waiting). The loop
-- of matching takes an order or a level out of the book in every round, so its fuel is the
-- number of levels and orders; Engine/Matching/Rest shows that it is enough. One frame at a time
-- is parsed from the bytes at the read pointer of the gateway.
--
-- The matching engine. Order ids, quantities and times, which are of signed types in C++, are
-- modelled where they are not negative; the 64-bit counters stay below their bound, as 2^64
-- matches are out of reach. The clock and the answers of KafkaOffloader.publish are functions of
-- the number of the match. A std::map is the list of its entries in the order of its comparator,
-- and a std::unordered_map an association list.
--
-- What is not modelled. In matching-engine/, the queues and the memory pool are lock-free code,
-- the histograms of latencies are output, and epoll, the HTTP upgrade and librdkafka are calls
-- of the operating system and of a library. In telemetry/api.py, the set-up of FastAPI and the
-- JSON of the events are left out; in bench/run_loadtest.py, host_facts, run_bot_fleet and the
-- report in Markdown. leaderboard/, terraform/, infra/k8s/ and the container files are
-- presentation and configuration.
pub mod Common
pub mod Scoring
pub mod Wire
mod Tests
pub mod Fleet
pub mod Orchestrator
pub mod Bench
pub mod Gateway
pub mod Engine
