-- ===== src/Lib.antt =====
-- Verification library of tagstrak, an RFID reader client: it reads tag reports over LLRP,
-- translates the tags' codes to identities, matches them against subscriptions and reports the
-- matches.
--
-- A session connects to a reader, makes its handshake and turns reports into observations: a frame
-- comes from a stream (`ReadMessage`), and the body of an RO_ACCESS_REPORT is decoded to read events
-- (`DecodeReadEvents`). The translation makes a subject of each observation, and a matcher tells which
-- subscriptions it meets; the matchers share one contract, which the linear matcher defines. Matches
-- become events, which a dispatcher queues, batches and delivers to each destination. An emulator
-- plays the reader; it packs its tags into reports that the session reads.
--
-- Common (with Common/): results, Boolean tests, lists over native numbers, words, byte strings.
-- Llrp: package llrp. Llrp/Error and Llrp/Frame are the errors, limits and messages of llrp/codec.go
--   (encode_message is EncodeMessage, decode_message DecodeMessage, read_message ReadMessage,
--   write_message WriteMessage); Llrp/Parameter its parameters (encode_parameters, walk_parameters,
--   decode_parameters); Llrp/TagReport is llrp/ro_access_report_codec.go (decode_read_events) and
--   llrp/tag_report_data.go (new_tag_report_data_param) with the two parameters that it uses of
--   llrp/parameter.go, and Llrp/Messages is llrp/typed_messages.go with the other parameters. Their
--   child modules hold the theorems.
-- Identity: package internal/identity. Identity/Names and Identity/Value are
--   internal/identity/identity.go (new, component, equal, key), Identity/Text its texts (name_string,
--   describe), Identity/Pattern is internal/identity/pattern.go (new_bit_pattern, bit_match,
--   new_pattern, match_value, match_components).
-- Filter: package internal/filter. Filter/Subscription is internal/filter/filter.go (validate,
--   matches), Filter/Linear is internal/filter/linear.go, and Filter/Entry, Filter/BitTrie,
--   Filter/FieldTrie, Filter/Ranks and Filter/Index are internal/filter/index.go. Filter/Found holds
--   the ranks that a search confirms, in which the index and the linear matcher are compared.
--   Filter/Adaptive is internal/filter/adaptive.go (controller, match_adaptive, compile_adaptive).
-- Report: package internal/report. Report/Failure is the errors of report.go, Report/Wire is encode.go
--   (encode_event, encode_batch), and of dispatcher.go Report/Config is the configuration (validate,
--   backoff), Report/Deliver one attempt of `deliver` (judge), Report/State and Report/Worker the queue
--   and the worker of a destination (enqueue_event is Enqueue, receive_queue and append_event are rounds of run,
--   send and settle are deliver, abandon_queue is abandon; step is one action of any goroutine), and
--   Report/Dispatcher is New and Enqueue over all destinations.
-- Inventory: package internal/inventory, inventory.go: tags and observations (new_tag,
--   new_observation), and in Inventory/Store the store (replace, snapshot).
-- Reader: package internal/reader. Reader/Config is config.go (validate, backoff), Reader/Protocol is
--   protocol.go (validate_notification, validate_config_response, decode_observations), Reader/Session
--   is the dispatch of messages of session.go (connect, receive_all: `connected`), and
--   Reader/Session/Run its start and retries (new: `New`, run: `Run`).
-- Emulator: package internal/emulator. Emulator/Keepalive is requestedKeepalive of session.go,
--   Emulator/Cycle is reports.go (write_cycle), and Emulator/Serve the loop of serve (serve_step).
--
-- State that Go changes through pointers is passed on: a trie is a tree that is built anew, a map is
-- an association list, a slice that is appended to is a list. A stream is the bytes still to come
-- with the error that ends it; a writer is a state with a function that tells what one call reports.
-- `slices.SortFunc` is an insertion sort: ranks compare equal only for equal IDs, so the result of a
-- sort is determined. Goroutines, timers and deadlines are explicit: a step of a destination is an
-- action that the scheduler lets happen, and a session is given each message with the results of the
-- read and of the write, the time, the room in its output queue, and where its context is cancelled.
-- Report/Worker/Schedule runs a worker turn by turn: other goroutines act, then the worker steps.
--
-- Bounds and fuel: `write_loop` takes the frame's length as its fuel, since a round that goes on has
-- written a byte; `itoa_loop` takes the number, since a round divides it by ten. `walk_loop` counts
-- the parameters that the limit still allows, as the source does. Words wrap around where Go's do:
-- 16-bit lengths in `new_tag_report_data_param`, bytes in `high_mask`, the 64-bit counters of the
-- adaptive matcher and of report delivery, the status of sessions. The adaptive matcher's float tests
-- are parameters, and its clock is a sequence of readings. `double_below` and `double_within` take
-- the number of earlier attempts, as their loops do; `padded` writes ten digits and up to ten more,
-- which is all of a uint64. `run_loop` counts the retries that are left. `run_worker` takes the work
-- left, which bounds the worker's steps, as its fuel. `json.Marshal`, time formats, `net.SplitHostPort`
-- and `strconv.Atoi` are parameters.
--
-- Not modelled: negative counts and durations where Go's int allows them and the code refuses them,
-- and durations that overflow; the details that errors wrap; the String and Describe texts of
-- patterns; the aliasing of slices; the statistics of adaptive matchers and of the dispatcher; a
-- dispatcher that is closed before it is started; the emulator's scenario and its listening; the
-- inventory's file and the hexadecimal form of tags; the translation. Files, sockets,
-- HTTP, configuration and command lines are I/O around the components.
pub mod Common
pub mod Llrp
pub mod Identity
pub mod Filter
pub mod Report
pub mod Inventory
pub mod Reader
pub mod Emulator
