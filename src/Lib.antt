-- ===== src/Lib.antt =====
-- The EuroScope plugin bridge: a plugin inside a radar client, through which other plugins publish
-- typed values about aircraft, read them, and share them online through an MQTT broker.
--
-- The parts and the files that model them:
-- * Mqtt.antt (src/MqttCodec.cpp, src/MqttCodec.h): the MQTT 5.0 packets. EncodeX is encode_x,
--   Decode is decode, split into decode_framed and one function for each packet. A buffer is the
--   list of its bytes.
-- * AircraftTable.antt (src/AircraftTable.cpp, .h): the generational handles of aircraft. Observe,
--   Retire, Sweep, Resolve, Validate, CallsignOf and LiveCount have their names in snake case; a
--   call takes the table and returns the table after it. AircraftTable/History has sequences of
--   calls.
-- * Value.antt (include/esbridge.h, src/Registry.cpp): ESB_Value and Slot, with SameValue, Store
--   and ReadSlot.
-- * Schema.antt (src/Registry.h, src/Registry.cpp): fields, providers and subscriptions, and the
--   tests on names, types and scopes.
-- * Registry.antt (src/Registry.cpp): the state of the registry, CheckWrite and the writes of
--   global values; Registry/Read the reads; Registry/Aircraft the writes of aircraft's values;
--   Registry/Drop what goes when an aircraft or a provider goes; Registry/Notify subscriptions and
--   the delivery of events; Registry/Discovery OwnField, Resolve, ProviderVersion and
--   ListProviders; Registry/Payload the text of values on the wire; Registry/Remote what peers
--   publish (ApplyRemote, RemotePublishers, GetRemote, ListPeers); Registry/Outbox what leaves for
--   them (FlushOutbox, DrainRelay); Registry/Register RegisterProvider and RestoreStagedFor;
--   Registry/State the state file (LoadState, SaveState, FlushStateIfDue); Registry/Housekeeping
--   the round of the plugin's timer.
-- * Json.antt (src/Json.cpp, src/Json.h): the values and their accessors; Json/Scan SkipSpace,
--   Literal, ParseString and ParseNumber; Json/Parser ParseValue, ParseArray, ParseObject and
--   Parse; Json/Writer WriteString, WriteValue and Write; Json/Double what the code asks of a
--   double.
-- * Config.antt (src/Config.cpp, src/Config.h): bridge.json, with Load, WriteDefault and Describe.
-- * Text.antt (used by src/Relay.cpp and others): the standard library's text of numbers, which the
--   relay and the registry write and read.
-- * Relay.antt (src/Relay.cpp, src/Relay.h): topics, the two queues, PumpOutbound, PumpInbound and
--   HandlePublish, which is handle_publish with handle_parts, handle_presence and handle_value; a
--   call takes the relay and returns it after the call, with what it sends. Relay/Connect has
--   AwaitSubAck, ConnectAndSubscribe, Start, Stop and the rounds of ThreadMain, with what each
--   sleeps; Relay/Queues/Steps the steps of both threads.
-- * Status.antt (include/esbridge.h): ESB_Status. Prelude.antt: tests, lists, maps and masks.
-- The registry holds an aircraft table and keys its values by the table's slots; a write of a value
-- ends by a notification, which runs the callbacks of other plugins, which may call the registry
-- again. What the registry queues for the network leaves it through the relay, as MQTT packets.
--
-- Machine integers wrap where the source's do (% 2 ^ 32, % 2 ^ 64); slot numbers are below 2 ^ 32,
-- so the histories of the table have fewer than 2 ^ 32 calls: a generation wraps only after that
-- many. The loop of ParseProperties is on fuel, the length of the block; DrainPending is on its own
-- bound of eight rounds; EncodeVarInt and the decimal text are by well-founded recursion. The loops
-- over received packets are on fuel, one more than the bytes, and each packet takes two of them or
-- more. The wait of ThreadMain is on fuel, its milliseconds, of which a step takes a hundred. The
-- JSON parser is on fuel, two rounds for each byte of the text and one more: a value, an
-- item or a member takes one round of its own and at least a byte.
--
-- Parameters stand for other plugins and the operating system: the callbacks of subscribers (a
-- script of the calls that change the registry, RegisterProvider among them, for each state that
-- it finds), what ModuleIsLoaded of
-- src/BridgeInstance.cpp and GetModuleFileNameA find out, and the answer of OnMainThread; for the
-- relay, what the transport takes and what each Recv gives, where a list of reads ends at the
-- deadline. The text of a double and the double of a text, which the C library makes, are
-- parameters too. The text of an error of the transport is left out of the relay's state. The log
-- and the assertions of debug builds are left out.
-- For the state file and bridge.json, the text that is read and what becomes of a file that is
-- written are arguments, and doubles are bit patterns with a record of the functions that the code
-- calls on them; the laws that theorems rely on are named there.
-- Not modelled: the dumps of src/Registry.cpp, which only print; src/Transport.cpp,
-- src/BridgeInstance.cpp, src/BridgePlugin.cpp and src/Log.cpp, which are calls of the operating
-- system and of EuroScope, and src/ApiExports.cpp, which forwards to the registry.
pub mod Prelude
pub mod Status
pub mod Text
pub mod Mqtt
pub mod AircraftTable
pub mod Value
pub mod Json
pub mod Schema
pub mod Registry
pub mod Relay
pub mod Config
