-- ===== src/Lib.antt =====
-- A verification library for BEGame, a framework for games in the Minecraft Bedrock script engine,
-- and for the trace format in which it records a game's sessions.
--
-- The program keeps games (packages/core) and their traces (packages/trace, packages/trace-spec).
-- A game takes players in through the participation manager, keeps their wrappers in player groups,
-- and reports what happens in events; the trace package writes the events of a session as binary
-- chunks, puts the chunks in one container and stores it as Base64 text.
--
-- Which file models what (paths from the repository's root):
--   Base           names the modules share; lists, bits, integers and Maps over the native numbers
--   Wire           packages/trace/src/wire
--     Result       what an operation returns or throws
--     Varint       binary.ts: BinaryWriter.writeVarUint and writeVarInt, BinaryReader's readers
--     Utf8         binary.ts: encodeUtf8, utf8ByteLength, truncateUtf8, decodeUtf8
--     Raw          binary.ts: writeString, readString, writeRawValue, readRawValue
--     Base64       base64.ts
--     Reader       sequences of readings, and what it means that one undoes a writing
--     Container    container.ts, with the types of packages/trace-spec/src/types.ts
--   Trace          packages/trace/src: the events of a session
--     Types        packages/trace-spec/src/types.ts: sources, field types, names of events
--     Decoder      wire/decoder.ts
--     Act          operations on a state that may throw
--     Dictionary   runtime/session.ts: the numbers of strings, players, states, components, schemas
--     Values       runtime/session.ts: sources, payload values and fields of custom events
--     Session      runtime/session.ts: chunks, events and the end of a session
--     Texts, Sync, Strings, PlayerTable, Defines, Scopes, Schemas   proofs on definitions and the
--                  tables they give
--     Reads, ValueBack, Prepare, EventBack, ChunkBack  proofs on the records that are read back
--     BitSets, CustomField, CustomBits, CustomBack, CustomEvents   proofs on custom events
--     Recorded, Emits, Sessions   proofs on whole sessions
--   Participation  packages/core/src/participation
--     Store        Map<string, Set<string>>
--     Policy       policy.ts
--     Manager      participationManager.ts
--     View         gameParticipation.ts
--     Index, Reach, Joining, Leaving   proofs
--   PlayerGroup    packages/core/src/gamePlayer/playerGroup.ts
--   GroupSet       packages/core/src/gamePlayer/groupSet.ts
--   Timer          packages/core/src/gameComponent/common/timer/timer.ts
--     OnTime       onTimeEvent.ts beside it
--     Countdown, Intervals   proofs
-- The Tests of each part hold concrete runs.
--
-- How code becomes definitions. A function keeps its name in this library's spelling (writeVarUint is
-- write_var_uint). A writer is the list of bytes that it pushes; a reader is the list of bytes left.
-- A thrown error is a value of Result, or none. Objects that the code changes are records, passed in
-- and returned. Strings are lists of UTF-16 code units where the code looks into them (Wire), and
-- numbers where it only compares them (player ids and game keys). The objects by which a trace
-- session knows states and components are numbers. What `safe` of a session catches and reports is
-- the error that the operation returns; the tick is given to each event. A Map or Set is a list in the order
-- of insertion.
--
-- Parameters. The numbers of the language are a record (Raw.Double): safe integers, and the eight
-- bytes of a DataView, which give the number back. Observers of participation are a function from the
-- manager to the manager, so they may call it again; the players of a group are references, with
-- their id, validity and class as functions. The subscribers of a timer are likewise a function from
-- the timer to the timer.
--
-- Limits. The times of a timer are natural numbers. A payload is the properties that the object has of
-- its own. The entries of an object are in the order in which they were set, keys that are array
-- indices included. A custom field whose value is not of its type, which the test before the writing
-- has refused, is an error when it is written.
--
-- Fuel. readRawValue calls itself for the values inside; each takes a byte at least, so one more
-- than the bytes left is enough, and a run out of fuel is an error of its own. The rounds of
-- decodeUtf8 take a byte each likewise, and a safe integer has eight groups of seven bits at most. The
-- records of a chunk and the values of a payload take a byte each too.
--
-- Not modelled: subscribing to participation changes, the messages a group sends to its players, the
-- snapshots that a trace session takes of foreign values and errors, connections, the promises of its
-- sink, the history store and the exporters, the stopwatch, runners, events, game states, the
-- engine and its commands, the components that mostly call the script engine, and the observatory.
pub mod Base
pub mod Wire
pub mod Participation
pub mod PlayerGroup
pub mod GroupSet
pub mod Timer
pub mod Trace
