-- ===== src/Trace/Recorded.antt =====
-- A session of packages/trace/src/runtime/session.ts along its decoding: what the sink and the payload of the active
-- chunk are read as.
use sapi_game.Base.{
  ℕ, suc, ◌+◌, ◌<◌, ◌≡◌, refl, sym, ◌∙◌, subst, ◌⊎◌, inl, inr, Bool, true, false, List, [], ◌∷◌,
  ◌++◌, arith, ◌==◌, ==_iff, length, length-append,
}
use sapi_game.Wire.Result.{Result, Error, ok, err, ◌then_write◌, Result-cases}
use sapi_game.Wire.Varint.{write_byte, write_var_uint}
use sapi_game.Wire.Raw.{Double, Value}
use sapi_game.Trace.Types.{TraceSource}
use sapi_game.Trace.Dictionary.{Dictionary, put}
use sapi_game.Trace.Decoder.{DecodeTables, DecodeState, read_source}
use sapi_game.Trace.Sync.{KnownNames, Synced, Runs, Runs-nil, Runs-append, Grows}
use sapi_game.Trace.Decoder.{read_payload, event_name, decode_chunk, decode_chunks, no_tables}
use sapi_game.Trace.Types.{DecodedTraceEvent, EventName}
use sapi_game.Trace.Session.{
  TraceChunk, Session, chunk_header, sealed_chunk, next_chunk, seal_chunk, begin_chunk, write_delta,
  add_event,
}
use sapi_game.Trace.ChunkBack.{start_of, decode_chunk-Runs, decode_chunks-append}
use sapi_game.Trace.EventBack.{event-Runs}
use sapi_game.Trace.Reads.{Reads}

abbrev pub bytes_of : List TraceChunk → List (List ℕ)
bytes_of [] = []
bytes_of (c ∷ chunks) = c.bytes ∷ bytes_of chunks

pub bytes_of-append : (xs ys : List TraceChunk) → bytes_of (xs ++ ys) ≡ bytes_of xs ++ bytes_of ys
bytes_of-append [] ys = refl
bytes_of-append (x ∷ xs) ys = rw (bytes_of-append xs ys) refl

Synced-put :
    (bytes : List ℕ) (t : DecodeTables) (s : Dictionary) → Synced t s → Synced t (put bytes s)
Synced-put bytes t s g = record {
  strings = g.strings;
  players = g.players;
  schemas = g.schemas;
  schema_range = g.schema_range;
  schema_numbers = g.schema_numbers;
  schema_names = g.schema_names;
  custom_from = g.custom_from;
}

Synced-no_payload :
    (t : DecodeTables) (s : Dictionary) → Synced t s → Synced t (record s { payload = [] })
Synced-no_payload t s g = record {
  strings = g.strings;
  players = g.players;
  schemas = g.schemas;
  schema_range = g.schema_range;
  schema_numbers = g.schema_numbers;
  schema_names = g.schema_names;
  custom_from = g.custom_from;
}

-- How an operation without a result ends.
abbrev pub done : Session → Session × Result (Unit {0})
done s = (s, ok tt)

abbrev pub failed : Error → Session → Session × Result (Unit {0})
failed e s = (s, err e)

module _ (d : Double) where
  open d use {Number}

  abbrev pub Events : Type 0
  Events = List (DecodedTraceEvent Number)

  abbrev pub state_of : DecodeTables → Events → ℕ → ℕ → DecodeState d
  state_of t events count previous = record {
    tables = t;
    output = events;
    event_index = count;
    previous_tick = previous;
  }

  -- What the decoder makes of the chunks in the sink.
  pub record Sealed (s : Session) : Type 0 where
    pub tables : DecodeTables
    pub events : Events
    pub decodes : decode_chunks d (bytes_of s.sink) no_tables [] ≡ ok (tables, events)

  -- The payload so far, in a chunk with this header, takes the decoder to these events.
  abbrev pub Filled : DecodeTables → Events → ℕ → ℕ → Dictionary → ℕ → ℕ → Events → Type 0
  Filled t₀ before first base dict count previous events =
      (t : DecodeTables) × Runs d first (start_of d t₀ before base) dict.payload
        (state_of t events count previous)
      × Synced t dict

  Filled-Grows :
      (t₀ : DecodeTables) (before : Events) (first base : ℕ) (dict u : Dictionary)
      (count previous : ℕ) (events : Events)
      → Filled t₀ before first base dict count previous events
      → Grows d dict u
      → Filled t₀ before first base u count previous events
  Filled-Grows t₀ before first base dict u count previous events (t, runs, synced) g =
      let (t', runs', synced') = g.decodes first (state_of t events count previous) synced in
      (
        t',
        subst (λ z. Runs d first (start_of d t₀ before base) z (state_of t' events count previous))
            (sym g.written)
            (Runs-append d first (start_of d t₀ before base) (state_of t events count previous)
              (state_of t' events count previous) dict.payload g.bytes runs runs'),
        synced',
      )

  unfoldable pub event_of :
      ℕ → ℕ → ℕ → TraceSource → EventName → Value Number → DecodedTraceEvent Number
  event_of n tick type source name value = record {
    sequence = n;
    tick = tick;
    type_id = type;
    type = name;
    source = source;
    payload = value;
  }

-- The invariants of a session, which has ended or not.
module _ (d : Double) (ended : Bool) where
  open d use {Number}

  -- A session that is about to write an event, or has: its active chunk has a first event.
  pub record Opened (s : Session) (events : Events d) : Type 0 where
    pub running : s.ended ≡ ended
    pub sealed : Sealed d s
    pub known : KnownNames s.dict
    pub counted : length events ≡ s.sequence
    pub filled :
        Filled d sealed.tables sealed.events s.first_sequence s.start_tick s.dict s.event_count
          s.previous_tick events
    pub order : s.first_sequence + s.event_count ≡ suc s.sequence

  -- A session that has recorded `events`. A chunk without an event has no header yet.
  pub record Recorded (s : Session) (events : Events d) : Type 0 where
    pub running : s.ended ≡ ended
    pub sealed : Sealed d s
    pub known : KnownNames s.dict
    pub counted : length events ≡ s.sequence
    pub active :
        ((s.event_count ≡ 0)
          × (events ≡ sealed.events)
          × ((first base : ℕ)
              → Filled d sealed.tables sealed.events first base s.dict 0 base events))
        ⊎ ((0 < s.event_count) × Opened s events)

  pub Opened-Recorded :
      (s : Session) (events : Events d) → 0 < s.event_count → Opened s events → Recorded s events
  Opened-Recorded s events some_there o = record {
    sealed = o.sealed;
    running = o.running;
    known = o.known;
    counted = o.counted;
    active = inr (some_there, o);
  }

  -- An operation on the dictionary.
  pub Opened-Grows :
      (s : Session) (events : Events d) (u : Dictionary)
      → Opened s events
      → Grows d s.dict u
      → Opened (record s { dict = u }) events
  Opened-Grows s events u o g = record {
    sealed = record {
      tables = o.sealed.tables;
      events = o.sealed.events;
      decodes = o.sealed.decodes;
    };
    running = o.running;
    known = g.names o.known;
    counted = o.counted;
    filled =
        Filled-Grows d o.sealed.tables o.sealed.events s.first_sequence s.start_tick s.dict u
          s.event_count s.previous_tick events o.filled g;
    order = o.order;
  }

  pub Recorded-Grows :
      (s : Session) (events : Events d) (u : Dictionary)
      → Recorded s events
      → Grows d s.dict u
      → Recorded (record s { dict = u }) events
  Recorded-Grows s events u r g = elim (r.active) [
    | inr (some_there, o) ↦
        Opened-Recorded (record s { dict = u }) events some_there (Opened-Grows s events u o g)
    | inl (none_there, all_sealed, filled) ↦ record {
      sealed = record {
        tables = r.sealed.tables;
        events = r.sealed.events;
        decodes = r.sealed.decodes;
      };
      running = r.running;
      known = g.names r.known;
      counted = r.counted;
      active = inl (
        none_there,
        all_sealed,
        (λ first base.
            (Filled-Grows d r.sealed.tables r.sealed.events first base s.dict u 0 base events
              (filled first base) g)),
      );
    }
  ]

  -- The start of a chunk, where it has no event yet.
  pub begin_chunk-Opened :
      (s : Session) (events : Events d) (tick : ℕ)
      → Recorded s events
      → Opened (begin_chunk tick s) events
  begin_chunk-Opened s events tick r = elim (r.active) [
    | inr (some_there, o) ↦
        let differs : (s.event_count == 0) ≡ false =
          ground (arith, some_there, ==_iff s.event_count 0) in
        rw differs o
    | inl (none_there, all_sealed, filled) ↦ rw none_there (record {
      sealed = record {
        tables = r.sealed.tables;
        events = r.sealed.events;
        decodes = r.sealed.decodes;
      };
      running = r.running;
      known = r.known;
      counted = r.counted;
      filled = filled (suc s.sequence) tick;
      order = omega arith;
    })
  ]

  -- The bytes of an event at the end of the payload.
  pub add_event-Opened :
      (s : Session) (events : Events d) (tick type : ℕ) (source : TraceSource)
      (value : Value Number) (name : EventName) (head sb pb : List ℕ)
      → Opened s events
      → (write_byte 16 then_write write_delta tick s.previous_tick then_write write_var_uint type)
        ≡ ok head
      → ((t : DecodeTables) → Synced t s.dict → Reads (read_source t) sb source)
      → ((t : DecodeTables)
          → Synced t s.dict
          → Reads (read_payload d t type) pb value × (event_name d t type ≡ name))
      → Opened
          (add_event tick (head ++ (sb ++ pb)) s)
          (events ++ (event_of d (suc s.sequence) tick type source name value ∷ []))
  unfolding event_of
  add_event-Opened s events tick type source value name head sb pb o wrote reads back =
      let (t, runs, synced) = o.filled in
      let st = state_of d t events s.event_count s.previous_tick in
      let (reads', named) = back t synced in
      let one =
        event-Runs d s.first_sequence st tick type source value name head sb pb wrote
          (reads t synced) reads' named in
      record {
        sealed = record {
          tables = o.sealed.tables;
          events = o.sealed.events;
          decodes = o.sealed.decodes;
        };
        running = o.running;
        known = o.known;
        counted = omega (
          arith,
          o.counted,
          length-append events (event_of d (suc s.sequence) tick type source name value ∷ []),
        );
        filled = (
          t,
          Runs-append d s.first_sequence (start_of d o.sealed.tables o.sealed.events s.start_tick)
              st _ s.dict.payload (head ++ (sb ++ pb)) runs (rw o.order at one),
          Synced-put (head ++ (sb ++ pb)) t s.dict synced,
        );
        order = omega (arith, o.order);
      }

  -- What is sealed.
  next_chunk-Recorded :
      (s : Session) (events : Events d) (header : List ℕ)
      → Opened s events
      → chunk_header s ≡ ok header
      → Recorded (next_chunk header s) events
  unfolding decode_chunks
  next_chunk-Recorded s events header o wrote =
      let (t, runs, synced) = o.filled in
      let chunk =
        decode_chunk-Runs d s header s.dict.payload o.sealed.tables o.sealed.events
          (state_of d t events s.event_count s.previous_tick) wrote runs refl in
      record {
        sealed = record {
          tables = t;
          events = events;
          decodes = rw (bytes_of-append s.sink (sealed_chunk s header ∷ [])) (
              decode_chunks-append d (bytes_of s.sink) ((header ++ s.dict.payload) ∷ []) no_tables
                [] o.sealed.tables o.sealed.events o.sealed.decodes
              ∙ decode_one (header ++ s.dict.payload) o.sealed.tables o.sealed.events t events
                  chunk);
        };
        running = o.running;
        known = o.known;
        counted = o.counted;
        active = inl (
          refl,
          refl,
          (λ first base.
              (t, Runs-nil d first (start_of d t events base), Synced-no_payload t s.dict synced)),
        );
      }
    where
      decode_one :
          (c : List ℕ) (t : DecodeTables) (before : Events d) (t' : DecodeTables) (after : Events d)
          → decode_chunk d c t before ≡ ok (t', after)
          → decode_chunks d (c ∷ []) t before ≡ ok (t', after)
      decode_one c t before t' after h = rw h refl

  pub seal_chunk-Recorded :
      (s u : Session) (events : Events d)
      → Recorded s events
      → seal_chunk s ≡ (u, ok tt)
      → Recorded u events × (u.event_count ≡ 0)
  unfolding seal_chunk
  seal_chunk-Recorded s u events r h = elim (r.active) [
    | inl (none_there, all_sealed, filled) ↦
        let empty : (s.event_count == 0) ≡ true =
          ground (arith, none_there, ==_iff s.event_count 0) in
        let e : done s ≡ done u = rw (empty, seal_chunk) at h in
        let same : s ≡ u = cc in
        subst (λ z. Recorded z events × (z.event_count ≡ 0)) same (r, none_there)
    | inr (some_there, o) ↦
        let differs : (s.event_count == 0) ≡ false =
          ground (arith, some_there, ==_iff s.event_count 0) in
        elim (Result-cases (chunk_header s)) [
          | inl (header, wrote) ↦
              let e : done (next_chunk header s) ≡ done u = rw (differs, wrote, seal_chunk) at h in
              let same : next_chunk header s ≡ u = cc in
              subst (λ z. Recorded z events × (z.event_count ≡ 0)) same
                (next_chunk-Recorded s events header o wrote, refl)
          | inr (failure, threw) ↦
              let e : failed failure s ≡ done u = rw (differs, threw, seal_chunk) at h in absurd cc
        ]
  ]

-- The mark that a session has ended.
Opened-ends :
    (d : Double) (s : Session) (events : Events d)
    → Opened d false s events
    → Opened d true (record s { ended = true }) events
Opened-ends d s events o = record {
  running = refl;
  sealed = record {
    tables = o.sealed.tables;
    events = o.sealed.events;
    decodes = o.sealed.decodes;
  };
  known = o.known;
  counted = o.counted;
  filled = o.filled;
  order = o.order;
}

pub Recorded-ends :
    (d : Double) (s : Session) (events : Events d)
    → Recorded d false s events
    → Recorded d true (record s { ended = true }) events
Recorded-ends d s events r = record {
  running = refl;
  sealed = record {
    tables = r.sealed.tables;
    events = r.sealed.events;
    decodes = r.sealed.decodes;
  };
  known = r.known;
  counted = r.counted;
  active = elim (r.active) [
    | inl idle ↦ inl idle
    | inr (some_there, o) ↦ inr (some_there, Opened-ends d s events o)
  ];
}

-- Where no event waits in the active chunk, the chunks of the sink have them all.
pub sealed_all :
    (d : Double) (ended : Bool) (s : Session) (events : Events d)
    → Recorded d ended s events
    → s.event_count ≡ 0
    → (t : DecodeTables) × (decode_chunks d (bytes_of s.sink) no_tables [] ≡ ok (t, events))
sealed_all d ended s events r none_there = elim (r.active) [
  | inl (empty, all_sealed, filled) ↦ (r.sealed.tables, rw all_sealed (r.sealed.decodes))
  | inr (some_there, o) ↦ absurd (omega arith)
]
