-- ===== src/Relay/Connection.antt =====
-- packages/relay-core/src/outer-frame.ts, `OuterConnection`: framed messages until `toRaw`, and
-- verbatim bytes from there on.
-- What the connection does to its duplex and to its handlers is kept in logs, oldest first. The
-- handlers and the decoder belong to the caller: a handler is a function on the connection, and that of
-- messages may throw, a number for each thing it can throw.
pub mod Framed
pub mod Switch
use pherry.Base.{
  ℕ, ◌≡◌, refl, zero, suc, ◌+◌, ◌*◌, Bool, true, false, List, [], ◌∷◌, ◌++◌, Option, none, some,
  ltb, ◌==◌, if◌then◌else◌, length,
}
use pherry.Relay.OuterFrame.{
  OuterFrameReader, OuterFrameError, exceeds_maximum, Result, ok, err, push, next, drain_remaining,
  empty_reader, encode_outer_payload,
}

abbrev pub max_prehandler_raw_bytes : ℕ
max_prehandler_raw_bytes = 16 * 1024

-- What reaches `#onError`: the reader's error, the decoder's, what the message handler throws, or the cap
-- on early raw bytes.
pub data ConnectionError : Type 0 where
  framing : OuterFrameError → ConnectionError
  undecodable : List ℕ → ConnectionError
  thrown : ℕ → ConnectionError
  early_raw : ℕ → ConnectionError

pub record OuterConnection : Type 0 where
  pub reader : OuterFrameReader
  pub raw : Bool
  pub raw_handler : Bool
  pub raw_buffer : List (List ℕ)
  pub raw_buffer_bytes : ℕ
  pub closed : Bool
  -- Written to the duplex.
  pub sent : List (List ℕ)
  -- Payloads handed to the message handler, and chunks handed to the raw handler.
  pub payloads : List (List ℕ)
  pub delivered : List (List ℕ)
  pub errors : List ConnectionError

unfoldable pub new_connection : OuterConnection
new_connection = record {
  reader = empty_reader;
  raw = false;
  raw_handler = false;
  raw_buffer = [];
  raw_buffer_bytes = 0;
  closed = false;
  sent = [];
  payloads = [];
  delivered = [];
  errors = [];
}

-- `send`: the encoder throws before anything is written.
pub send : List ℕ → OuterConnection → Result OuterConnection
send payload c = if c.closed then ok c else elim (encode_outer_payload payload) [
  | ok bytes ↦ ok (record c { sent = c.sent ++ bytes ∷ [] })
  | err e ↦ err e
]

pub send_raw : List ℕ → OuterConnection → OuterConnection
send_raw bytes c = if c.closed then c else record c { sent = c.sent ++ bytes ∷ [] }

pub close : OuterConnection → OuterConnection
close c = if c.closed then c else record c { closed = true }

pub on_raw : OuterConnection → OuterConnection
on_raw c = record c {
  raw_handler = true;
  raw_buffer = [];
  raw_buffer_bytes = 0;
  delivered = c.delivered ++ c.raw_buffer;
}

module _ (on_error : ConnectionError → OuterConnection → OuterConnection) where
  pub report : ConnectionError → OuterConnection → OuterConnection
  report e c = on_error e (record c { errors = c.errors ++ e ∷ [] })

  -- `#deliverRaw`
  pub deliver_raw : List ℕ → OuterConnection → OuterConnection
  deliver_raw bytes c =
      let total = c.raw_buffer_bytes + length bytes in
      if c.raw_handler
      then record c { delivered = c.delivered ++ bytes ∷ [] }
      else if ltb max_prehandler_raw_bytes total
      then close (report (early_raw total) (record c { raw_buffer = []; raw_buffer_bytes = 0 }))
      else record c { raw_buffer = c.raw_buffer ++ bytes ∷ []; raw_buffer_bytes = total }

  -- A round behind the message handler: the loop goes on, unless it threw.
  pub handled : OuterConnection × Option ℕ → OuterConnection × Bool
  handled (c, none) = (c, true)
  handled (c, some e) = (report (thrown e) c, false)

  pub handled-none : (r : OuterConnection × Option ℕ) → r.1 ≡ none → handled r ≡ (r.0, true)
  unfolding handled
  handled-none (c, none) h = refl
  handled-none (c, some e) h = absurd (cc)

  pub to_raw : OuterConnection → OuterConnection
  to_raw c =
      let (leftover, reader) = drain_remaining c.reader in
      let c' = record c { raw = true; reader = reader } in
      if c.raw then c else if length leftover == 0 then c' else deliver_raw leftover c'

module _ (decodes : List ℕ → Bool)
    (on_message : List ℕ → OuterConnection → OuterConnection × Option ℕ)
    (on_error : ConnectionError → OuterConnection → OuterConnection) where
  -- One round of `while (!this.#raw)`: the connection after it, and whether the loop goes on.
  pub receive_round : OuterConnection → OuterConnection × Bool
  receive_round c = elim (next c.reader) [
    | err e ↦ (report on_error (framing e) c, false)
    | ok (none, reader) ↦ (record c { reader = reader }, false)
    | ok (some payload, reader) ↦
        if decodes payload
        then handled on_error (
            on_message payload
              (record c { reader = reader; payloads = c.payloads ++ payload ∷ [] }))
        else (report on_error (undecodable payload) (record c { reader = reader }), false)
  ]

  pub receive_loop : ℕ → OuterConnection → OuterConnection
  receive_loop zero c = c
  receive_loop (suc fuel) c =
      let rest = receive_loop fuel (receive_round c).0 in
      if c.raw then c else if (receive_round c).1 then rest else (receive_round c).0

  -- `#receive`. A round takes a frame of four bytes or more, so one round for each buffered byte and
  -- one to find the buffer empty are enough.
  pub receive : List ℕ → OuterConnection → OuterConnection
  receive bytes c =
      let c' = record c { reader = push c.reader bytes } in
      if c.closed
      then c
      else if c.raw
      then deliver_raw on_error bytes c
      else receive_loop (suc c'.reader.buffered) c'

  -- The chunks of a stream, one after the other.
  pub receive_all : List (List ℕ) → OuterConnection → OuterConnection
  receive_all [] c = c
  receive_all (chunk ∷ chunks) c = receive_all chunks (receive chunk c)
