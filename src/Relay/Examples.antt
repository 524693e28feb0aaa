-- ===== src/Relay/Examples.antt =====
-- Runs of packages/relay-core at fixed inputs, and its theorems there.
mod Proofs
mod Runs
use pherry.Base.{
  ℕ, ◌+◌, ◌≤◌, ◌<◌, ◌≡◌, refl, Bool, true, false, List, [], ◌∷◌, ◌++◌, Option, none, some, arith,
  length, flatten, inl, inr, ◌⊎◌,
}
use pherry.Base.Words.{get_uint32_be}
use pherry.Relay.OuterFrame.{
  OuterFrameReader, OuterFrameError, Result, ok, err, exceeds_maximum, next, empty_reader,
  encode_outer_payload, max_outer_message_bytes,
}
use pherry.Relay.OuterFrame.Reader.{IsValid, content}
use pherry.Relay.OuterFrame.Framing.{frame, Fits, next-frame}
use pherry.Relay.Connection.{
  OuterConnection, ConnectionError, new_connection, close, receive_all, to_raw,
}
use pherry.Relay.Connection.Framed.{receive_all-frames, IsQuiet}
use pherry.Relay.Connection.Switch.{receive_all_switch, Passes}

abbrev split_frame : OuterFrameReader
split_frame = record { chunks = (0 ∷ 0 ∷ []) ∷ (0 ∷ 2 ∷ 7 ∷ []) ∷ (8 ∷ 9 ∷ []) ∷ []; buffered = 7 }

abbrev short_frame : OuterFrameReader
short_frame = record { chunks = (0 ∷ 0 ∷ []) ∷ (0 ∷ 2 ∷ 7 ∷ []) ∷ []; buffered = 5 }

abbrev oversized_frame : OuterFrameReader
oversized_frame = record { chunks = (0 ∷ 1 ∷ []) ∷ (0 ∷ 0 ∷ []) ∷ []; buffered = 4 }

next-frame_example :
    (r' : OuterFrameReader) × (next split_frame ≡ ok (some (7 ∷ 8 ∷ []), r'))
    × (content r' ≡ 9 ∷ [])
    × IsValid r'
next-frame_example = next-frame split_frame (7 ∷ 8 ∷ []) (9 ∷ []) (omega arith) (omega arith) refl

abbrev two_bytes : List ℕ
two_bytes = 7 ∷ 8 ∷ []

-- A connection whose handler does nothing, and which is closed on an error.
abbrev all_decode : List ℕ → Bool
all_decode payload = true

abbrev ignores : List ℕ → OuterConnection → OuterConnection × Option ℕ
ignores payload c = (c, none)

abbrev closes_on_error : ConnectionError → OuterConnection → OuterConnection
closes_on_error e c = close c

quiet : (p : List ℕ) → Fits p → IsQuiet all_decode ignores closes_on_error p
quiet p fits = record {
  fits = fits;
  decoded = refl;
  same_reader = λ c. refl;
  same_raw = λ c. refl;
  same_closed = λ c. refl;
  same_payloads = λ c. refl;
  returns = λ c. refl;
}

-- Two frames and the start of a third, cut inside the frames.
abbrev cut_stream : List (List ℕ)
cut_stream = (0 ∷ 0 ∷ 0 ∷ []) ∷ (1 ∷ 7 ∷ 0 ∷ 0 ∷ []) ∷ (0 ∷ 2 ∷ 8 ∷ 9 ∷ 0 ∷ []) ∷ []

receive_all-frames_example :
    let c' = receive_all all_decode ignores closes_on_error cut_stream new_connection in
    (c'.payloads ≡ (7 ∷ []) ∷ (8 ∷ 9 ∷ []) ∷ [])
    × (content c'.reader ≡ 0 ∷ [])
    × (c'.raw ≡ false)
    × (c'.closed ≡ false)
unfolding new_connection empty_reader
receive_all-frames_example =
    receive_all-frames all_decode ignores closes_on_error new_connection
      ((7 ∷ []) ∷ (8 ∷ 9 ∷ []) ∷ []) cut_stream (0 ∷ []) (record { counted = refl; bytes = tt })
      refl refl refl (omega arith)
      (quiet (7 ∷ []) (omega arith), (quiet (8 ∷ 9 ∷ []) (omega arith), tt)) (inl (omega arith))
      refl

-- A handler that turns raw on the first message, as `awaitDataReady` does on `data-ready`.
abbrev turns_raw : List ℕ → OuterConnection → OuterConnection × Option ℕ
turns_raw payload c = (to_raw closes_on_error c, none)

receive_all_switch_example :
    let c' = receive_all all_decode turns_raw closes_on_error cut_stream new_connection in
    (c'.raw ≡ true)
    × (c'.closed ≡ false)
    × (flatten c'.delivered ++ flatten c'.raw_buffer ≡ 0 ∷ 0 ∷ 0 ∷ 2 ∷ 8 ∷ 9 ∷ 0 ∷ [])
unfolding new_connection empty_reader
receive_all_switch_example =
    receive_all_switch closes_on_error all_decode turns_raw (7 ∷ []) (omega arith) refl (λ c. refl)
      new_connection cut_stream [] (0 ∷ 0 ∷ 0 ∷ 2 ∷ 8 ∷ 9 ∷ 0 ∷ [])
      (record { counted = refl; bytes = tt }) refl refl (omega arith)
      (record { raw = refl; alive = refl; passed = refl; room = inr (refl, omega arith) }) refl
