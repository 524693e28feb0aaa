-- ===== src/Sdk/Examples.antt =====
-- The stream of events of packages/sdk, fed with a host's frames, at fixed inputs.
use pherry.Base.{ℕ, ◌≡◌, false, List, [], ◌∷◌, ◌++◌, some, none, arith}
use pherry.Host.Session.{Session, Mirror, emit_snapshot}
use pherry.Protocol.PtyFrame.{PtyFrame}
use pherry.Protocol.PtyPayloads.{PtyOpcode, code, Size}
use pherry.Sdk.Events.{snapshot, new_stream, push}
use pherry.Sdk.Events.Settled.{values, pulls}
use pherry.Sdk.Events.Order.{Use, frame, pulled, stopped, run, made_by, values-run}
use pherry.Sdk.Events.Reassembly.{ingest_all, ingest-emit_snapshot}

abbrev output_frame : ℕ → ℕ → PtyFrame
output_frame seq byte = record {
  opcode = code PtyOpcode.output;
  stream_id = 1;
  seq = seq;
  payload = byte ∷ [];
}

abbrev two_pulls : List Use
two_pulls =
    frame (output_frame 1 65)
    ∷ pulled 1
    ∷ pulled 2
    ∷ frame (output_frame 2 66)
    ∷ frame (output_frame 3 67)
    ∷ stopped
    ∷ []

values-run_example :
    (pulls (run two_pulls new_stream).settled ++ (run two_pulls new_stream).pullers
      ≡ made_by two_pulls)
    × (values (run two_pulls new_stream).settled ++ (run two_pulls new_stream).queue
        ≡ (run two_pulls new_stream).heard)
values-run_example = values-run two_pulls

-- An emulator that keeps its size and what it read.
abbrev plain_mirror : Mirror (Size × List ℕ)
plain_mirror = record {
  blank = λ size. (size, []);
  write = λ m bytes. (m.0, m.1 ++ bytes);
  resize = λ m size. (size, m.1);
  serialize = λ m. m.1;
}

abbrev screen : Size
screen = record { cols = 80; rows = 24 }

abbrev host : Session (Size × List ℕ)
host = record {
  stream_id = 1;
  ring = record { chunks = []; max_bytes = 4; byte_length = 0 };
  mirror = (screen, 104 ∷ 105 ∷ []);
  subscribers = [];
  size = screen;
  seq = 9;
  ended = false;
  ended_seq = 0;
  disposed = false;
  last_writer = none;
  viewports = [];
  viewport_tick = 0;
  size_authority = none;
  calls = [];
  objects = 0;
}

ingest-emit_snapshot_example :
    ingest_all (emit_snapshot plain_mirror host) new_stream
    ≡ some (push (snapshot 9 screen (104 ∷ 105 ∷ [])) new_stream)
ingest-emit_snapshot_example =
    ingest-emit_snapshot plain_mirror host new_stream (omega arith) (omega arith)
