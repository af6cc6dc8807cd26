-- ===== src/Examples/Logging.antt =====
-- The theorems on the trace reader and the acknowledgement log.
use mathlib.Core.List.{Permᴰ}
use crash_fuzz.Prelude.{ℕ, ◌≡◌, refl, List, Option, none, some, [], ◌∷◌, All, arith, ◌-◌, map}
use crash_fuzz.Prelude.Int.{ℤ, pos, int_eq}
use crash_fuzz.Prelude.Text.{Text, codes}
use crash_fuzz.Prelude.Dict.{get}
use crash_fuzz.Prelude.Sort.{IsSortedBy, sort_by}
use crash_fuzz.Trace.{CallName, TraceMarker, TraceEvent, Trace}
use crash_fuzz.Trace.Reader.{
  RawRecord, Parsed, assemble, events_of, markers_of, find_header, trace_version, to_event,
}
use crash_fuzz.Trace.Reader.Laws.{assemble_perm, assemble_ok}
use crash_fuzz.Oracle.AckLog.{AckedOperation, ack_loop, parse_ack_log}
use crash_fuzz.Oracle.AckLog.Laws.{life, get-ack_loop, IsBacked, parse_ack_log-IsBacked}

abbrev raw_write : ℕ → RawRecord
raw_write i = RawRecord.event (record {
  i = i;
  j = i;
  call = CallName.write;
  fd = pos 3;
  tid = 1;
  path = codes "/db/main";
  path2 = [];
  off = pos 0;
  len = 8;
  ret = pos 8;
  err = 0;
  dig = [];
})

abbrev header : RawRecord
header = RawRecord.header 1 7

abbrev out_of_order : List RawRecord
out_of_order = header ∷ raw_write 2 ∷ raw_write 1 ∷ []

abbrev in_order : List RawRecord
in_order = header ∷ raw_write 1 ∷ raw_write 2 ∷ []

assemble_perm_example : assemble out_of_order ≡ assemble in_order
unfolding find_header events_of markers_of to_event
assemble_perm_example =
    assemble_perm out_of_order in_order (Permᴰ.cons refl (Permᴰ.swap refl refl)) refl
      (((λ e. absurd (omega (arith, e))), tt), (tt, tt)) tt

abbrev write_event : ℕ → TraceEvent
write_event i = record {
  index = i;
  completion_index = i;
  call = CallName.write;
  fd = pos 3;
  thread_id = 1;
  path = codes "/db/main";
  path2 = [];
  offset = pos 0;
  length = 8;
  return_value = pos 8;
  errno = 0;
  digest = [];
}

abbrev two_writes : Trace
two_writes = record {
  header = record { version = 1; pid = 7 };
  events = write_event 1 ∷ write_event 2 ∷ [];
  markers = [];
}

assemble_run : assemble out_of_order ≡ Parsed.ok two_writes
unfolding assemble sort_by to_event
assemble_run = refl

assemble_ok_example :
    (find_header out_of_order ≡ some two_writes.header)
    × (1 ≡ trace_version)
    × IsSortedBy TraceEvent.index two_writes.events
    × Permᴰ two_writes.events (events_of out_of_order)
    × IsSortedBy TraceMarker.index two_writes.markers
    × Permᴰ two_writes.markers (markers_of out_of_order)
assemble_ok_example = assemble_ok out_of_order two_writes assemble_run

-- `Number` on a single digit.
abbrev digit : Text → Option ℤ
digit (c ∷ []) = some (pos (c - b'0'))
digit _ = none

abbrev marker : ℕ → Text → TraceMarker
marker i text = record { index = i; thread_id = 1; text = text }

-- Two operations whose markers are interleaved; the second never acknowledges.
abbrev interleaved : List TraceMarker
interleaved =
    marker 1 (codes "phase=begin op=1 kind=put key=a")
    ∷ marker 2 (codes "phase=begin op=2 kind=put key=b")
    ∷ marker 5 (codes "phase=ack op=1 digest=dd durable=1")
    ∷ []

abbrev marked : Trace
marked = record { header = record { version = 1; pid = 7 }; events = []; markers = interleaved }

get-ack_loop_example :
    get (pos 1) (ack_loop digit interleaved []) ≡ life digit (pos 1) interleaved none
get-ack_loop_example = get-ack_loop digit (pos 1) interleaved []

parse_run : map AckedOperation.acknowledged_at (parse_ack_log digit marked) ≡ some 5 ∷ none ∷ []
unfolding parse_ack_log sort_by
parse_run = refl

parse_ack_log-IsBacked_example :
    IsSortedBy AckedOperation.began_at (parse_ack_log digit marked)
    × All (IsBacked digit interleaved) (parse_ack_log digit marked)
parse_ack_log-IsBacked_example = parse_ack_log-IsBacked digit marked
