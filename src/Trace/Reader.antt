-- ===== src/Trace/Reader.antt =====
-- core/src/trace/reader.ts: `toEvent` and `parseTrace`. `JSON.parse` is a parameter that gives a
-- line's record, or `none` where it throws.
pub mod Laws
use crash_fuzz.Prelude.{
  ℕ, Bool, true, false, not, List, [], ◌∷◌, map, Option, none, some, arith, filter, filter_map,
  nat_beq, ◌>>=◌, if◌then◌else◌,
}
use crash_fuzz.Prelude.Int.{ℤ}
use crash_fuzz.Prelude.Text.{Text, split, is_blank}
use crash_fuzz.Prelude.Sort.{sort_by}
use crash_fuzz.Trace.{CallName, TraceEvent, TraceMarker, Header, Trace}

abbrev pub trace_version : ℕ
trace_version = 1

-- The fields of an event record, under the names that the shim writes.
pub record RawEvent : Type 0 where
  pub i : ℕ
  pub j : ℕ
  pub call : CallName
  pub fd : ℤ
  pub tid : ℕ
  pub path : Text
  pub path2 : Text
  pub off : ℤ
  pub len : ℕ
  pub ret : ℤ
  pub err : ℕ
  pub dig : Text

-- A parsed line, by its field `rec`.
pub data RawRecord : Type 0 where
  header : (v pid : ℕ) → RawRecord
  event : RawEvent → RawRecord
  marker : (i tid : ℕ) → Text → RawRecord
  other : RawRecord

pub data ReadError : Type 0 where
  bad_json no_header : ReadError
  unsupported_version : ℕ → ReadError

pub data Parsed (A : Type 0) : Type 0 where
  ok : A → Parsed A
  err : ReadError → Parsed A

unfoldable pub to_event : RawEvent → TraceEvent
to_event r = record {
  index = r.i;
  completion_index = r.j;
  call = r.call;
  fd = r.fd;
  thread_id = r.tid;
  path = r.path;
  path2 = r.path2;
  offset = r.off;
  length = r.len;
  return_value = r.ret;
  errno = r.err;
  digest = r.dig;
}

-- `.filter((r) => r.rec === 'event').map(toEvent)` is `filter_map as_event`.
abbrev pub as_event : RawRecord → Option TraceEvent
as_event (RawRecord.event r) = some (to_event r)
as_event _ = none

unfoldable pub events_of : List RawRecord → List TraceEvent
events_of = filter_map as_event

-- Likewise for the markers.
abbrev pub as_marker : RawRecord → Option TraceMarker
as_marker (RawRecord.marker i tid text) = some (record { index = i; thread_id = tid; text = text })
as_marker _ = none

unfoldable pub markers_of : List RawRecord → List TraceMarker
markers_of = filter_map as_marker

-- `records.find((r) => r.rec === 'header')`
unfoldable pub find_header : List RawRecord → Option Header
find_header [] = none
find_header (RawRecord.header v pid ∷ _) = some (record { version = v; pid = pid })
find_header (_ ∷ rs) = find_header rs

-- The checks of the header, and the sorts.
unfoldable pub build_trace : Option Header → List TraceEvent → List TraceMarker → Parsed Trace
build_trace none events markers = Parsed.err ReadError.no_header
build_trace (some h) events markers =
    if nat_beq h.version trace_version
    then Parsed.ok (record {
      header = h;
      events = sort_by TraceEvent.index events;
      markers = sort_by TraceMarker.index markers;
    })
    else Parsed.err (ReadError.unsupported_version h.version)

unfoldable pub assemble : List RawRecord → Parsed Trace
unfolding events_of markers_of find_header build_trace
assemble records = build_trace (find_header records) (events_of records) (markers_of records)

module _ (json_parse : Text → Option RawRecord) where
  unfoldable pub parse_lines : List Text → Option (List RawRecord)
  parse_lines [] = some []
  parse_lines (l ∷ ls) = do r ← json_parse l; rs ← parse_lines ls; some (r ∷ rs)

  unfoldable pub parse_trace : Text → Parsed Trace
  unfolding parse_lines assemble
  parse_trace text = elim (parse_lines (filter (λ l. not (is_blank l)) (split 10 text))) [
    | none ↦ Parsed.err ReadError.bad_json
    | some records ↦ assemble records
  ]
