-- ===== src/Trace/Reader/Laws.antt =====
-- `parseTrace` of core/src/trace/reader.ts: what becomes of the records of several segments.
use mathlib.Core.List.{Permᴰ}
use crash_fuzz.Prelude.{◌≡◌, refl, ap, ◌∙◌, List, Option, none, some, arith, filter_map-perm}
use crash_fuzz.Prelude.Sort.{sort_by, IsSortedBy}
use crash_fuzz.Prelude.Sort.Laws.{sort_by-IsSortedBy, sort_by-perm}
use crash_fuzz.Prelude.Sort.Unique.{HasDistinctKeys, sort_by_perm}
use crash_fuzz.Trace.{TraceEvent, TraceMarker, Header, Trace}
use crash_fuzz.Trace.Reader.{
  RawRecord, Parsed, events_of, markers_of, find_header, build_trace, assemble, as_event, as_marker,
  trace_version,
}

build_trace-sort :
    (o : Option Header) (es es' : List TraceEvent) (ms ms' : List TraceMarker)
    → sort_by TraceEvent.index es ≡ sort_by TraceEvent.index es'
    → sort_by TraceMarker.index ms ≡ sort_by TraceMarker.index ms'
    → build_trace o es ms ≡ build_trace o es' ms'
unfolding build_trace
build_trace-sort none es es' ms ms' p q = refl
build_trace-sort (some h) es es' ms ms' p q = ground arith

build_trace_ok :
    (o : Option Header) (es : List TraceEvent) (ms : List TraceMarker) (t : Trace)
    → build_trace o es ms ≡ Parsed.ok t
    → (o ≡ some t.header)
      × (t.header.version ≡ trace_version)
      × (t.events ≡ sort_by TraceEvent.index es)
      × (t.markers ≡ sort_by TraceMarker.index ms)
unfolding build_trace
build_trace_ok none es ms t e = cc
build_trace_ok (some h) es ms t e = ground arith

-- Records of several segments that arrive in another order give the same trace, if the stamps of the
-- events and those of the markers are all different and the first header is the same.
pub assemble_perm :
    (rs rs' : List RawRecord)
    → Permᴰ rs rs'
    → find_header rs ≡ find_header rs'
    → HasDistinctKeys TraceEvent.index (events_of rs)
    → HasDistinctKeys TraceMarker.index (markers_of rs)
    → assemble rs ≡ assemble rs'
unfolding assemble events_of markers_of
assemble_perm rs rs' d h de dm =
    ap (λ o. build_trace o (events_of rs) (markers_of rs)) h
    ∙ build_trace-sort (find_header rs') (events_of rs) (events_of rs') (markers_of rs)
        (markers_of rs') (sort_by_perm TraceEvent.index (filter_map-perm as_event d) de)
        (sort_by_perm TraceMarker.index (filter_map-perm as_marker d) dm)

-- A trace that the reader returns has version 1, its events and markers ascend by their stamps, and
-- they are the event and marker records of the text, each as often.
pub assemble_ok :
    (rs : List RawRecord) (t : Trace)
    → assemble rs ≡ Parsed.ok t
    → (find_header rs ≡ some t.header)
      × (t.header.version ≡ trace_version)
      × IsSortedBy TraceEvent.index t.events
      × Permᴰ t.events (events_of rs)
      × IsSortedBy TraceMarker.index t.markers
      × Permᴰ t.markers (markers_of rs)
unfolding assemble
assemble_ok rs t h =
    let (header, version, events, markers) = build_trace_ok _ _ _ t h in
    (
      header,
      version,
      rw events (sort_by-IsSortedBy _ (events_of rs)),
      rw events (sort_by-perm _ (events_of rs)),
      rw markers (sort_by-IsSortedBy _ (markers_of rs)),
      rw markers (sort_by-perm _ (markers_of rs)),
    )
