-- ===== src/Oracle/Reproducer/Prefix.antt =====
-- `tracePrefix` of core/src/oracle/reproducer.ts against `parseTrace` of core/src/trace/reader.ts.
use crash_fuzz.Prelude.{
  ℕ, suc, ◌-◌, ◌≡◌, refl, sym, ap, ◌∙◌, not, List, [], ◌∷◌, ◌++◌, Option, none, some, arith, take,
  filter, All, Bool-cases, inl, inr, subst, All-map, nat_beq, some-injective,
}
use crash_fuzz.Prelude.Text.{Text, split, join, is_blank}
use crash_fuzz.Prelude.Split.{Lacks, All-split, split-join_end}
use crash_fuzz.Prelude.Sort.{sort_by, IsSortedBy}
use crash_fuzz.Prelude.Sort.Laws.{sort_by_of_IsSortedBy, IsSortedBy-take}
use crash_fuzz.Trace.{TraceEvent, TraceMarker, Trace, Header}
use crash_fuzz.Trace.Reader.{
  RawRecord, Parsed, parse_lines, parse_trace, assemble, build_trace, events_of, markers_of,
  find_header, trace_version, ReadError,
}
use crash_fuzz.Oracle.Reproducer.{trace_prefix}
use crash_fuzz.Oracle.Reproducer.Kept.{IsLine, IsCut, prefix_loop-IsKept}

-- The lines that are read: those that are not blank.
abbrev pub lines_of : Text → List Text
lines_of text = filter (λ line. not (is_blank line)) (split 0x0a text)

nonblank-IsLine :
    (ls : List Text) → All (Lacks 0x0a) ls → All IsLine (filter (λ line. not (is_blank line)) ls)
nonblank-IsLine [] h = tt
nonblank-IsLine (l ∷ ls) (n, h) = elim (Bool-cases (is_blank l)) [
  | inl blank ↦ rw blank (nonblank-IsLine ls h)
  | inr full ↦ rw full ((n, full), nonblank-IsLine ls h)
]

lines_of-IsLine : (text : Text) → All IsLine (lines_of text)
lines_of-IsLine text = nonblank-IsLine (split 0x0a text) (All-split 0x0a text)

nonblank-whole :
    (ls : List Text) → All IsLine ls → filter (λ line. not (is_blank line)) (ls ++ ([] ∷ [])) ≡ ls
nonblank-whole [] h = refl
nonblank-whole (l ∷ ls) ((n, full), h) = rw full (ap (◌∷◌ l) (nonblank-whole ls h))

-- Lines that are joined, with a line end behind the last, are the lines of the text.
lines_of-join : (ls : List Text) → All IsLine ls → lines_of (join (0x0a ∷ []) ls ++ 0x0a ∷ []) ≡ ls
lines_of-join [] h = refl
lines_of-join (l ∷ ls) h =
    ap (filter (λ line. not (is_blank line)))
      (split-join_end 0x0a l ls (All-map (λ line p. p.0) (l ∷ ls) h))
    ∙ nonblank-whole (l ∷ ls) h

abbrev parsed_or : Trace → Parsed Trace → Trace
parsed_or t (Parsed.ok u) = u
parsed_or t (Parsed.err e) = t

build_trace-take :
    (n : ℕ) (o : Option Header) (es : List TraceEvent) (ms : List TraceMarker) (t : Trace)
    → IsSortedBy TraceEvent.index es
    → build_trace o es ms ≡ Parsed.ok t
    → build_trace o (take n es) ms ≡ Parsed.ok (record t { events = take n t.events })
unfolding build_trace
build_trace-take n none es ms t sorted e = absurd (cc)
build_trace-take n (some h) es ms t sorted e = elim (Bool-cases (nat_beq h.version trace_version)) [
  | inl same ↦
      let built = ap (parsed_or t) (rw same at e) in
      let order =
        sort_by_of_IsSortedBy TraceEvent.index (take n es)
          (IsSortedBy-take TraceEvent.index n es sorted)
        ∙ ap (take n) (sym (sort_by_of_IsSortedBy TraceEvent.index es sorted)) in
      rw same (
        ap
          (λ events.
            Parsed.ok
              (record { header = h; events = events; markers = sort_by TraceMarker.index ms }))
          order
        ∙ ap (λ (u : Trace). Parsed.ok (record u { events = take n u.events })) built)
  | inr other ↦ absurd (cc (rw other at e))
]

module _ (json_parse : Text → Option RawRecord) where
  parse_trace-lines :
      (text : Text) (rs : List RawRecord)
      → parse_lines json_parse (lines_of text) ≡ some rs
      → parse_trace json_parse text ≡ assemble rs
  unfolding parse_trace
  parse_trace-lines text rs read = go (parse_lines json_parse (lines_of text)) read
    where
      go :
          (o : Option (List RawRecord))
          → o ≡ some rs
          → elim o as (λ x. Parsed Trace) [
            | none ↦ Parsed.err ReadError.bad_json
            | some records ↦ assemble records
          ]
            ≡ assemble rs
      go none e = absurd (cc)
      go (some records) e = ap assemble (some-injective records rs e)

  assemble-IsCut :
      (n : ℕ) (rs rs' : List RawRecord) (t : Trace)
      → IsCut n rs rs'
      → assemble rs ≡ Parsed.ok t
      → IsSortedBy TraceEvent.index (events_of rs)
      → assemble rs' ≡ Parsed.ok (record t { events = take n t.events })
  unfolding assemble
  assemble-IsCut n rs rs' t c whole sorted =
      rw (c.header, c.events, c.markers)
        (build_trace-take n (find_header rs) (events_of rs) (markers_of rs) t sorted whole)

  -- Where the events of a trace file stand in the order of their submission stamps, the prefix that
  -- a reproducer ships is read as the same trace with the events up to the crash point alone: the
  -- header and all markers are there, those after the crash point too.
  pub trace_prefix-parse_trace :
      (crash_point : ℕ) (text : Text) (rs : List RawRecord) (t : Trace)
      → parse_lines json_parse (lines_of text) ≡ some rs
      → assemble rs ≡ Parsed.ok t
      → IsSortedBy TraceEvent.index (events_of rs)
      → (prefix' : Text) × (trace_prefix json_parse crash_point text ≡ some prefix')
        × (parse_trace json_parse prefix'
            ≡ Parsed.ok (record t { events = take (suc crash_point) t.events }))
  unfolding trace_prefix
  trace_prefix-parse_trace crash_point text rs t read whole sorted =
      let k =
        prefix_loop-IsKept json_parse crash_point (lines_of text) 0 rs read
          (lines_of-IsLine text) in
      let all_left : suc crash_point - 0 ≡ suc crash_point = omega arith in
      let back = lines_of-join k.lines_left k.lines_kept in
      (
        join (0x0a ∷ []) k.lines_left ++ 0x0a ∷ [],
        rw k.result refl,
        parse_trace-lines (join (0x0a ∷ []) k.lines_left ++ 0x0a ∷ []) k.records
              (ap (parse_lines json_parse) back ∙ k.parsed)
            ∙ assemble-IsCut (suc crash_point) rs k.records t
                (subst (λ n. IsCut n rs k.records) all_left k.cut) whole sorted,
      )
