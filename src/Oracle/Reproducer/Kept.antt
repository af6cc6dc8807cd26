-- ===== src/Oracle/Reproducer/Kept.antt =====
-- The lines that `tracePrefix` of core/src/oracle/reproducer.ts keeps.
use crash_fuzz.Prelude.{
  ℕ, suc, ◌-◌, ◌<◌, ◌≤◌, ◌≡◌, refl, sym, ◌∙◌, Bool, true, false, List, [], ◌∷◌, Option, some, ◌>>=◌,
  arith, ltb, take, All, Bool-cases, inl, inr, some-injective, subst, >>=-eq-some, ltb→lt, zero,
  ap₂,
}
use crash_fuzz.Prelude.Text.{Text, is_blank}
use crash_fuzz.Prelude.Split.{Lacks}
use crash_fuzz.Trace.Reader.{RawRecord, parse_lines, events_of, markers_of, find_header}
use crash_fuzz.Oracle.Reproducer.{is_event, prefix_loop}

-- A line of a text that is not blank.
abbrev pub IsLine : Text → Type 0
IsLine line = Lacks 0x0a line × (is_blank line ≡ false)

-- The records that are kept, against all of them: of the events the first `n`, and all else.
pub record IsCut (n : ℕ) (rs rs' : List RawRecord) : Type 0 where
  pub events : events_of rs' ≡ take n (events_of rs)
  pub markers : markers_of rs' ≡ markers_of rs
  pub header : find_header rs' ≡ find_header rs

IsCut-other :
    (n : ℕ) (r : RawRecord) (rs rs' : List RawRecord)
    → is_event r ≡ false
    → IsCut n rs rs'
    → IsCut n (r ∷ rs) (r ∷ rs')
unfolding events_of markers_of find_header
IsCut-other n (RawRecord.event e) rs rs' h c = absurd (cc)
IsCut-other n (RawRecord.header v pid) rs rs' h c = record {
  events = c.events;
  markers = c.markers;
  header = refl;
}
IsCut-other n (RawRecord.marker i tid text) rs rs' h c = record {
  events = c.events;
  markers = cc (c.markers);
  header = c.header;
}
IsCut-other n RawRecord.other rs rs' h c = record {
  events = c.events;
  markers = c.markers;
  header = c.header;
}

IsCut-kept :
    (n : ℕ) (r : RawRecord) (rs rs' : List RawRecord)
    → is_event r ≡ true
    → IsCut n rs rs'
    → IsCut (suc n) (r ∷ rs) (r ∷ rs')
unfolding events_of markers_of find_header
IsCut-kept n (RawRecord.event e) rs rs' h c = record {
  events = cc (c.events);
  markers = c.markers;
  header = c.header;
}
IsCut-kept n (RawRecord.header v pid) rs rs' h c = absurd (cc)
IsCut-kept n (RawRecord.marker i tid text) rs rs' h c = absurd (cc)
IsCut-kept n RawRecord.other rs rs' h c = absurd (cc)

IsCut-dropped :
    (r : RawRecord) (rs rs' : List RawRecord)
    → is_event r ≡ true
    → IsCut 0 rs rs'
    → IsCut 0 (r ∷ rs) rs'
unfolding events_of markers_of find_header
IsCut-dropped (RawRecord.event e) rs rs' h c = record {
  events = c.events;
  markers = c.markers;
  header = c.header;
}
IsCut-dropped (RawRecord.header v pid) rs rs' h c = absurd (cc)
IsCut-dropped (RawRecord.marker i tid text) rs rs' h c = absurd (cc)
IsCut-dropped RawRecord.other rs rs' h c = absurd (cc)

IsCut-nil : (n : ℕ) → IsCut n [] []
unfolding events_of
IsCut-nil zero = record { events = refl; markers = refl; header = refl }
IsCut-nil (suc n) = record { events = refl; markers = refl; header = refl }

module _ (json_parse : Text → Option RawRecord) (crash_point : ℕ) where
  -- What the loop keeps of lines that are all read.
  pub record IsKept (lines : List Text) (seen : ℕ) (rs : List RawRecord) : Type 0 where
    pub lines_left : List Text
    pub records : List RawRecord
    pub result : prefix_loop json_parse crash_point lines seen ≡ some lines_left
    pub parsed : parse_lines json_parse lines_left ≡ some records
    pub cut : IsCut (suc crash_point - seen) rs records
    pub lines_kept : All IsLine lines_left

  -- What the loop does with a line: `event` and `past` are its two tests.
  abbrev branch : Bool → Bool → Text → List Text → ℕ → Option (List Text)
  branch true true line lines seen = prefix_loop json_parse crash_point lines seen
  branch true false line lines seen =
      prefix_loop json_parse crash_point lines (suc seen) >>= λ kept. some (line ∷ kept)
  branch false past line lines seen =
      prefix_loop json_parse crash_point lines seen >>= λ kept. some (line ∷ kept)

  prefix_loop_step :
      (line : Text) (lines : List Text) (seen : ℕ) (r : RawRecord) (event past : Bool)
      → json_parse line ≡ some r
      → is_event r ≡ event
      → ltb crash_point seen ≡ past
      → prefix_loop json_parse crash_point (line ∷ lines) seen ≡ branch event past line lines seen
  unfolding prefix_loop
  prefix_loop_step line lines seen r event past e v l =
      rw e (go (is_event r) (ltb crash_point seen)) ∙ ap₂ (λ a b. branch a b line lines seen) v l
    where
      go :
          (a b : Bool)
          → elim a as (λ x. Option (List Text)) [
            | true ↦ elim b as (λ x. Option (List Text)) [
              | true ↦ prefix_loop json_parse crash_point lines seen
              | false ↦
                  prefix_loop json_parse crash_point lines (suc seen) >>= λ kept. some (line ∷ kept)
            ]
            | false ↦ prefix_loop json_parse crash_point lines seen >>= λ kept. some (line ∷ kept)
          ]
            ≡ branch a b line lines seen
      go true true = refl
      go true false = refl
      go false b = refl

  keep_line :
      (line : Text) (lines : List Text) (seen : ℕ) (r : RawRecord) (rs : List RawRecord)
      → json_parse line ≡ some r
      → IsLine line
      → is_event r ≡ true
      → seen ≤ crash_point
      → IsKept lines (suc seen) rs
      → IsKept (line ∷ lines) seen (r ∷ rs)
  unfolding prefix_loop parse_lines
  keep_line line lines seen r rs e l v room k =
      let full : ltb crash_point seen ≡ false = ground arith in
      let count : suc (suc crash_point - suc seen) ≡ suc crash_point - seen = omega arith in
      record {
        lines_left = line ∷ k.lines_left;
        records = r ∷ k.records;
        result = prefix_loop_step line lines seen r true false e v full ∙ rw k.result refl;
        parsed = rw (e, k.parsed) refl;
        cut =
            subst (λ n. IsCut n (r ∷ rs) (r ∷ k.records)) count
              (IsCut-kept (suc crash_point - suc seen) r rs k.records v k.cut);
        lines_kept = (l, k.lines_kept);
      }

  drop_line :
      (line : Text) (lines : List Text) (seen : ℕ) (r : RawRecord) (rs : List RawRecord)
      → json_parse line ≡ some r
      → is_event r ≡ true
      → crash_point < seen
      → IsKept lines seen rs
      → IsKept (line ∷ lines) seen (r ∷ rs)
  unfolding prefix_loop
  drop_line line lines seen r rs e v past k =
      let full : ltb crash_point seen ≡ true = ground arith in
      let none_left : suc crash_point - seen ≡ 0 = omega arith in
      record {
        lines_left = k.lines_left;
        records = k.records;
        result = prefix_loop_step line lines seen r true true e v full ∙ k.result;
        parsed = k.parsed;
        cut =
            subst (λ n. IsCut n (r ∷ rs) k.records) (sym none_left)
              (IsCut-dropped r rs k.records v (subst (λ n. IsCut n rs k.records) none_left k.cut));
        lines_kept = k.lines_kept;
      }

  pass_line :
      (line : Text) (lines : List Text) (seen : ℕ) (r : RawRecord) (rs : List RawRecord)
      → json_parse line ≡ some r
      → IsLine line
      → is_event r ≡ false
      → IsKept lines seen rs
      → IsKept (line ∷ lines) seen (r ∷ rs)
  unfolding prefix_loop parse_lines
  pass_line line lines seen r rs e l v k = record {
    lines_left = line ∷ k.lines_left;
    records = r ∷ k.records;
    result =
        prefix_loop_step line lines seen r false (ltb crash_point seen) e v refl ∙ rw k.result refl;
    parsed = rw (e, k.parsed) refl;
    cut = IsCut-other (suc crash_point - seen) r rs k.records v k.cut;
    lines_kept = (l, k.lines_kept);
  }

  pub prefix_loop-IsKept :
      (lines : List Text) (seen : ℕ) (rs : List RawRecord)
      → parse_lines json_parse lines ≡ some rs
      → All IsLine lines
      → IsKept lines seen rs
  unfolding prefix_loop parse_lines
  prefix_loop-IsKept [] seen rs e h = subst (IsKept [] seen) (some-injective [] rs e) (record {
    lines_left = [];
    records = [];
    result = refl;
    parsed = refl;
    cut = IsCut-nil (suc crash_point - seen);
    lines_kept = tt;
  })
  prefix_loop-IsKept (line ∷ lines) seen rs e (l, h) =
      let (r, read, more) = >>=-eq-some (json_parse line) _ e in
      let (rs0, rest, whole) = >>=-eq-some (parse_lines json_parse lines) _ more in
      let later = λ (n : ℕ). prefix_loop-IsKept lines n rs0 rest h in
      subst (IsKept (line ∷ lines) seen) (some-injective (r ∷ rs0) rs whole)
        (elim (Bool-cases (is_event r)) [
          | inr v ↦ pass_line line lines seen r rs0 read l v (later seen)
          | inl v ↦ elim (Bool-cases (ltb crash_point seen)) [
            | inl past ↦
                drop_line line lines seen r rs0 read v (ltb→lt crash_point seen past) (later seen)
            | inr room ↦ keep_line line lines seen r rs0 read l v (ground arith) (later (suc seen))
          ]
        ])
