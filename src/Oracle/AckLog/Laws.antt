-- ===== src/Oracle/AckLog/Laws.antt =====
-- `parseAckLog` of core/src/oracle/acklog.ts: one operation's record, and where its acknowledgement
-- comes from.
use mathlib.Core.List.{Memᴰ}
use crash_fuzz.Prelude.{
  ℕ, ◌≡◌, refl, ap, ◌∙◌, Bool, true, false, List, [], ◌∷◌, Option, none, some, inl, inr, All,
  Bool-cases, if◌then◌else◌, ◌==◌, subst, ==_refl, eq→≡, some-injective,
}
use crash_fuzz.Prelude.Text.{Text, codes}
use crash_fuzz.Prelude.Int.{ℤ, int_eq}
use crash_fuzz.Trace.{TraceMarker, Trace}
use crash_fuzz.Oracle.AckLog.{
  apply_marker, ack_step, ack_loop, op_of, AckedOperation, fields, field_is, fresh, acknowledge,
  or_fresh, dispatch, field_or_empty, parse_ack_log,
}
use crash_fuzz.Prelude.Dict.{Dict, get, get-set, set, values, All-values-set}
use crash_fuzz.Prelude.Sort.{IsSortedBy}
use crash_fuzz.Prelude.Sort.Laws.{sort_by-IsSortedBy, All-sort_by}

module _ (number : Text → Option ℤ) where
  -- The operation that a marker belongs to.
  abbrev pub marker_op : TraceMarker → Option ℤ
  marker_op m = op_of number (fields m.text)

  -- One operation's record under one of its markers.
  abbrev pub advance : ℤ → TraceMarker → Option AckedOperation → Option AckedOperation
  advance op m o =
      let pairs = fields m.text in
      if field_is (codes "phase") (codes "begin") pairs
      then some (fresh op pairs m.index)
      else if field_is (codes "phase") (codes "ack") pairs
      then some (acknowledge pairs m.index (or_fresh o (fresh op pairs m.index)))
      else o

  abbrev pub is_op : ℤ → Option ℤ → Bool
  is_op op none = false
  is_op op (some k) = k == op

  unfoldable pub is_marker_of : ℤ → TraceMarker → Bool
  is_marker_of op m = is_op op (marker_op m)

  -- An operation's record after its markers, the other markers left out.
  unfoldable pub life : ℤ → List TraceMarker → Option AckedOperation → Option AckedOperation
  unfolding is_marker_of
  life op [] o = o
  life op (m ∷ ms) o = life op ms (if is_marker_of op m then advance op m o else o)

  get-set_self :
      (k : ℤ) (r : AckedOperation) (operations : Dict ℤ AckedOperation)
      → get k (set k r operations) ≡ some r
  get-set_self k r operations = rw (get-set k k r operations, ==_refl k) refl

  get-set_other :
      (k op : ℤ) (r : AckedOperation) (operations : Dict ℤ AckedOperation)
      → (k == op) ≡ false
      → get op (set k r operations) ≡ get op operations
  get-set_other k op r operations h = rw (get-set k op r operations, h) refl

  get-apply_marker_self :
      (k : ℤ) (m : TraceMarker) (operations : Dict ℤ AckedOperation)
      → get k (apply_marker number k (fields m.text) m.index operations)
        ≡ advance k m (get k operations)
  unfolding apply_marker
  get-apply_marker_self k m operations =
      let pairs = fields m.text in
      elim (Bool-cases (field_is (codes "phase") (codes "begin") pairs)) [
        | inl begins ↦ rw begins (get-set_self k (fresh k pairs m.index) operations)
        | inr later ↦ elim (Bool-cases (field_is (codes "phase") (codes "ack") pairs)) [
          | inl acks ↦
              rw (later, acks)
                (get-set_self k
                  (acknowledge pairs m.index (or_fresh (get k operations) (fresh k pairs m.index)))
                  operations)
          | inr neither ↦ rw (later, neither) refl
        ]
      ]

  get-apply_marker_other :
      (k op : ℤ) (m : TraceMarker) (operations : Dict ℤ AckedOperation)
      → (k == op) ≡ false
      → get op (apply_marker number k (fields m.text) m.index operations) ≡ get op operations
  unfolding apply_marker
  get-apply_marker_other k op m operations h =
      let pairs = fields m.text in
      elim (Bool-cases (field_is (codes "phase") (codes "begin") pairs)) [
        | inl begins ↦ rw begins (get-set_other k op (fresh k pairs m.index) operations h)
        | inr later ↦ elim (Bool-cases (field_is (codes "phase") (codes "ack") pairs)) [
          | inl acks ↦
              rw (later, acks)
                (get-set_other k op
                  (acknowledge pairs m.index (or_fresh (get k operations) (fresh k pairs m.index)))
                  operations h)
          | inr neither ↦ rw (later, neither) refl
        ]
      ]

  get-apply_marker :
      (k op : ℤ) (m : TraceMarker) (operations : Dict ℤ AckedOperation)
      → get op (apply_marker number k (fields m.text) m.index operations)
        ≡ (if k == op then advance op m (get op operations) else get op operations)
  get-apply_marker k op m operations = elim (Bool-cases (k == op)) [
    | inr other ↦ rw other (get-apply_marker_other k op m operations other)
    | inl same ↦ rw same (
        subst
          (λ j.
            get j (apply_marker number k (fields m.text) m.index operations)
            ≡ advance j m (get j operations))
          (eq→≡ k op same) (get-apply_marker_self k m operations))
  ]

  get-dispatch :
      (o : Option ℤ) (op : ℤ) (m : TraceMarker) (operations : Dict ℤ AckedOperation)
      → get op (dispatch number o (fields m.text) m.index operations)
        ≡ (if is_op op o then advance op m (get op operations) else get op operations)
  unfolding dispatch
  get-dispatch none op m operations = refl
  get-dispatch (some k) op m operations = get-apply_marker k op m operations

  get-ack_step :
      (op : ℤ) (m : TraceMarker) (operations : Dict ℤ AckedOperation)
      → get op (ack_step number m operations)
        ≡ (if is_marker_of op m then advance op m (get op operations) else get op operations)
  unfolding ack_step is_marker_of
  get-ack_step op m operations = get-dispatch (marker_op m) op m operations

  -- The record that the loop holds for an operation is the one that the operation's own markers make,
  -- whatever markers of other operations stand among them.
  pub get-ack_loop :
      (op : ℤ) (ms : List TraceMarker) (operations : Dict ℤ AckedOperation)
      → get op (ack_loop number ms operations) ≡ life op ms (get op operations)
  unfolding ack_loop life
  get-ack_loop op [] operations = refl
  get-ack_loop op (m ∷ ms) operations =
      get-ack_loop op ms (ack_step number m operations)
      ∙ ap (life op ms) (get-ack_step op m operations)

  -- Where the acknowledgement of a record comes from: an ack marker of the trace.
  pub record IsAckOf (m : TraceMarker) (r : AckedOperation) (stamp : ℕ) : Type 0 where
    pub phase : field_is (codes "phase") (codes "ack") (fields m.text) ≡ true
    pub stamped : m.index ≡ stamp
    pub durable : r.durable ≡ field_is (codes "durable") (codes "1") (fields m.text)
    pub digest : r.digest ≡ field_or_empty (codes "digest") (fields m.text)

  abbrev pub IsBacked : List TraceMarker → AckedOperation → Type 0
  IsBacked ms r =
      (stamp : ℕ)
      → r.acknowledged_at ≡ some stamp
      → (m : TraceMarker) × Memᴰ m ms × IsAckOf m r stamp

  module _ (all_markers : List TraceMarker) where
    fresh-IsBacked :
        (op : ℤ) (pairs : Dict Text Text) (stamp : ℕ) → IsBacked all_markers (fresh op pairs stamp)
    fresh-IsBacked op pairs stamp at e = absurd (cc)

    apply_marker-IsBacked :
        (op : ℤ) (m : TraceMarker) (operations : Dict ℤ AckedOperation)
        → Memᴰ m all_markers
        → All (IsBacked all_markers) (values operations)
        → All
            (IsBacked all_markers)
            (values (apply_marker number op (fields m.text) m.index operations))
    unfolding apply_marker
    apply_marker-IsBacked op m operations mem h =
        let pairs = fields m.text in
        elim (Bool-cases (field_is (codes "phase") (codes "begin") pairs)) [
          | inl begins ↦ rw begins (
              All-values-set (IsBacked all_markers) op _ operations
                (fresh-IsBacked op pairs m.index) h)
          | inr later ↦ elim (Bool-cases (field_is (codes "phase") (codes "ack") pairs)) [
            | inl acks ↦
                rw (later, acks)
                  (All-values-set (IsBacked all_markers) op _ operations
                    (λ stamp e. (
                      m,
                      mem,
                      record {
                        phase = acks;
                        stamped = some-injective m.index stamp e;
                        durable = refl;
                        digest = refl;
                      },
                    ))
                    h)
            | inr neither ↦ rw (later, neither) h
          ]
        ]

    ack_step-IsBacked :
        (m : TraceMarker) (operations : Dict ℤ AckedOperation)
        → Memᴰ m all_markers
        → All (IsBacked all_markers) (values operations)
        → All (IsBacked all_markers) (values (ack_step number m operations))
    unfolding ack_step
    ack_step-IsBacked m operations mem h = go (marker_op m)
      where
        go :
            (o : Option ℤ)
            → All
                (IsBacked all_markers)
                (values (dispatch number o (fields m.text) m.index operations))
        go none = h
        go (some op) = apply_marker-IsBacked op m operations mem h

    ack_loop-IsBacked :
        (ms : List TraceMarker) (operations : Dict ℤ AckedOperation)
        → ((m : TraceMarker) → Memᴰ m ms → Memᴰ m all_markers)
        → All (IsBacked all_markers) (values operations)
        → All (IsBacked all_markers) (values (ack_loop number ms operations))
    unfolding ack_loop
    ack_loop-IsBacked [] operations sub h = h
    ack_loop-IsBacked (m ∷ ms) operations sub h =
        ack_loop-IsBacked ms (ack_step number m operations) (λ n mem. sub n (Memᴰ.tail mem))
          (ack_step-IsBacked m operations (sub m (Memᴰ.head refl)) h)

  -- The log ascends by the begin stamps, and every acknowledgement in it is that of an ack marker of
  -- the trace: its stamp, its digest and whether it was durable are the marker's.
  pub parse_ack_log-IsBacked :
      (trace : Trace)
      → IsSortedBy AckedOperation.began_at (parse_ack_log number trace)
        × All (IsBacked trace.markers) (parse_ack_log number trace)
  unfolding parse_ack_log
  parse_ack_log-IsBacked trace = (
    sort_by-IsSortedBy AckedOperation.began_at (values (ack_loop number trace.markers [])),
    All-sort_by AckedOperation.began_at (IsBacked trace.markers)
        (values (ack_loop number trace.markers []))
        (ack_loop-IsBacked trace.markers trace.markers [] (λ m mem. mem) tt),
  )
