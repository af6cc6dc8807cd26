-- ===== src/Oracle/AckLog.antt =====
-- core/src/oracle/acklog.ts: the marker channel as one record per logical operation.
-- `Number(text)` is a parameter: the operation number where the result is finite, else `none`.
pub mod Laws
use crash_fuzz.Prelude.{
  ℕ, zero, ◌+◌, suc, Bool, true, false, List, [], ◌∷◌, Option, none, some, ◌==◌, if◌then◌else◌,
  take, drop,
}
use crash_fuzz.Prelude.Int.{ℤ, int_eq}
use crash_fuzz.Prelude.Text.{Text, text_eq, codes, grow, index_of, is_space}
use crash_fuzz.Prelude.Dict.{Dict, get, set, values}
use crash_fuzz.Prelude.Sort.{sort_by}
use crash_fuzz.Trace.{TraceMarker, Trace}

pub record AckedOperation : Type 0 where
  pub op : ℤ
  pub kind : Text
  pub key : Text
  pub digest : Text
  pub began_at : ℕ
  -- `none` is null: the operation never acknowledged
  pub acknowledged_at : Option ℕ
  pub durable : Bool

-- `text.split(/\s+/)`; the flag says that the last code unit was white space
unfoldable pub split_spaces : Bool → Text → List Text
split_spaces in_run [] = [] ∷ []
split_spaces in_run (c ∷ s) = elim (is_space c) [
  | true ↦ elim in_run [ true ↦ split_spaces true s | false ↦ [] ∷ split_spaces true s ]
  | false ↦ grow c (split_spaces false s)
]

-- One round of the loop of `fields`: a token with no `=`, or with nothing before it, is skipped.
abbrev pub equals : ℕ
equals = 0x3d

abbrev pub add_token : Text → Dict Text Text → Dict Text Text
add_token token pairs = elim (index_of equals token) [
  | none ↦ pairs
  | some zero ↦ pairs
  | some (suc i) ↦ set (take (suc i) token) (drop (suc (suc i)) token) pairs
]

unfoldable pub add_tokens : List Text → Dict Text Text → Dict Text Text
add_tokens [] pairs = pairs
add_tokens (t ∷ ts) pairs = add_tokens ts (add_token t pairs)

-- `fields`
unfoldable pub fields : Text → Dict Text Text
unfolding split_spaces add_tokens
fields text = add_tokens (split_spaces false text) []

-- `pairs.get(name) ?? ''`
unfoldable pub field_or_empty : Text → Dict Text Text → Text
field_or_empty name pairs = elim (get name pairs) [ none ↦ [] | some v ↦ v ]

-- `pairs.get(name) === value`
unfoldable pub field_is : Text → Text → Dict Text Text → Bool
field_is name value pairs = elim (get name pairs) [ none ↦ false | some v ↦ v == value ]

-- The record that a begin marker makes, and an ack marker with no begin.
abbrev pub fresh : ℤ → Dict Text Text → ℕ → AckedOperation
fresh op pairs stamp = record {
  op = op;
  kind = field_or_empty (codes "kind") pairs;
  key = field_or_empty (codes "key") pairs;
  digest = [];
  began_at = stamp;
  acknowledged_at = none;
  durable = false;
}

-- What an ack marker writes into the record that is there.
abbrev pub acknowledge : Dict Text Text → ℕ → AckedOperation → AckedOperation
acknowledge pairs stamp r = record r {
  digest = field_or_empty (codes "digest") pairs;
  acknowledged_at = some stamp;
  durable = field_is (codes "durable") (codes "1") pairs;
}

abbrev pub or_fresh : Option AckedOperation → AckedOperation → AckedOperation
or_fresh none r = r
or_fresh (some existing) r = existing

module _ (number : Text → Option ℤ) where
  -- `Number(pairs.get('op'))`, where it is finite
  unfoldable pub op_of : Dict Text Text → Option ℤ
  op_of pairs = elim (get (codes "op") pairs) [ none ↦ none | some t ↦ number t ]

  -- One round of the loop of `parseAckLog`, after its guard.
  unfoldable pub apply_marker :
      ℤ → Dict Text Text → ℕ → Dict ℤ AckedOperation → Dict ℤ AckedOperation
  apply_marker op pairs stamp operations =
      if field_is (codes "phase") (codes "begin") pairs
      then set op (fresh op pairs stamp) operations
      else if field_is (codes "phase") (codes "ack") pairs
      then set op (acknowledge pairs stamp (or_fresh (get op operations) (fresh op pairs stamp)))
          operations
      else operations

  -- The guard: a marker whose number is not finite is skipped.
  unfoldable pub dispatch :
      Option ℤ → Dict Text Text → ℕ → Dict ℤ AckedOperation → Dict ℤ AckedOperation
  unfolding apply_marker field_is field_or_empty
  dispatch none pairs stamp operations = operations
  dispatch (some op) pairs stamp operations = apply_marker op pairs stamp operations

  unfoldable pub ack_step : TraceMarker → Dict ℤ AckedOperation → Dict ℤ AckedOperation
  unfolding fields dispatch op_of
  ack_step marker operations =
      let pairs = fields marker.text in dispatch (op_of pairs) pairs marker.index operations

  unfoldable pub ack_loop : List TraceMarker → Dict ℤ AckedOperation → Dict ℤ AckedOperation
  unfolding ack_step
  ack_loop [] operations = operations
  ack_loop (m ∷ ms) operations = ack_loop ms (ack_step m operations)

  unfoldable pub parse_ack_log : Trace → List AckedOperation
  unfolding ack_loop
  parse_ack_log trace = sort_by AckedOperation.began_at (values (ack_loop trace.markers []))
