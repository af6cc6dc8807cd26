-- ===== src/Tools/FtruncateVsOverwrite/Exit.antt =====
-- What the exit code of core/tools/ftruncate-vs-overwrite.ts says.
use crash_fuzz.Prelude.{
  ℕ, ◌+◌, ◌*◌, ◌<◌, ◌≡◌, ◌↔◌, refl, ap, ◌∙◌, Bool, true, false, ◌&&◌, Option, none, some, arith,
  nat_beq, if◌then◌else◌, ltb→lt, nat_beq_iff, ap₂,
}
use crash_fuzz.Prelude.Io.{Outcome, after_inv}
use crash_fuzz.Prelude.Text.{Text}
use crash_fuzz.Tools.FtruncateVsOverwrite.{
  Lab, Observation, DataMode, HeaderClassification, interpret_observation, base_len, is_new, is_old,
  run_experiment, experiment, check_writeback_assumption, writeback_wait_ms, finite_or_throw,
  clear_or_throw, dirty_expire_path, dirty_writeback_path,
}

-- The two observations that the experiment is after: the grow dropped and the overwrite kept, and on
-- the control both dropped.
abbrev pub reordered : Observation
reordered = record { file_len = base_len; header = HeaderClassification.new_header }

abbrev pub untouched : Observation
untouched = record { file_len = base_len; header = HeaderClassification.old_header }

abbrev pub exit_code : Observation → Observation → ℕ
exit_code observed control =
    let ordered = interpret_observation DataMode.ordered observed base_len in
    let journal = interpret_observation DataMode.journal control base_len in
    if ordered.reordering_observed && journal.no_reordering_confirmed then 0 else 1

abbrev code_of : Outcome ℕ → ℕ
code_of (Outcome.returned n) = n
code_of (Outcome.thrown message) = 1

is_new_inv : (h : HeaderClassification) → is_new h ≡ true → h ≡ HeaderClassification.new_header
is_new_inv HeaderClassification.new_header e = refl
is_new_inv HeaderClassification.old_header e = absurd (cc)
is_new_inv HeaderClassification.ambiguous e = absurd (cc)

is_old_inv : (h : HeaderClassification) → is_old h ≡ true → h ≡ HeaderClassification.old_header
is_old_inv HeaderClassification.new_header e = absurd (cc)
is_old_inv HeaderClassification.old_header e = refl
is_old_inv HeaderClassification.ambiguous e = absurd (cc)

observation_eq :
    (o : Observation) (n : ℕ) (h : HeaderClassification)
    → o.file_len ≡ n
    → o.header ≡ h
    → o ≡ record { file_len = n; header = h }
observation_eq o n h e f i = record { file_len = e i; header = f i }

exit_code-zero :
    (observed control : Observation)
    → exit_code observed control ≡ 0
    → (observed ≡ reordered) × (control ≡ untouched)
unfolding interpret_observation
exit_code-zero observed control e =
    let (a, b) : (nat_beq observed.file_len base_len ≡ true) × (is_new observed.header ≡ true) =
      ground arith in
    let (c, d) : (nat_beq control.file_len base_len ≡ true) × (is_old control.header ≡ true) =
      ground arith in
    (
      observation_eq observed base_len HeaderClassification.new_header
          ((nat_beq_iff observed.file_len base_len).0 a) (is_new_inv observed.header b),
      observation_eq control base_len HeaderClassification.old_header
          ((nat_beq_iff control.file_len base_len).0 c) (is_old_inv control.header d),
    )

module _ {W : Type 0} (lab : Lab W) where
  -- What the two files of the kernel's writeback settings say, and that the wait is longer than both.
  pub record IsLongEnough (s : W) : Type 0 where
    pub raw_expire : Text
    pub raw_writeback : Text
    pub expire : ℕ
    pub writeback : ℕ
    pub read_expire : (lab.read_text dirty_expire_path s).0 ≡ Outcome.returned raw_expire
    pub read_writeback :
        (lab.read_text dirty_writeback_path (lab.read_text dirty_expire_path s).1).0
        ≡ Outcome.returned raw_writeback
    pub number_expire : lab.number raw_expire ≡ some expire
    pub number_writeback : lab.number raw_writeback ≡ some writeback
    pub longer : (expire + writeback) * 10 < writeback_wait_ms

  finite_inv :
      (o : Option ℕ) (path raw : Text) (s s' : W) (n : ℕ)
      → finite_or_throw lab o path raw s ≡ (Outcome.returned n, s')
      → o ≡ some n
  finite_inv none path raw s s' n e = absurd (cc (ap (λ (x : Outcome ℕ × W). x.0) e))
  finite_inv (some m) path raw s s' n e = cc (ap (λ (x : Outcome ℕ × W). x.0) e)

  clear_inv :
      (b : Bool) (raw_expire raw_writeback : Text) (s s' : W)
      → clear_or_throw lab b raw_expire raw_writeback s ≡ (Outcome.returned tt, s')
      → b ≡ true
  clear_inv true raw_expire raw_writeback s s' e = refl
  clear_inv false raw_expire raw_writeback s s' e =
      absurd (cc (ap (λ (x : Outcome (Unit {0}) × W). x.0) e))

  check_writeback_assumption-IsLongEnough :
      (s s' : W) → check_writeback_assumption lab s ≡ (Outcome.returned tt, s') → IsLongEnough s
  unfolding check_writeback_assumption
  check_writeback_assumption-IsLongEnough s s' e =
      let (raw_expire, s1, e1, k1) = after_inv (lab.read_text dirty_expire_path s) _ tt s' e in
      let (raw_writeback, s2, e2, k2) =
        after_inv (lab.read_text dirty_writeback_path s1) _ tt s' k1 in
      let (expire, s3, e3, k3) =
        after_inv (finite_or_throw lab (lab.number raw_expire) dirty_expire_path raw_expire s2) _ tt
          s' k2 in
      let (writeback, s4, e4, k4) =
        after_inv
          (finite_or_throw lab (lab.number raw_writeback) dirty_writeback_path raw_writeback s3) _
          tt s' k3 in
      record {
        raw_expire = raw_expire;
        raw_writeback = raw_writeback;
        expire = expire;
        writeback = writeback;
        read_expire = ap (λ (x : Outcome Text × W). x.0) e1;
        read_writeback =
            ap (λ (x : Outcome Text × W). (lab.read_text dirty_writeback_path x.1).0) e1
            ∙ ap (λ (x : Outcome Text × W). x.0) e2;
        number_expire =
            finite_inv (lab.number raw_expire) dirty_expire_path raw_expire s2 s3 expire e3;
        number_writeback =
            finite_inv (lab.number raw_writeback) dirty_writeback_path raw_writeback s3 s4 writeback
              e4;
        longer =
            ltb→lt ((expire + writeback) * 10) writeback_wait_ms
              (clear_inv _ raw_expire raw_writeback s4 s' k4);
      }

  -- A run of the tool that demonstrates the reordering.
  pub record Demonstrates (s s' : W) : Type 0 where
    pub s1 : W
    pub s2 : W
    pub long_enough : IsLongEnough s
    pub passed : check_writeback_assumption lab s ≡ (Outcome.returned tt, s1)
    pub ordered : run_experiment lab DataMode.ordered s1 ≡ (Outcome.returned reordered, s2)
    pub control : run_experiment lab DataMode.journal s2 ≡ (Outcome.returned untouched, s')

  -- The tool exits with 0 exactly when the wait is longer than the kernel's two intervals together,
  -- the run on data=ordered reads the new header at the old length, and the control run on
  -- data=journal after it reads the old header at the old length: an ambiguous read or another
  -- length on either side is no demonstration.
  pub experiment_zero_iff :
      (s s' : W) → (experiment lab s ≡ (Outcome.returned 0, s')) ↔ Demonstrates s s'
  unfolding experiment interpret_observation
  experiment_zero_iff s s' = (
    λ e.
        let (done, s1, e1, k1) = after_inv (check_writeback_assumption lab s) _ 0 s' e in
        let (observed, s2, e2, k2) = after_inv (run_experiment lab DataMode.ordered s1) _ 0 s' k1 in
        let (control, s3, e3, k3) = after_inv (run_experiment lab DataMode.journal s2) _ 0 s' k2 in
        let zero_code : exit_code observed control ≡ 0 =
          ap (λ (x : Outcome ℕ × W). code_of x.0) k3 in
        let (first, second) = exit_code-zero observed control zero_code in
        let ended : s3 ≡ s' = ap (λ (x : Outcome ℕ × W). x.1) k3 in
        record {
          s1 = s1;
          s2 = s2;
          long_enough = check_writeback_assumption-IsLongEnough s s1 e1;
          passed = e1;
          ordered = e2 ∙ ap (λ o. (Outcome.returned o, s2)) first;
          control = e3 ∙ ap₂ (λ o z. (Outcome.returned o, z)) second ended;
        },
    λ d. rw (d.passed, d.ordered, d.control) refl,
  )
