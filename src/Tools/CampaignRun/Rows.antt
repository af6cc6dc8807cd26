-- ===== src/Tools/CampaignRun/Rows.antt =====
-- The rows and the traces of a run of core/tools/campaign-run.ts.
use crash_fuzz.Prelude.{
  ℕ, ◌≡◌, refl, sym, ap, ◌∙◌, List, [], ◌∷◌, ◌++◌, Option, none, some, append_assoc, append-nil,
  Bool-cases, ◌==◌, inl, eq→≡, inr, ==_refl,
}
use crash_fuzz.Prelude.Io.{Outcome, after_inv}
use crash_fuzz.Prelude.Text.{Text, text_eq}
use crash_fuzz.Prelude.Dict.{Dict, get, get-set}
use crash_fuzz.Campaign.{CampaignResult}
use crash_fuzz.Campaign.Sweep.{SweepRun, SweepRow}
use crash_fuzz.Tools.CampaignRun.{
  Sweeping, row_of, captured_once, traces_with, sweep_step, sweep_loop,
}
use crash_fuzz.Tools.CampaignRun.Runs.{
  Runner, Capture, shape_text, campaign_options, campaign_on_files,
}
use crash_fuzz.Tools.CampaignRun.Artifacts.{save_all}

abbrev pub swept_of : Sweeping → Outcome Sweeping → Sweeping
swept_of d (Outcome.returned a) = a
swept_of d (Outcome.thrown message) = d

-- A trace that there is stays as it is.
abbrev pub IsKeptIn : Dict Text Capture → Dict Text Capture → Type 0
IsKeptIn before1 after1 =
    (shape : Text) (capture : Capture)
    → get shape before1 ≡ some capture
    → get shape after1 ≡ some capture

abbrev capture_of : Capture → Outcome Capture → Capture
capture_of d (Outcome.returned capture) = capture
capture_of d (Outcome.thrown message) = d

module _ {W : Type 0} (runner : Runner W) (operations seed : ℕ) (workdir : Text)
    (traces : Dict Text Capture) where
  -- The row of a run: the campaign ran on the trace that `traces` has for the shape of the run, with
  -- the options of the run, and the row shows its result.
  pub record IsRowOf (r : SweepRun) (row : SweepRow) : Type 0 where
    pub used : Capture
    pub result : CampaignResult
    pub before1 : W
    pub after1 : W
    pub of_shape : get (shape_text r.shape) traces ≡ some used
    pub ran :
        campaign_on_files runner
          (campaign_options runner workdir r used seed)
          used.trace_path
          before1
        ≡ (Outcome.returned result, after1)
    pub shown : row ≡ row_of runner r result

  -- A row for each run, in the order of the runs.
  abbrev pub AreRowsOf : List SweepRun → List SweepRow → Type 0
  AreRowsOf [] [] = Unit
  AreRowsOf (r ∷ runs) (row ∷ rows) = IsRowOf r row × AreRowsOf runs rows
  AreRowsOf _ _ = ⊥

module _ {W : Type 0} (runner : Runner W) (operations seed : ℕ) (workdir : Text) where
  kept_traces :
      (shape : Text) (capture : Capture) (o : Option Capture) (traces : Dict Text Capture)
      → get shape traces ≡ o
      → IsKeptIn traces (traces_with runner o shape capture traces)
  kept_traces shape capture (some there) traces e k c h = h
  kept_traces shape capture none traces e k c h =
      get-set shape k capture traces ∙ elim (Bool-cases (shape == k)) [
        | inl same ↦ absurd (cc (e, h, ap (λ (z : Text). get z traces) (eq→≡ shape k same)))
        | inr other ↦ rw other h
      ]

  -- The trace that a run uses is the one that the shape has from then on.
  used_trace :
      (shape : Text) (capture : Capture) (o : Option Capture) (traces : Dict Text Capture)
      (s s1 : W)
      → get shape traces ≡ o
      → captured_once runner o shape operations workdir s ≡ (Outcome.returned capture, s1)
      → get shape (traces_with runner o shape capture traces) ≡ some capture
  used_trace shape capture (some there) traces s s1 e ran =
      e ∙ ap (λ (x : Outcome Capture × W). some (capture_of there x.0)) ran
  used_trace shape capture none traces s s1 e ran =
      get-set shape shape capture traces ∙ rw (==_refl shape) refl

  -- A run, where its step returns.
  step_inv :
      (r : SweepRun) (sweeping next : Sweeping) (s s' : W)
      → sweep_step runner operations seed workdir r sweeping s ≡ (Outcome.returned next, s')
      → (row : SweepRow) × IsRowOf runner operations seed workdir next.traces r row
        × (next.rows ≡ sweeping.rows ++ row ∷ [])
        × IsKeptIn sweeping.traces next.traces
  unfolding sweep_step
  step_inv r sweeping next s s' e =
      let shape = shape_text r.shape in
      let (capture, s1, e1, k1) =
        after_inv (captured_once runner (get shape sweeping.traces) shape operations workdir s) _
          next s' e in
      let options = campaign_options runner workdir r capture seed in
      let (result, s2, e2, k2) =
        after_inv (campaign_on_files runner options capture.trace_path s1) _ next s' k1 in
      let (saved, s3, e3, k3) =
        after_inv (save_all runner r options capture.trace_path result.findings s2) _ next s' k2 in
      let same = ap (λ (x : Outcome Sweeping × W). swept_of sweeping x.0) k3 in
      let traces = sym (ap Sweeping.traces same) in
      let found = get shape sweeping.traces in
      (
        row_of runner r result,
        record {
          used = capture;
          result = result;
          before1 = s1;
          after1 = s2;
          of_shape =
              ap (get shape) traces ∙ used_trace shape capture found sweeping.traces s s1 refl e1;
          ran = e2;
          shown = refl;
        },
        sym (ap Sweeping.rows same),
        λ k c h. ap (get k) traces ∙ kept_traces shape capture found sweeping.traces refl k c h,
      )

  -- A loop over the sweep that returns has one row for each run, in the order of the runs, behind the
  -- rows that there were. The row of a run shows the result of a campaign, with the options of the
  -- run, on the one trace that its shape has in the end, so runs of one shape share their trace; and
  -- a shape that had a trace before keeps it.
  pub sweep_loop-rows :
      (runs : List SweepRun) (sweeping last : Sweeping) (s s' : W)
      → sweep_loop runner operations seed workdir runs sweeping s ≡ (Outcome.returned last, s')
      → (rows : List SweepRow) × (last.rows ≡ sweeping.rows ++ rows)
        × AreRowsOf runner operations seed workdir last.traces runs rows
        × IsKeptIn sweeping.traces last.traces
  unfolding sweep_loop
  sweep_loop-rows [] sweeping last s s' e =
      let same : sweeping ≡ last = ap (λ (x : Outcome Sweeping × W). swept_of sweeping x.0) e in
      (
        [],
        sym (ap Sweeping.rows same) ∙ sym (append-nil sweeping.rows),
        tt,
        λ k c h. ap (λ (w : Sweeping). get k w.traces) (sym same) ∙ h,
      )
  sweep_loop-rows (r ∷ runs) sweeping last s s' e =
      let (next, s1, e1, k1) =
        after_inv (sweep_step runner operations seed workdir r sweeping s) _ last s' e in
      let (row, first, added, kept_here) = step_inv r sweeping next s s1 e1 in
      let (rows, all_rows, later, kept_on) = sweep_loop-rows runs next last s1 s' k1 in
      (
        row ∷ rows,
        all_rows
            ∙ ap (λ (l : List SweepRow). l ++ rows) added
            ∙ append_assoc sweeping.rows (row ∷ []) rows,
        (
          record {
            used = first.used;
            result = first.result;
            before1 = first.before1;
            after1 = first.after1;
            of_shape = kept_on (shape_text r.shape) first.used first.of_shape;
            ran = first.ran;
            shown = first.shown;
          },
          later,
        ),
        λ k c h. kept_on k c (kept_here k c h),
      )
