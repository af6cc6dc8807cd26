-- ===== src/Campaign/Sweep.antt =====
-- core/src/campaign/sweep.ts and results.ts: the matrix of filesystems and shapes, and the table of
-- its results.
pub mod Laws
use crash_fuzz.Prelude.{ℕ, ◌+◌, List, [], ◌∷◌, ◌++◌, map, Option, none, some, flat_map, length}
use crash_fuzz.Prelude.Text.{Text, codes}
use crash_fuzz.Graph.{FilesystemModel, ext4_ordered, ext4_journal, xfs, btrfs}

pub data Filesystem : Type 0 where
  ext4 xfs_fs btrfs_fs : Filesystem

pub record SweepConfig : Type 0 where
  pub name : Text
  pub filesystem : Filesystem
  pub mount_options : Option Text
  pub model : FilesystemModel

abbrev pub sweep : List SweepConfig
sweep =
    record {
      name = codes "ext4-ordered";
      filesystem = Filesystem.ext4;
      mount_options = some (codes "data=ordered");
      model = ext4_ordered;
    }
    ∷ record {
      name = codes "ext4-journal";
      filesystem = Filesystem.ext4;
      mount_options = some (codes "data=journal");
      model = ext4_journal;
    }
    ∷ record {
      name = codes "xfs";
      filesystem = Filesystem.xfs_fs;
      mount_options = none;
      model = xfs;
    }
    ∷ record {
      name = codes "btrfs";
      filesystem = Filesystem.btrfs_fs;
      mount_options = none;
      model = btrfs;
    }
    ∷ []

pub data Shape : Type 0 where
  single large many mixed concurrent : Shape

abbrev pub shapes : List Shape
shapes = Shape.single ∷ Shape.large ∷ Shape.many ∷ Shape.mixed ∷ Shape.concurrent ∷ []

pub record SweepRun : Type 0 where
  pub config : SweepConfig
  pub shape : Shape

-- `sweepPlan`
unfoldable pub sweep_plan : List SweepRun
sweep_plan =
    flat_map (λ config. map (λ shape. record { config = config; shape = shape }) shapes) sweep

pub record SweepRow : Type 0 where
  pub config_name : Text
  pub filesystem : Text
  pub mount_options : Option Text
  pub shape : Text
  pub crash_points_tested : ℕ
  pub states_tested : ℕ
  -- `findings.length`
  pub findings : List (Text × ℕ)

abbrev pub mount_cell : Option Text → Text
mount_cell none = codes "(default)"
mount_cell (some options) = options

-- `lines.join('\n')`
abbrev pub join_lines : List Text → Text
join_lines [] = []
join_lines (l ∷ []) = l
join_lines (l ∷ m ∷ ls) = l ++ (0x0a ∷ join_lines (m ∷ ls))

abbrev pub states_total : List SweepRow → ℕ
states_total [] = 0
states_total (row ∷ rows) = row.states_tested + states_total rows

abbrev pub findings_total : List SweepRow → ℕ
findings_total [] = 0
findings_total (row ∷ rows) = length row.findings + findings_total rows

-- A number is printed by a parameter, `String(n)`.
module _ (show : ℕ → Text) where
  unfoldable pub row_line : SweepRow → Text
  row_line row =
      codes "| "
      ++ (row.filesystem
          ++ (codes " | "
              ++ (mount_cell row.mount_options
                  ++ (codes " | "
                      ++ (row.shape
                          ++ (codes " | "
                              ++ (show row.crash_points_tested
                                  ++ (codes " | "
                                      ++ (show row.states_tested
                                          ++ (codes " | "
                                              ++ (show (length row.findings)
                                                  ++ codes " |")))))))))))

  unfoldable pub total_line : ℕ → ℕ → Text
  total_line states findings =
      codes "| **total** | | | | **"
      ++ (show states ++ (codes "** | **" ++ (show findings ++ codes "** |")))

  abbrev pub table_lines : List SweepRow → List Text
  table_lines rows =
      codes "| Filesystem | Mount | Shape | Crash points | States | Findings |"
      ∷ codes "|---|---|---|---|---|---|"
      ∷ (map row_line rows ++ (total_line (states_total rows) (findings_total rows) ∷ []))

  -- `resultsTable`
  unfoldable pub results_table : List SweepRow → Text
  unfolding row_line total_line
  results_table rows = join_lines (table_lines rows)
