-- ===== src/Graph.antt =====
-- core/src/graph/models.ts: one flag per row of the property table in docs/model.md.
use crash_fuzz.Prelude.{Bool, true, false, List, [], ◌∷◌}
use crash_fuzz.Prelude.Text.{Text, codes}

pub record FilesystemModel : Type 0 where
  pub name : Text
  pub total_order : Bool
  pub ordered_append_rename : Bool
  pub fsync_persists_dir_entry : Bool
  pub atomic_block_overwrite : Bool
  pub reorders_directory_ops : Bool

abbrev pub ext4_ordered : FilesystemModel
ext4_ordered = record {
  name = codes "ext4-ordered";
  total_order = false;
  ordered_append_rename = true;
  fsync_persists_dir_entry = true;
  atomic_block_overwrite = false;
  reorders_directory_ops = false;
}

abbrev pub ext4_journal : FilesystemModel
ext4_journal = record {
  name = codes "ext4-journal";
  total_order = true;
  ordered_append_rename = true;
  fsync_persists_dir_entry = true;
  atomic_block_overwrite = true;
  reorders_directory_ops = false;
}

abbrev pub xfs : FilesystemModel
xfs = record {
  name = codes "xfs";
  total_order = false;
  ordered_append_rename = false;
  fsync_persists_dir_entry = false;
  atomic_block_overwrite = false;
  reorders_directory_ops = false;
}

abbrev pub btrfs : FilesystemModel
btrfs = record {
  name = codes "btrfs";
  total_order = false;
  ordered_append_rename = false;
  fsync_persists_dir_entry = false;
  atomic_block_overwrite = false;
  reorders_directory_ops = true;
}

abbrev pub models : List FilesystemModel
models = ext4_ordered ∷ ext4_journal ∷ xfs ∷ btrfs ∷ []
