-- ===== src/Oracle/Reproducer/Replace.antt =====
-- The replacement strings of README.md in core/src/oracle/reproducer.ts: `replace` reads `$` in them.
use crash_fuzz.Prelude.{
  ℕ, ◌≡◌, refl, ap, ◌∙◌, Bool, true, false, [], ◌∷◌, ◌++◌, arith, length, drop, nat_beq,
}
use crash_fuzz.Prelude.Text.{Text, codes, starts_with}
use crash_fuzz.Prelude.Split.{Lacks}
use crash_fuzz.Campaign.Sweep.{Filesystem}
use crash_fuzz.Oracle.Reproducer.{
  Dollar, dollar_of, expand, replace_first, replace_string, readme_md, filesystem_text,
}
use crash_fuzz.Oracle.Reproducer.Templates.{readme}

dollar_of-plain : (c d : ℕ) → nat_beq c 0x24 ≡ false → dollar_of c d ≡ Dollar.plain
unfolding dollar_of
dollar_of-plain c d h = ground arith

expand_plain :
    (found front rest : Text) (c d : ℕ) (s : Text)
    → dollar_of c d ≡ Dollar.plain
    → expand found front rest (c ∷ d ∷ s) ≡ c ∷ expand found front rest (d ∷ s)
unfolding expand
expand_plain found front rest c d s h = go (dollar_of c d) h
  where
    go :
        (k : Dollar)
        → k ≡ Dollar.plain
        → elim k as (λ x. Text) [
          | Dollar.dollar ↦ 0x24 ∷ expand found front rest s
          | Dollar.matched ↦ found ++ expand found front rest s
          | Dollar.before ↦ front ++ expand found front rest s
          | Dollar.behind ↦ rest ++ expand found front rest s
          | Dollar.plain ↦ c ∷ expand found front rest (d ∷ s)
        ]
          ≡ c ∷ expand found front rest (d ∷ s)
    go Dollar.dollar e = absurd (cc)
    go Dollar.matched e = absurd (cc)
    go Dollar.before e = absurd (cc)
    go Dollar.behind e = absurd (cc)
    go Dollar.plain e = refl

expand-Lacks :
    (found front rest value : Text) → Lacks 0x24 value → expand found front rest value ≡ value
unfolding expand
expand-Lacks found front rest [] h = refl
expand-Lacks found front rest (c ∷ []) h = refl
expand-Lacks found front rest (c ∷ d ∷ s) (p, h) =
    expand_plain found front rest c d s (dollar_of-plain c d p)
    ∙ ap (◌∷◌ c) (expand-Lacks found front rest (d ∷ s) h)

replace_string-replace_first :
    (pattern' value front s : Text)
    → Lacks 0x24 value
    → replace_string pattern' value front s ≡ replace_first pattern' value s
unfolding replace_string replace_first
replace_string-replace_first pattern' value front [] h = refl
replace_string-replace_first pattern' value front (c ∷ s) h =
    go (starts_with pattern' (c ∷ s))
      (replace_string-replace_first pattern' value (front ++ c ∷ []) s h)
  where
    go :
        (b : Bool)
        → replace_string pattern' value (front ++ c ∷ []) s ≡ replace_first pattern' value s
        → elim b as (λ x. Text) [
          | true ↦
              let rest = drop (length pattern') (c ∷ s) in expand pattern' front rest value ++ rest
          | false ↦ c ∷ replace_string pattern' value (front ++ c ∷ []) s
        ]
          ≡ elim b as (λ x. Text) [
            | true ↦ value ++ drop (length pattern') (c ∷ s)
            | false ↦ c ∷ replace_first pattern' value s
          ]
    go true later =
        let rest = drop (length pattern') (c ∷ s) in
        ap (λ (t : Text). t ++ rest) (expand-Lacks pattern' front rest value h)
    go false later = ap (◌∷◌ c) later

filesystem_text-Lacks : (filesystem : Filesystem) → Lacks 0x24 (filesystem_text filesystem)
filesystem_text-Lacks Filesystem.ext4 = (refl, (refl, (refl, (refl, tt))))
filesystem_text-Lacks Filesystem.xfs_fs = (refl, (refl, (refl, tt)))
filesystem_text-Lacks Filesystem.btrfs_fs = (refl, (refl, (refl, (refl, (refl, tt)))))

-- A claim with no `$` in it stands in README.md word for word: the text is the template with the
-- name of the filesystem and the claim in place of the first occurrence of each placeholder.
pub readme_md-replace_first :
    (filesystem : Filesystem) (claim : Text)
    → Lacks 0x24 claim
    → readme_md filesystem claim
      ≡ replace_first
          (codes "__CLAIM__")
          claim
          (replace_first (codes "__FILESYSTEM__") (filesystem_text filesystem) readme)
unfolding readme_md
readme_md-replace_first filesystem claim h =
    replace_string-replace_first (codes "__CLAIM__") claim []
      (replace_string (codes "__FILESYSTEM__") (filesystem_text filesystem) [] readme) h
    ∙ ap (replace_first (codes "__CLAIM__") claim) (
        replace_string-replace_first (codes "__FILESYSTEM__") (filesystem_text filesystem) [] readme
          (filesystem_text-Lacks filesystem))
