-- ===== src/Tests/ContextRuns.antt =====
-- A hunk of a small file, extended.
use my_pr_agent.Text.{ends_with}
use my_pr_agent.Prelude.{◌≡◌, refl, true, [], ◌∷◌, List, ◌++◌, ◌⊎◌, length, arith, nat_eq, list_eq}
use my_pr_agent.Text.{Text, codes}
use my_pr_agent.Text.{join, strip}
use my_pr_agent.Text.Lines.{splitlines}
use my_pr_agent.Text.Numbers.{print}
use my_pr_agent.Patch.Header.{HunkHeader}
use my_pr_agent.Patch.Extent.{unextended}
use my_pr_agent.Patch.Context.Counts.{Counts, extended-Counts}
use my_pr_agent.Patch.Context.Kept.{Extends, extend_lines-keeps}
use my_pr_agent.Patch.Context.{
  ContextSettings, extend_patch, Around, lines_after, agreeing, context_start, extend_lines,
  extending, lines_behind,
}

abbrev settings : ContextSettings
settings = record {
  allow_dynamic_context = true;
  max_extra_lines_before_dynamic_context = 10;
  patch_extension_skip_types = codes ".md" ∷ [];
}

abbrev original : List Text
original = codes "a" ∷ codes "b" ∷ codes "c" ∷ codes "d" ∷ codes "e" ∷ codes "f" ∷ []

abbrev changed : List Text
changed = codes "a" ∷ codes "b" ∷ codes "c" ∷ codes "D" ∷ codes "e" ∷ codes "f" ∷ []

extended :
    extend_patch settings
      (codes "a\nb\nc\nd\ne\nf\n")
      (codes "@@ -3,2 +3,2 @@ foo\n c\n-d\n+D\n")
      1
      1
      (codes "x.py")
      (codes "a\nb\nc\nD\ne\nf\n")
    ≡ codes "\n@@ -2,4 +2,4 @@ foo\n b\n c\n-d\n+D\n e"
unfolding extend_patch ends_with print splitlines strip join
extended = refl

abbrev around : Around
around = record {
  file_original_lines = original;
  file_new_lines = changed;
  extra_before = 1;
  extra_after = 1;
}

abbrev hunk : HunkHeader
hunk = record { section_header = codes "foo"; size1 = 2; size2 = 2; start1 = 3; start2 = 3 }

extended-Counts_example :
    Counts
      (length (lines_after original 5 1))
      hunk
      (agreeing around hunk (context_start settings around hunk).0).0
      (agreeing around hunk (context_start settings around hunk).0).1
    ⊎ (agreeing around hunk (context_start settings around hunk).0 ≡ (unextended hunk, []))
extended-Counts_example =
    extended-Counts around hunk (omega arith) (omega arith) (omega arith) (omega arith) settings
      refl

abbrev patch_lines : List Text
patch_lines = codes "@@ -3,2 +3,2 @@ foo" ∷ codes " c" ∷ codes "-d" ∷ codes "+D" ∷ []

extend_lines-keeps_example : Extends original patch_lines (
    (extend_lines settings around patch_lines extending).extended_patch_lines
    ++ lines_behind around (extend_lines settings around patch_lines extending))
extend_lines-keeps_example = extend_lines-keeps settings around patch_lines
