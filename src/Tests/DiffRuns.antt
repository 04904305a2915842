-- ===== src/Tests/DiffRuns.antt =====
-- A patch of a file of three lines, undone.
use my_pr_agent.Text.{ends_with}
use my_pr_agent.DiffParsing.{rstrip_ends}
use my_pr_agent.Prelude.{◌≡◌, refl, false, some, List, [], ◌∷◌, nat_eq, list_eq}
use my_pr_agent.Text.{Text, codes, join, starts_with}
use my_pr_agent.Text.Lines.{splitlines, splitlines_keepends}
use my_pr_agent.DiffParsing.{
  HunkLine, PatchedFile, context, insertion, removal, close_text, reconstruct_base_file,
  to_hunk_only_patch,
}
use my_pr_agent.DiffParsing.Reverse.{Section, hunks_from, reconstruct_base_file-undoes}

abbrev body : List HunkLine
body =
    record { line_type = context; value = codes "b\n" }
    ∷ record { line_type = removal; value = codes "c\n" }
    ∷ record { line_type = insertion; value = codes "C\n" }
    ∷ []

abbrev sections : List Section
sections = record { before = codes "a" ∷ []; body = body } ∷ []

abbrev end : List Text
end = codes "d" ∷ []

abbrev patched : PatchedFile
patched = record {
  is_binary_file = false;
  is_added_file = false;
  is_removed_file = false;
  is_rename = false;
  source_file = some (codes "a/x.txt");
  target_file = some (codes "b/x.txt");
  content = codes "--- a/x.txt\n+++ b/x.txt\n@@ -2,2 +2,2 @@\n b\n-c\n+C\n";
  hunks = hunks_from 0 sections;
}

abbrev head : Text
head = codes "a\nb\nC\nd\n"

reversed : reconstruct_base_file (λ text. some (patched ∷ [])) head [] ≡ codes "a\nb\nc\nd\n"
unfolding reconstruct_base_file splitlines join ends_with
reversed = refl

head_lines : splitlines head ≡ codes "a" ∷ codes "b" ∷ codes "C" ∷ codes "d" ∷ []
unfolding splitlines
head_lines = refl

reconstruct_base_file-undoes_example :
    reconstruct_base_file (λ text. some (patched ∷ [])) head []
    ≡ close_text head (codes "a" ∷ codes "b" ∷ codes "c" ∷ codes "d" ∷ [])
unfolding rstrip_ends
reconstruct_base_file-undoes_example =
    reconstruct_base_file-undoes (λ text. some (patched ∷ [])) head [] patched sections end refl
      refl head_lines

abbrev whole_patch : Text
whole_patch = codes "--- a/x\n+++ b/x\n@@ -1 +1 @@\n-a\n+b\n"

cut : to_hunk_only_patch whole_patch ≡ codes "@@ -1 +1 @@\n-a\n+b\n"
unfolding to_hunk_only_patch splitlines_keepends starts_with
cut = refl
