-- ===== src/Lib.antt =====
-- PR-Agent: the parts that decide what a model is shown of a pull request and which webhook events
-- are run.
--
-- A server receives webhooks; a tool then asks a model about the diff of a pull request and posts
-- the answer. The parts modelled here, and the files that model them (paths from the root of the
-- repository):
--
-- - Coordinator: pr_agent/servers/apply_pipeline_coordinator.py, whose class keeps claims of
--   commits, the running job of each merge request and the job that waits behind it. `enqueue` and
--   `complete` take the state and return the new one; the lock of the class makes each call one
--   step. The clock is a number of ticks and an argument. Coordinator.Workers adds the tasks of
--   `_drain_apply_pipeline` in pr_agent/servers/gitlab_webhook.py as a step relation; the end of a
--   run stands for success and failure alike.
-- - Patch: pr_agent/algo/git_patch_processing.py and pr_agent/algo/types.py. Patch.Header is the
--   regular expression of hunk headers, Patch.Deletions is `omit_deletion_hunks` and
--   `handle_patch_deletions`, Patch.Numbered is `decouple_and_convert_to_hunks_with_lines_numbers`
--   and Patch.Selection is `extract_hunk_lines_from_patch`. Patch.Context is `extend_patch` with
--   `process_patch_lines`, its numbers in Patch.Extent, where a size is a difference of two
--   numbers. A loop over lines is a recursion over the list of lines with the loop's variables in
--   a record; `none` is an exception.
-- - Pruning: pr_agent/algo/pr_processing.py. Pruning.Packing is `generate_full_patch`,
--   Pruning.Compressed is `pr_generate_compressed_diff`, Pruning.Limits has the limits. The
--   tokenizer is a library and the field `count_tokens` of `TokenHandler`, any function from texts
--   to numbers; settings are arguments. The packing calls the definitions of Patch. Pruning.Clip
--   is `clip_tokens` of pr_agent/algo/utils.py, whose rounding in floating point is an argument,
--   Pruning.MultiDiffs the loop of `get_pr_multi_diffs`, and Pruning.Fallback
--   `retry_with_fallback_models`, where the call of a model is an argument that gives a result or
--   fails. Pruning.Extended is `pr_generate_extended_diff`, Pruning.Assembly `get_pr_diff`.
-- - DiffParsing: pr_agent/git_providers/diff_parsing.py. The parser unidiff is an argument.
-- - Languages: pr_agent/algo/language_handler.py. CliArgs: pr_agent/algo/cli_args.py.
--   FileFilter: pr_agent/algo/file_filter.py. RuleCoverage: pr_agent/algo/improve_coverage.py.
--   Patch.Position: `find_line_number_of_relevant_line_in_file` of pr_agent/algo/utils.py.
--   Settings: values of the configuration.
-- - SuggestionMatcher: pr_agent/servers/gitlab_suggestion_matcher.py. The opcodes of difflib are an
--   argument; SuggestionMatcher.Regions has what is read off them, SuggestionMatcher.Candidates
--   `find_applied_suggestion_candidates` with its cache of compared files.
-- - GitlabWebhook: pr_agent/servers/gitlab_webhook.py. GitlabWebhook.ApplyEvents finds the Apply
--   commits of an event, GitlabWebhook.ApplyCommit the suggestions that a commit marks, with GitLab
--   and the store as a record of arguments; it calls SuggestionMatcher and
--   GitlabWebhook.ChangedRanges, the lines that a diff changes. GitlabWebhook.RunSlots has the slot
--   and the cooldown of `_perform_commands_gitlab` as a step relation, by the key of an event, GitlabWebhook.Adopt is the
--   reply `/adopt`, GitlabWebhook.Filters the tests on senders and merge requests, and
--   GitlabWebhook.MergeRequests the branches of the handler for a merge request event, as the list
--   of what they do. An event is a record of the fields that are read.
-- - CodeSuggestions: pr_agent/tools/pr_code_suggestions.py. CodeSuggestions.Predicted is
--   `_prepare_pr_code_suggestions` with the guard against truncated bodies, and its child Reflection
--   the scores of the reflection and the threshold. CodeSuggestions has the groups of
--   `_dedup_same_round_suggestions`, CodeSuggestions.Suppress `_suppress_resolved_suggestions` over
--   the rows of the store, CodeSuggestions.Posting their composition. Hashes, the order of texts and
--   the pattern of rule keys are arguments; YAML is read before, to records with what is there.
-- - PushTriggers: `handle_push_trigger_for_new_commits` in pr_agent/servers/github_app.py, whose tasks
--   are a step relation on the numbers of tasks in each place, with the ends of lifetimes as steps. TimeoutDict: `DefaultDictWithTimeout`
--   of pr_agent/servers/utils.py, with the time of a call as an argument and a `KeyError` as a result.
-- - Text: Python's `str` as a list of code points, with the methods that the program calls. Dict:
--   Python's `dict` in insertion order.
--
-- Integers are natural numbers. Where the source has -1, an `Option` has `none`; where it subtracts
-- a threshold, the model adds it on the other side. No fuel is used but in `print`, where the
-- number plus one is more than its digits.
--
-- Not modelled: logging, the network and the services behind it, prompts and answers of models, and
-- cancellation of tasks.
pub mod CliArgs
pub mod CodeSuggestions
pub mod Coordinator
pub mod Dict
pub mod DiffParsing
pub mod FileFilter
pub mod GitlabWebhook
pub mod Languages
pub mod Patch
pub mod Prelude
pub mod Pruning
pub mod PushTriggers
pub mod RuleCoverage
pub mod Settings
pub mod SuggestionMatcher
pub mod Tests
pub mod Text
pub mod TimeoutDict
