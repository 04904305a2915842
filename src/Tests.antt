-- ===== src/Tests.antt =====
-- Tests of the definitions, and the theorems at concrete inputs.
mod Matching
mod SuggestionRuns
mod WebhookRuns
mod SlotRuns
mod PostRuns
mod PushRuns
mod TimeoutRuns
mod CoordinatorRuns
mod PatchRuns
mod ContextRuns
mod PruningRuns
mod MultiRuns
mod DiffRuns
mod LanguageRuns
mod CliRuns
mod CoverageRuns
mod PositionRuns
mod FilterRuns
mod AssemblyRuns
mod FallbackRuns
