-- ===== src/GitlabWebhook.antt =====
-- pr_agent/servers/gitlab_webhook.py: what the server does with an event.
pub mod ChangedRanges
pub mod RunSlots
pub mod ApplyEvents
pub mod ApplyCommit
pub mod Adopt
pub mod Filters
pub mod MergeRequests
