-- ===== src/Tests.antt =====
-- Runs of the theorems, and of the definitions, at concrete inputs.
mod TwoCommits
mod Kinds
mod Repository
mod TagFacts
mod StoreRuns
mod VersionRuns
mod KeyRuns
mod RestoreRuns
mod UndoRuns
mod AnalyzeRuns
