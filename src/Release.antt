-- ===== src/Release.antt =====
-- hack/tools/release/notes.go: the release notes from the merge commits since the last tag.
pub mod Commits
pub mod Notes
pub mod Run
pub mod Panics
pub mod Log
pub mod Printed
