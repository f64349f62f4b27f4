-- ===== src/Domain.antt =====
-- internal/domain: link.go, errors.go, submission.go, viewer.go and code.go.
pub mod Error
pub mod Link
pub mod Viewer
pub mod Code
