-- ===== src/Github.antt =====
-- frontend/src/lib/github: the documents of proposals on GitHub, from the URL that a proposal names to
-- the summary that is shown.
pub mod Platform
pub mod FileName
pub mod Url
pub mod Validate
pub mod OnChain
pub mod Frontmatter
pub mod Markdown
pub mod Heading
pub mod PickFile
pub mod Api
pub mod Document
