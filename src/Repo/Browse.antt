-- ===== src/Repo/Browse.antt =====
-- internal/repo/browse.go: what the browser of a repo reads from git.
use gitmote.Common.{ℕ, Bytes}

-- TreeEntry
pub record TreeEntry : Type 0 where
  pub mode : Bytes
  pub kind : Bytes
  pub sha : Bytes
  pub size : ℕ
  pub path : Bytes
  pub name : Bytes
