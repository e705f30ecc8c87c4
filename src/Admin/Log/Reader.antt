-- ===== src/Admin/Log/Reader.antt =====
-- admin/log/ports/driven/file_log_reader.py over its ILogFileSource, and the source's fields of
-- log_file_source.py. The operating system is a disk at each moment; a call takes moments.
pub mod Growth
pub mod Paging
use s1t_python_backend_templ.Base.{
  ℕ, ◌+◌, not, Bool, true, false, String, List, [], ◌∷◌, ◌++◌, Option, none, some, ◌==◌,
  if◌then◌else◌, Result, ok, err,
}
use s1t_python_backend_templ.Admin.Log.Bytes.{Bytes}
use s1t_python_backend_templ.Admin.Log.Entry.{Cursor, LogEntryVo, Values, map_lines}
use s1t_python_backend_templ.Admin.Log.Source
use s1t_python_backend_templ.Admin.Log.Source.{LogReadError, Os}

-- `none` is a call that does not end.
abbrev pub Reads : Type 0 → Type 0
Reads A = ℕ → Option (Result LogReadError A × ℕ)

abbrev pub pure : {A : Type 0} → A → Reads A
pure a t = some (ok a, t)

abbrev pub then_read :
    {A B : Type 0}
    → Option (Result LogReadError A × ℕ)
    → (A → Reads B)
    → Option (Result LogReadError B × ℕ)
then_read none f = none
then_read (some (ok a, t)) f = f a t
then_read (some (err e, t)) f = some (err e, t)

infixl 10 ◌>>=◌
abbrev pub ◌>>=◌ : {A B : Type 0} → Reads A → (A → Reads B) → Reads B
◌>>=◌ m f t = then_read (m t) f

pub record ILogFileSource : Type 0 where
  pub read_last_lines : ℕ → Reads (List String × ℕ × ℕ)
  pub read_lines_before : ℕ → ℕ → Reads (List String × ℕ)
  pub current_inode : Reads ℕ

module _ (py : Values) (source : ILogFileSource) where
  unfoldable pub read_tail : ℕ → Reads (List LogEntryVo × Cursor)
  read_tail limit = do
    (lines, offset, inode) ← source.read_last_lines limit
    pure (map_lines py lines, record { inode = inode; offset = offset })

  abbrev pub older_than : Cursor → ℕ → ℕ → Reads (List LogEntryVo × Cursor)
  older_than cursor limit live_inode = do
    (lines, offset) ← source.read_lines_before cursor.offset limit
    pure (map_lines py lines, record { inode = live_inode; offset = offset })

  unfoldable pub read_before : Cursor → ℕ → Reads (List LogEntryVo × Cursor)
  read_before cursor limit = do
    live_inode ← source.current_inode
    if cursor.inode == live_inode then older_than cursor limit live_inode else pure ([], cursor)

pub record LogFile : Type 0 where
  pub inode : ℕ
  pub content : Bytes

abbrev pub inode_of : Os LogFile → Os ℕ
inode_of (ok f) = ok f.inode
inode_of (err reason) = err reason

abbrev pub content_of : Os LogFile → Os Bytes
content_of (ok f) = ok f.content
content_of (err reason) = err reason

abbrev pub taking :
    {A : Type 0} → ℕ → Option (Result LogReadError A) → Option (Result LogReadError A × ℕ)
taking t none = none
taking t (some r) = some (r, t)

module _ (decode : Bytes → String) (path : String) (chunk_bytes : ℕ) (disk : ℕ → Os LogFile) where
  unfoldable pub log_file_source : ILogFileSource
  log_file_source = record {
    read_last_lines = λ limit t. taking (t + 2) (
        Source.read_last_lines decode path chunk_bytes limit (inode_of (disk t))
          (content_of (disk (t + 1))));
    read_lines_before = λ offset limit t.
        taking (t + 1)
          (Source.read_lines_before decode path chunk_bytes offset limit (content_of (disk t)));
    current_inode = λ t.
        taking (t + 1) (some (Source.current_inode decode path chunk_bytes (inode_of (disk t))));
  }
