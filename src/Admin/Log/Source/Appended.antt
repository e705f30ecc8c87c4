-- ===== src/Admin/Log/Source/Appended.antt =====
-- Following the log file while whole lines are appended and the file is rotated.
use s1t_python_backend_templ.Base.{
  ℕ, zero, suc, ◌+◌, ◌-◌, ◌≤◌, ◌<◌, ◌≡◌, refl, true, false, String, List, [], ◌∷◌, ◌++◌, some, map,
  length, length-append, drop, ◌==◌, ltb, arith, ok,
}
use s1t_python_backend_templ.Admin.Log.Bytes.{Bytes, complete_lines, EndsLine}
use s1t_python_backend_templ.Admin.Log.Bytes.Lines.{all_but_last-split_nl}
use s1t_python_backend_templ.Admin.Log.Source.{line_of}
use s1t_python_backend_templ.Admin.Log.Source.Following.{Follower, Stat, Poll, read_delta, advance}

-- What happens to the file at the path between two polls.
pub data Change : Type 0 where
  append : Bytes → Change
  rename : ℕ → Bytes → Change
  truncate : Bytes → Change

pub record File : Type 0 where
  pub inode : ℕ
  pub content : Bytes

abbrev pub changed : File → Change → File
changed f (append added) = record f { content = f.content ++ added }
changed f (rename inode content) = record { inode = inode; content = content }
changed f (truncate content) = record f { content = content }

abbrev pub added_by : Change → Bytes
added_by (append added) = added
added_by (rename inode content) = content
added_by (truncate content) = content

-- Whole lines are added; a new file has another inode, a truncated one got shorter.
abbrev pub FitsFile : File → Change → Type 0
FitsFile f (append added) = EndsLine added
FitsFile f (rename inode content) = ((inode == f.inode) ≡ false) × EndsLine content
FitsFile f (truncate content) = (length content < length f.content) × EndsLine content

abbrev pub Fit : File → List Change → Type 0
Fit f [] = Unit {0}
Fit f (c ∷ cs) = FitsFile f c × Fit (changed f c) cs

abbrev pub stat_of : File → Stat
stat_of f = record { st_ino = f.inode; st_size = length f.content }

-- A poll that sees one file throughout.
abbrev pub poll_of : File → Poll
poll_of f = record {
  stat = ok (stat_of f);
  drain_stat = ok (stat_of f);
  drain_open = ok f.content;
  delta_open = ok f.content;
}

abbrev pub polls_of : File → List Change → List Poll
polls_of f [] = []
polls_of f (c ∷ cs) = poll_of (changed f c) ∷ polls_of (changed f c) cs

abbrev pub lines_added : List Change → List Bytes
lines_added [] = []
lines_added (c ∷ cs) = complete_lines (added_by c) ++ lines_added cs

abbrev pub after_changes : File → List Change → File
after_changes f [] = f
after_changes f (c ∷ cs) = after_changes (changed f c) cs

abbrev pub at_end : File → Follower
at_end f = record { inode = some f.inode; pos = length f.content; carry = [] }

pub drop-append : (xs ys : Bytes) → drop (length xs) (xs ++ ys) ≡ ys
drop-append [] ys = refl
drop-append (x ∷ xs) ys = drop-append xs ys

pub drop_past : (n : ℕ) (xs : Bytes) → length xs ≤ n → drop n xs ≡ []
drop_past zero [] h = refl
drop_past zero (x ∷ xs) h = absurd (omega arith)
drop_past (suc n) [] h = refl
drop_past (suc n) (x ∷ xs) h = drop_past n xs (omega arith)

module _ (decode : Bytes → String) where
  pub advance_lem :
      (inode : ℕ) (before added : Bytes)
      → EndsLine added
      → advance decode
          (length (before ++ added))
          (ok (before ++ added))
          (record { inode = some inode; pos = length before; carry = [] })
        ≡ (
          map (line_of decode) (complete_lines added),
          record { inode = some inode; pos = length (before ++ added); carry = [] },
        )
  unfolding advance read_delta
  advance_lem inode before [] line =
      let e : length (before ++ []) ≡ length before = omega (arith, length-append before []) in
      let no_more : ltb (length before) (length before) ≡ false = ground arith in
      rw (e, no_more) refl
  advance_lem inode before (c ∷ cs) line =
      let e : length (before ++ c ∷ cs) ≡ length before + suc (length cs) =
        length-append before (c ∷ cs) in
      let more : ltb (length before) (length before + suc (length cs)) ≡ true = ground arith in
      let whole : suc (length cs) - 0 ≡ suc (length cs) = omega arith in
      rw (e, more, drop-append before (c ∷ cs), line, whole, all_but_last-split_nl (c ∷ cs)) refl
