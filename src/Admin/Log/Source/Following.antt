-- ===== src/Admin/Log/Source/Following.antt =====
-- log_file_source.py, iter_new_lines: following the file as it grows and rotates. A poll carries
-- what each call of the operating system saw in one turn of the loop.
use s1t_python_backend_templ.Base.{
  ℕ, ◌+◌, ◌-◌, Bool, false, not, ◌||◌, String, List, [], ◌∷◌, ◌++◌, Option, none, some, map, length,
  drop, ◌==◌, ltb, if◌then◌else◌, ok, err,
}
use s1t_python_backend_templ.Admin.Log.Bytes.{Bytes, split_nl, all_but_last, last_line}
use s1t_python_backend_templ.Admin.Log.Source.{Os, line_of}

pub record Follower : Type 0 where
  -- `none` stands for -1: no inode was seen yet.
  pub inode : Option ℕ
  pub pos : ℕ
  pub carry : Bytes

pub record Stat : Type 0 where
  pub st_ino : ℕ
  pub st_size : ℕ

pub record Poll : Type 0 where
  pub stat : Os Stat
  pub drain_stat : Os Stat
  pub drain_open : Os Bytes
  pub delta_open : Os Bytes

pub record Delta : Type 0 where
  pub lines : List String
  pub next_pos : ℕ
  pub rest : Bytes

abbrev pub is_inode : Option ℕ → ℕ → Bool
is_inode none st_ino = false
is_inode (some inode) st_ino = st_ino == inode

abbrev pub seen_inode : Os Stat → Option ℕ
seen_inode (err reason) = none
seen_inode (ok st) = some st.st_ino

-- _initial_follow_pos
abbrev pub initial_follow_pos : Os Stat → ℕ
initial_follow_pos (err reason) = 0
initial_follow_pos (ok st) = st.st_size

unfoldable pub start_follower : Os Stat → Os Stat → Follower
start_follower inode_stat pos_stat = record {
  inode = seen_inode inode_stat;
  pos = initial_follow_pos pos_stat;
  carry = [];
}

module _ (decode : Bytes → String) where
  -- _read_delta
  unfoldable pub read_delta : Os Bytes → ℕ → Bytes → Delta
  read_delta (err reason) pos carry = record { lines = []; next_pos = pos; rest = carry }
  read_delta (ok content) pos carry =
      let joined = carry ++ drop pos content in
      let parts = split_nl joined in
      record {
        lines = map (line_of decode) (all_but_last parts);
        next_pos = pos + (length joined - length (last_line parts));
        rest = last_line parts;
      }

  -- _read_from
  unfoldable pub read_from : Os Stat → Os Bytes → ℕ → Option ℕ → List String
  unfolding read_delta
  read_from (err reason) fh inode_pos prev_inode = []
  read_from (ok st) fh inode_pos prev_inode =
      if is_inode prev_inode st.st_ino then (read_delta fh inode_pos []).lines else []

  -- `if st.st_size > pos`
  unfoldable pub advance : ℕ → Os Bytes → Follower → List String × Follower
  unfolding read_delta
  advance st_size fh s =
      let delta = read_delta fh s.pos s.carry in
      let moved : List String × Follower =
        (delta.lines, record s { pos = delta.next_pos; carry = delta.rest }) in
      if ltb s.pos st_size then moved else ([], s)

  abbrev pub after_rotation : List String → List String × Follower → List String × Follower
  after_rotation drained (lines, s) = (drained ++ lines, s)

  abbrev pub reopened : ℕ → Follower
  reopened st_ino = record { inode = some st_ino; pos = 0; carry = [] }

  abbrev pub observe : Poll → Os Stat → Follower → List String × Follower
  observe p (err reason) s = ([], s)
  observe p (ok st) s =
      let rotated = not (is_inode s.inode st.st_ino) || ltb st.st_size s.pos in
      let drained = read_from p.drain_stat p.drain_open s.pos s.inode in
      if rotated
      then after_rotation drained (advance st.st_size p.delta_open (reopened st.st_ino))
      else advance st.st_size p.delta_open s

  -- One turn of `while True`: the lines it yields.
  unfoldable pub poll_once : Poll → Follower → List String × Follower
  poll_once p s = observe p p.stat s

  -- The lines yielded over some turns.
  unfoldable pub iter_new_lines : List Poll → Follower → List String × Follower
  iter_new_lines [] s = ([], s)
  iter_new_lines (p ∷ ps) s =
      let (lines, s') = poll_once p s in after_rotation lines (iter_new_lines ps s')
