-- ===== src/Tests/LogWitnesses.antt =====
-- The theorems on the log viewer at concrete inputs. The file holds two lines and a part of one.
use s1t_python_backend_templ.Base.{
  ℕ, ◌+◌, ◌≡◌, refl, String, List, [], ◌∷◌, some, ok, true, All, map, arith,
}
use s1t_python_backend_templ.Shared.Json.{Json, Fields}
use s1t_python_backend_templ.Admin.Log.Bytes.{Bytes, count_nl, complete_lines, last_of_lines}
use s1t_python_backend_templ.Admin.Log.Entry.{Values}
use s1t_python_backend_templ.Admin.Log.Source.{read_last_lines, line_of}
use s1t_python_backend_templ.Admin.Log.Source.Streaming.{iter_all_lines}
use s1t_python_backend_templ.Admin.Log.Source.Following.{start_follower, iter_new_lines}
use s1t_python_backend_templ.Admin.Log.Source.Streamed.{iter_all_lines-eq}
use s1t_python_backend_templ.Admin.Log.Source.Tail.{last_page, read_last_lines-eq}
use s1t_python_backend_templ.Admin.Log.Source.Appended.{
  File, Change, append, rename, truncate, poll_of, stat_of, at_end,
}
use s1t_python_backend_templ.Admin.Log.Source.Partial.{iter_new_lines-partial}
use s1t_python_backend_templ.Admin.Log.Reader.{log_file_source}
use s1t_python_backend_templ.Admin.Log.Reader.Paging.{
  history, history-eq, growing, moments, total, entries_of,
}
use s1t_python_backend_templ.Admin.Log.Export.{export_rows}
use s1t_python_backend_templ.Admin.Log.Export.Cells.{IsPlain, export_rows-IsPlain}

-- A text of as many letters as there are bytes.
abbrev decode : Bytes → String
decode [] = ""
decode (b ∷ bs) = String.◌∷◌ "x" (decode bs)

abbrev content : Bytes
content = 97 ∷ 10 ∷ 98 ∷ 99 ∷ 10 ∷ 100 ∷ []

abbrev contents : ℕ → Bytes
contents t = content

abbrev fields : Fields
fields =
    Fields.field "event" (Json.text "=1+1") (Fields.field "user" (Json.text "ada") Fields.empty)

abbrev values : Values
values = record {
  loads = λ s. some (Json.object fields);
  str = λ j. "=1+1";
  upper = λ s. s;
  nonzero = λ s. true;
}

history-eq_example :
    history values (log_file_source decode "app.jsonl" 2 (growing 5 contents)) 1 (1 ∷ 4 ∷ []) 0
    ≡ some (
      ok (
          entries_of values decode
            (last_of_lines (1 + total (1 ∷ 4 ∷ [])) (complete_lines (contents (0 + 1))))),
      moments (1 ∷ 4 ∷ []) (0 + 2),
    )
history-eq_example =
    history-eq values decode "app.jsonl" 2 (omega arith) 5 contents (λ t. ([], refl)) 1 (1 ∷ 4 ∷ [])
      0 (omega arith) (omega arith)

read_last_lines-eq_example :
    read_last_lines decode "app.jsonl" 2 1 (ok 5) (ok content)
    ≡ some (ok ((last_page decode 1 content).0, (last_page decode 1 content).1, 5))
read_last_lines-eq_example =
    read_last_lines-eq decode "app.jsonl" 2 1 5 content (omega arith) (omega arith)

iter_all_lines-eq_example :
    iter_all_lines decode "app.jsonl" 2 (ok content)
    ≡ some (ok (map (line_of decode) (complete_lines content)))
iter_all_lines-eq_example = iter_all_lines-eq decode "app.jsonl" 2 content (omega arith)

abbrev file : File
file = record { inode = 5; content = 97 ∷ 98 ∷ 10 ∷ [] }

abbrev changes : List Change
changes = append (97 ∷ 10 ∷ []) ∷ rename 6 (98 ∷ 10 ∷ []) ∷ truncate [] ∷ []

iter_new_lines-partial_example :
    iter_new_lines decode
      (poll_of (record { inode = 5; content = 97 ∷ [] })
        ∷ poll_of (record { inode = 5; content = 97 ∷ 98 ∷ 10 ∷ [] })
        ∷ poll_of (record { inode = 5; content = 97 ∷ 98 ∷ 10 ∷ [] })
        ∷ [])
      (start_follower
        (ok (stat_of (record { inode = 5; content = [] })))
        (ok (stat_of (record { inode = 5; content = [] }))))
    ≡ (
      line_of decode (97 ∷ 97 ∷ 98 ∷ [])
          ∷ map (line_of decode) (complete_lines (97 ∷ 98 ∷ 10 ∷ [])),
      at_end (record { inode = 5; content = 97 ∷ 98 ∷ 10 ∷ [] }),
    )
unfolding count_nl
iter_new_lines-partial_example = iter_new_lines-partial decode 5 [] 97 [] refl (98 ∷ []) refl

export_rows-IsPlain_example : All (All IsPlain) (export_rows values ("{}" ∷ "{}" ∷ []))
export_rows-IsPlain_example = export_rows-IsPlain values ("{}" ∷ "{}" ∷ [])
