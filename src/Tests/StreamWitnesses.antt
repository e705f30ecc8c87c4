-- ===== src/Tests/StreamWitnesses.antt =====
-- The theorems on the video_status stream at concrete inputs.
use s1t_python_backend_templ.Base.{
  ℕ, String, List, [], ◌∷◌, ◌++◌, none, some, Result, ok, err, Exec, ◌==◌, if◌then◌else◌,
}
use s1t_python_backend_templ.Shared.Errors.{Error, port_error, invalid_transition}
use s1t_python_backend_templ.Media.StatusConsumer.{Entry, StatusFacade, StatusStream}

-- The ids acknowledged so far; video 9 cannot be moved now, and video 5 never.
abbrev mark_result : ℕ → Result Error (Unit {0})
mark_result i =
    if i == 9
    then err port_error
    else if i == 5
    then err (invalid_transition "done" "processing")
    else ok tt

abbrev mark : ℕ → Exec Error (List String) (Unit {0})
mark i w = (mark_result i, w)

abbrev facade : StatusFacade (List String)
facade = record { mark_processing = mark; mark_done = mark; mark_failed = mark }

abbrev stream : StatusStream (List String)
stream = record {
  ensure_group = λ w. (ok tt, w);
  xautoclaim = λ n w. (ok none, w);
  xreadgroup = λ n w. (ok [], w);
  xack = λ id w. (ok tt, w ++ id ∷ []);
}

abbrev entries : List Entry
entries =
    ("1-0", some (record { event_type = "video_processed"; video_id = 5 }))
    ∷ ("2-0", none)
    ∷ ("3-0", some (record { event_type = "video_processed"; video_id = 9 }))
    ∷ []
