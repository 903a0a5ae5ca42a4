-- ===== src/Services/Logger.antt =====
-- services/logger.go: the recorder of the status code that the access log shows.
use rosetta_thought.Prelude.{ℕ, List, [], ◌∷◌, ◌++◌}

-- The wrapped `http.ResponseWriter` by the codes that it was given.
pub record StatusRecorder : Type 0 where
  pub code : ℕ
  pub written : List ℕ

abbrev pub status_ok : ℕ
status_ok = 200

unfoldable pub new_status_recorder : StatusRecorder
new_status_recorder = record { code = status_ok; written = [] }

unfoldable pub write_header : ℕ → StatusRecorder → StatusRecorder
write_header code r = record { code = code; written = r.written ++ code ∷ [] }

-- What the middleware logs for an inner handler that writes the codes.
unfoldable pub logged_code : List ℕ → StatusRecorder → ℕ
unfolding write_header
logged_code [] r = r.code
logged_code (code ∷ codes) r = logged_code codes (write_header code r)
