-- ===== src/Thought/Node.antt =====
-- thought/node.go: the lines that thoughtd prints, as they are logged, and its address in
-- thought/client.go. Starting and stopping the process is left out.
use rosetta_thought.Prelude.{ℕ, Option, none, some, List, [], ◌∷◌, ◌++◌, ◌==◌, if◌then◌else◌}
use rosetta_thought.Text.{Text, codes, text_eq}
use rosetta_thought.Text.Decimal.{format_uint}

-- `LocalhostURL` of thought/client.go.
unfoldable pub localhost_url : ℕ → Text
unfolding format_uint
localhost_url rpc_port = codes "http://localhost:" ++ format_uint rpc_port

pub data Level : Type 0 where
  debug warn : Level

abbrev pub thoughtd_logger : Text
thoughtd_logger = codes "thoughtd"

abbrev pub thoughtd_std_err_logger : Text
thoughtd_std_err_logger = codes "thoughtd stderr"

-- `strings.ReplaceAll(str, "\n", "")`.
unfoldable pub without_newlines : Text → Text
without_newlines [] = []
without_newlines (c ∷ s) = let rest = without_newlines s in if c == 10 then rest else c ∷ rest

-- What `strings.SplitAfterN(message, " ", 2)` has after the first space.
unfoldable pub after_space : Text → Option Text
after_space [] = none
after_space (c ∷ s) = let rest = after_space s in if c == 32 then some s else rest

abbrev pub or_whole : Text → Option Text → Text
or_whole message none = message
or_whole message (some rest) = rest

-- The message of a line: the text up to the first space is taken to be a timestamp.
unfoldable pub log_message : Text → Text
unfolding without_newlines after_space
log_message str = let message = without_newlines str in or_whole message (after_space message)

-- The lines that are read before the pipe is closed, logged.
unfoldable pub log_pipe : Text → List Text → List (Level × Text)
unfolding log_message
log_pipe identifier [] = []
log_pipe identifier (str ∷ strs) =
    (if text_eq identifier thoughtd_logger then debug else warn, log_message str)
    ∷ log_pipe identifier strs
