-- ===== src/Simple/Shell.antt =====
-- NPShell::run and executeForkedCommand (project2/src/np_simple/src/NPShell.cpp), and the built-in commands
-- (BuildinCommand.cpp). `none` is a read past the operators, or a use of a number that was not read.
use nycu_csic30091_netw.Prelude.{
  ℕ, zero, suc, Bool, true, false, Option, none, some, List, [], ◌∷◌, ◌++◌, ◌==◌, ◌>>=◌,
  if◌then◌else◌, length, get_elem?,
}
use nycu_csic30091_netw.Prelude.Bytes.{Bytes, codes, str_eq}
use nycu_csic30091_netw.Cxx.TextMap.{TextMap, find_text, set_text}
use nycu_csic30091_netw.Shell.Pipes.Model.{Pipe}
use nycu_csic30091_netw.Shell.Run.World.{Event, printed, logged, spawned, called, waited}
use nycu_csic30091_netw.Shell.Run.Model.{first_byte, number_of, no_filename}
use nycu_csic30091_netw.Single.Run.Loop.{without_cr}
use nycu_csic30091_netw.Simple.Parser.{parse}
use nycu_csic30091_netw.Simple.Pipes.{
  PipeMode, normal_pipe, file_output, console_output, numbered_pipe, numbered_pipe_stderr,
  PipeManager, new_session, root_pipe_handler, parent_pipe_handler, child_pipe_handler,
  add_numbered_pipe,
}

-- `vars` is the environment of the process; `events` is what was done outside.
pub record World : Type 0 where
  pub manager : PipeManager
  pub vars : TextMap
  pub exit_flag : Bool
  pub events : List Event

-- The pipes that the system gives, if they are asked for.
pub record Answers : Type 0 where
  pub piped : Pipe
  pub numbered : Pipe

abbrev pub emit : List Event → World → World
emit es w = record w { events = w.events ++ es }

abbrev pub say : Bytes → World → World
say text w = emit (printed text ∷ []) w

abbrev pub session : World → World
session w = record w { manager = new_session w.manager }

pub data Builtin : Type 0 where
  exit printenv setenv : Builtin

unfoldable pub builtin_of : Bytes → Option Builtin
builtin_of c =
    if str_eq c (codes "exit")
    then some exit
    else if str_eq c (codes "printenv")
    then some printenv
    else if str_eq c (codes "setenv")
    then some setenv
    else none

unfoldable pub printenv_command : List Bytes → World → World
printenv_command [] w = w
printenv_command (n ∷ _) w = elim (find_text n w.vars) [ none ↦ w | some v ↦ say (v ++ 10 ∷ []) w ]

unfoldable pub setenv_command : List Bytes → World → World
setenv_command [] w = w
setenv_command (n ∷ []) w = record w { vars = set_text n [] w.vars }
setenv_command (n ∷ v ∷ _) w = record w { vars = set_text n v w.vars }

unfoldable pub execute_builtin : Builtin → List Bytes → World → World
execute_builtin exit args w = record w { exit_flag = true }
execute_builtin printenv args w = printenv_command args w
execute_builtin setenv args w = setenv_command args w

-- The shell waits for a program whose output goes to the user or to a file.
abbrev pub waits : PipeMode → List Event
waits console_output = waited ∷ []
waits file_output = waited ∷ []
waits _ = []

-- `fork` is tried until it succeeds.
unfoldable pub execute_forked_command :
    Answers → PipeMode → Bytes → Bytes × List Bytes → World → World
execute_forked_command a mode out_filename (command, args) w =
    let m = root_pipe_handler mode a.piped w.manager in
    let (m', calls) = parent_pipe_handler mode m in
    emit (spawned command args (child_pipe_handler mode out_filename m) ∷ called calls ∷ waits mode)
      (record w { manager = m' })

unfoldable pub run_to_file :
    Answers → Bytes × List Bytes → List (Bytes × List Bytes) → World → Option (Bool × World)
run_to_file a c [] w = some (true, say no_filename w)
run_to_file a c (f ∷ fs) w = some (true, session (execute_forked_command a file_output f.0 c w))

unfoldable pub run_numbered :
    Answers → PipeMode → Bytes → Bytes × List Bytes → World → Option (Bool × World)
run_numbered a mode op c w = do
  count ← number_of op
  let w' = record w { manager = add_numbered_pipe count a.numbered w.manager }
  some (false, session (execute_forked_command a mode [] c w'))

-- The branches of the operator behind the command; `true` where the source leaves the loop. `cs` are the
-- commands behind.
unfoldable pub run_program :
    Answers → Bytes → Bytes × List Bytes → List (Bytes × List Bytes) → World → Option (Bool × World)
run_program a op c cs w =
    if str_eq op (codes "|")
    then some (false, execute_forked_command a normal_pipe [] c w)
    else if str_eq op (codes ">")
    then run_to_file a c cs w
    else if first_byte op == b'|'
    then run_numbered a numbered_pipe op c w
    else if first_byte op == b'!'
    then run_numbered a numbered_pipe_stderr op c w
    else some (false, session (execute_forked_command a console_output [] c w))

unfoldable pub run_command :
    Answers → Bytes → Bytes × List Bytes → List (Bytes × List Bytes) → World → Option (Bool × World)
run_command a op c cs w = elim (builtin_of c.0) [
  | some b ↦ some (false, session (execute_builtin b c.1 w))
  | none ↦ run_program a op c cs w
]

-- `i != 0 ? operators[i - 1] : ""`, and `i != size ? operators[i] : ""`.
unfoldable pub prev_operator : ℕ → List Bytes → Option Bytes
prev_operator zero ops = some []
prev_operator (suc i) ops = get_elem? ops i

unfoldable pub next_operator : ℕ → List Bytes → Option Bytes
next_operator i ops = if i == length ops then some [] else get_elem? ops i

-- The loop over the commands. `os i` is what the system answers for the command with index `i`.
unfoldable pub run_commands :
    (ℕ → Answers) → List Bytes → ℕ → List (Bytes × List Bytes) → World → Option World
run_commands os ops i [] w = some w
run_commands os ops i (c ∷ cs) w = do
  previous ← prev_operator i ops
  op ← next_operator i ops
  r ← run_command (os i) op c cs w
  let rest = run_commands os ops (suc i) cs r.1
  (if r.0 then some r.1 else rest)

unfoldable pub run_line : (ℕ → Answers) → Bytes → World → Option World
run_line os raw w = do
  result ← parse (without_cr raw)
  run_commands os result.operators 0 result.commands
      (emit (logged (without_cr raw ++ 10 ∷ []) ∷ []) w)

abbrev pub symbol : Bytes
symbol = codes "% "

-- The loop over the lines of the input; `os j` is for the j-th line.
unfoldable pub run_lines : (ℕ → ℕ → Answers) → ℕ → List Bytes → World → Option World
run_lines os j [] w = some (say symbol w)
run_lines os j (raw ∷ lines) w = do
  w' ← run_line (os j) raw (say symbol w)
  let rest = run_lines os (suc j) lines w'
  (if w'.exit_flag then some w' else rest)

unfoldable pub run : (ℕ → ℕ → Answers) → List Bytes → World → Option World
run os lines w = run_lines os 0 lines (session w)
