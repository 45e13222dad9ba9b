-- ===== src/Single/Run/Model.antt =====
-- NPShell::execute (project2/src/np_single_proc/src/NPShell.cpp). A branch gives `true` where the source
-- leaves the loop over the commands. `none` is a read through a null pointer, a use of a number that
-- was not read, or what the built-in commands give.
use nycu_csic30091_netw.Prelude.{
  ℕ, suc, Bool, true, false, Option, none, some, List, [], ◌∷◌, ◌++◌, ◌==◌, ◌>>=◌, if◌then◌else◌,
}
use nycu_csic30091_netw.Prelude.Bytes.{Bytes, codes, str_eq}
use nycu_csic30091_netw.Shell.Parser.Model.{Command, parse}
use nycu_csic30091_netw.Shell.Pipes.Model.{
  PipeMode, none_mode, normal_pipe, file_output, console_output, numbered_pipe,
  numbered_pipe_stderr, user_pipe_out, user_pipe_in, user_pipe_both,
}
use nycu_csic30091_netw.Shell.Builtin.Env.{load_env, reset_env}
use nycu_csic30091_netw.Shell.Builtin.Model.{builtin_of}
use nycu_csic30091_netw.Shell.Run.Model.{
  operator_at, first_byte, number_of, no_filename, second_mode, names_with, head_of,
}
use nycu_csic30091_netw.Single.Pipes.{add_numbered_pipe}
use nycu_csic30091_netw.Single.Run.World.{
  World, Answers, say, emit, session, with_manager, execute_forked_command, logged,
}
use nycu_csic30091_netw.Single.Run.Builtin.{execute as execute_builtin}
use nycu_csic30091_netw.Single.Run.Users.{send_to, receive_from}

abbrev pub with_number : Answers → ℕ → World → World
with_number a count w = with_manager (add_numbered_pipe count a.numbered w.shell.manager) w

-- executeForkedCommand and newSession.
abbrev pub forked : Answers → PipeMode → Command → World → World
forked a mode c w = session (execute_forked_command a mode none_mode [] c.command c.args w)

unfoldable pub run_builtin : ℕ → Command → World → Option (Bool × World)
run_builtin fd c w = execute_builtin fd c.command c.args w >>= λ r. some (false, session r.1)

unfoldable pub run_to_file : Answers → Command → Option Command → World → Option (Bool × World)
run_to_file a c none w = some (true, say no_filename w)
run_to_file a c (some f) w =
    some
      (true, session (execute_forked_command a file_output none_mode f.command c.command c.args w))

unfoldable pub run_numbered : Answers → PipeMode → Bytes → Command → World → Option (Bool × World)
run_numbered a mode op c w = do
  count ← number_of op
  some (false, forked a mode c (with_number a count w))

-- `>n` with no `<m` behind it.
unfoldable pub run_to_user : Answers → ℕ → Bytes → Bytes → Command → World → Option (Bool × World)
run_to_user a fd raw op c w = do
  to_id ← number_of op
  w1 ← send_to a fd raw to_id w
  some (true, forked a user_pipe_out c w1)

-- The last lines of the branch of `<n`: the program is run, and the session ends unless its output goes
-- to the next command.
unfoldable pub run_user_in : Answers → PipeMode → Bytes → Command → World → World
run_user_in a normal_pipe file c w =
    execute_forked_command a user_pipe_in normal_pipe file c.command c.args w
run_user_in a mode2 file c w =
    session (execute_forked_command a user_pipe_in mode2 file c.command c.args w)

unfoldable pub run_second_numbered :
    Answers → PipeMode → Bytes → Command → World → Option (Bool × World)
run_second_numbered a mode op c w = do
  count ← number_of op
  some (false, run_user_in a mode [] c (with_number a count w))

unfoldable pub run_second_file : Answers → Command → Option Command → World → Option (Bool × World)
run_second_file a c none w = some (true, say no_filename w)
run_second_file a c (some f) w = some (false, run_user_in a file_output f.command c w)

-- The second operator of `<n`, by the mode that it gives: the numbered pipe and the file name.
unfoldable pub run_mode :
    Answers → PipeMode → Bytes → Command → Option Command → World → Option (Bool × World)
run_mode a file_output op c next w = run_second_file a c next w
run_mode a numbered_pipe op c next w = run_second_numbered a numbered_pipe op c w
run_mode a numbered_pipe_stderr op c next w = run_second_numbered a numbered_pipe_stderr op c w
run_mode a mode op c next w = some (false, run_user_in a mode [] c w)

unfoldable pub run_second :
    Answers → Bytes → Command → Option Command → World → Option (Bool × World)
run_second a op c next w = run_mode a (second_mode op) op c next w

-- `<n` with no `>m` behind it.
unfoldable pub run_from_user :
    Answers → ℕ → Bytes → Bytes → Bytes → Command → Option Command → World → Option (Bool × World)
run_from_user a fd raw op op2 c next w = do
  from_id ← number_of op
  w1 ← receive_from fd raw from_id w
  run_second a op2 c next w1

-- `<n` and `>m` together, in either order.
unfoldable pub run_both :
    Answers → ℕ → Bytes → Bytes → Bytes → Command → World → Option (Bool × World)
run_both a fd raw from_op to_op c w = do
  from_id ← number_of from_op
  to_id ← number_of to_op
  w1 ← receive_from fd raw from_id w
  w2 ← send_to a fd raw to_id w1
  some (true, forked a user_pipe_both c w2)

-- The last branches of the first operator: user pipes, and the console. `next` is the command behind.
unfoldable pub run_for_user :
    Answers → ℕ → Bytes → Command → Option Command → World → Option (Bool × World)
run_for_user a fd raw c next w =
    let op = operator_at 0 c.operators in
    let op2 = operator_at 1 c.operators in
    if first_byte op == b'>'
    then (if names_with b'<' op2 then run_both a fd raw op2 op c w else run_to_user a fd raw op c w)
    else if first_byte op == b'<'
    then (if names_with b'>' op2
        then run_both a fd raw op op2 c w
        else run_from_user a fd raw op op2 c next w)
    else some (false, forked a console_output c w)

-- The branches of the first operator.
unfoldable pub run_program :
    Answers → ℕ → Bytes → Command → Option Command → World → Option (Bool × World)
run_program a fd raw c next w =
    let op = operator_at 0 c.operators in
    if str_eq op (codes "|")
    then some (false, execute_forked_command a normal_pipe none_mode [] c.command c.args w)
    else if str_eq op (codes ">")
    then run_to_file a c next w
    else if first_byte op == b'|'
    then run_numbered a numbered_pipe op c w
    else if first_byte op == b'!'
    then run_numbered a numbered_pipe_stderr op c w
    else run_for_user a fd raw c next w

-- The body of the loop.
unfoldable pub run_command :
    Answers → ℕ → Bytes → Command → Option Command → World → Option (Bool × World)
run_command a fd raw c next w = elim (builtin_of c.command) [
  | some b ↦ run_builtin fd c w
  | none ↦ run_program a fd raw c next w
]

-- The loop over the commands. `os i` is what the system answers for the command with index `i`.
unfoldable pub run_commands : (ℕ → Answers) → ℕ → Bytes → ℕ → List Command → World → Option World
run_commands os fd raw i [] w = some w
run_commands os fd raw i (c ∷ cs) w = do
  r ← run_command (os i) fd raw c (head_of cs) w
  let rest = run_commands os fd raw (suc i) cs r.1
  (if r.0 then some r.1 else rest)

abbrev pub loaded : Bytes → World → World
loaded raw w =
    emit (logged (raw ++ 10 ∷ []) ∷ []) (record w { vars = load_env w.shell.env_map w.vars })

unfoldable pub execute : (ℕ → Answers) → ℕ → Bytes → World → Option World
execute os fd raw w = do
  commands ← parse raw
  w' ← run_commands os fd raw 0 commands (loaded raw w)
  some (record w' { vars = reset_env w'.shell.env_map w'.vars })
