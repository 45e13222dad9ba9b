-- ===== src/Shell/Run/Model.antt =====
-- NPShell::execute. A branch gives `true` where the source leaves the loop over the commands. `none` is
-- what the managers give, a caller without a user, or a message to the process -1 of no user.
use nycu_csic30091_netw.Prelude.{
  ℕ, zero, suc, Bool, true, false, not, ◌&&◌, Option, none, some, List, [], ◌∷◌, ◌++◌, ◌==◌, ◌>>=◌,
  if◌then◌else◌,
}
use nycu_csic30091_netw.Prelude.Bytes.{Bytes, codes, str_eq}
use nycu_csic30091_netw.Cxx.Decimal.{read_number}
use nycu_csic30091_netw.Shell.Parser.Model.{Command, parse}
use nycu_csic30091_netw.Shell.Users.Model.{get_user_by_id, get_user_by_pid}
use nycu_csic30091_netw.Shell.Pipes.Model.{
  PipeMode, none_mode, normal_pipe, file_output, console_output, numbered_pipe,
  numbered_pipe_stderr, user_pipe_out, user_pipe_in, user_pipe_both, add_numbered_pipe,
}
use nycu_csic30091_netw.Shell.Builtin.Env.{load_env, reset_env}
use nycu_csic30091_netw.Shell.Builtin.Model.{builtin_of, execute as execute_builtin}
use nycu_csic30091_netw.Shell.Run.World.{
  World, Answers, say, emit, session, execute_forked_command, logged,
}
use nycu_csic30091_netw.Shell.Run.Users.{send_to, receive_from, pipe_message, post}

-- The operator with an index, or the empty text.
unfoldable pub operator_at : ℕ → List Bytes → Bytes
operator_at i [] = []
operator_at zero (o ∷ os) = o
operator_at (suc i) (o ∷ os) = operator_at i os

-- `op[0]`, which is 0 for the empty text.
unfoldable pub first_byte : Bytes → ℕ
first_byte [] = 0
first_byte (c ∷ s) = c

-- `sscanf` of the number behind the first byte; `none` leaves the variable unset.
unfoldable pub number_of : Bytes → Option ℕ
number_of [] = none
number_of (c ∷ s) = read_number s

abbrev pub no_filename : Bytes
no_filename = codes "Error! Filename cannot be empty.\n"

abbrev pub with_number : Answers → ℕ → World → World
with_number a count w = record w { manager = add_numbered_pipe count a.numbered w.manager }

unfoldable pub run_builtin : ℕ → Command → World → Option (Bool × World)
run_builtin pid c w = do
  o ←
      execute_builtin w.vars pid c.command c.args
        (record { shared = w.shared; env_map = w.env_map; exit_flag = w.exit_flag })
  let w' = record w {
    shared = o.context.shared;
    env_map = o.context.env_map;
    exit_flag = o.context.exit_flag;
  }
  some (false, session (say o.output w'))

unfoldable pub run_to_file : Answers → Command → Option Command → World → Option (Bool × World)
run_to_file a c none w = some (true, say no_filename w)
run_to_file a c (some f) w =
    some
      (true, session (execute_forked_command a file_output none_mode f.command c.command c.args w))

unfoldable pub run_numbered : Answers → PipeMode → Bytes → Command → World → Option (Bool × World)
run_numbered a mode op c w = do
  count ← number_of op
  some (
    false,
    session (execute_forked_command a mode none_mode [] c.command c.args (with_number a count w)),
  )

-- `>n` with no `<m` behind it.
unfoldable pub run_to_user : Answers → ℕ → Bytes → Bytes → Command → World → Option (Bool × World)
run_to_user a pid raw op c w = do
  to_id ← number_of op
  me ← get_user_by_pid pid w.shared.users
  (ok, w1) ← send_to a pid raw me to_id w
  let told = post (pipe_message (codes "openFromUserPipe") me.pid me.id to_id) w1
  w2 ← (if ok then told else some w1)
  some (true, session (execute_forked_command a user_pipe_out none_mode [] c.command c.args w2))

-- The mode that the second operator gives the output of a command that reads from a user.
unfoldable pub second_mode : Bytes → PipeMode
second_mode op =
    if str_eq op (codes "|")
    then normal_pipe
    else if str_eq op (codes ">")
    then file_output
    else if first_byte op == b'|'
    then numbered_pipe
    else if first_byte op == b'!'
    then numbered_pipe_stderr
    else console_output

-- The last lines of the branch of `<n`: the program is run, and the session ends unless its output goes
-- to the next command.
unfoldable pub run_user_in : Answers → PipeMode → Bytes → Command → World → World
run_user_in a normal_pipe file c w =
    execute_forked_command a user_pipe_in normal_pipe file c.command c.args w
run_user_in a mode2 file c w =
    session (execute_forked_command a user_pipe_in mode2 file c.command c.args w)

unfoldable pub run_second_numbered :
    Answers → PipeMode → Bytes → Command → World → Option (Bool × World)
run_second_numbered a mode op c w = do
  count ← number_of op
  some (false, run_user_in a mode [] c (with_number a count w))

unfoldable pub run_second_file : Answers → Command → Option Command → World → Option (Bool × World)
run_second_file a c none w = some (true, say no_filename w)
run_second_file a c (some f) w = some (false, run_user_in a file_output f.command c w)

-- The second operator of `<n`: the numbered pipe and the file name.
unfoldable pub run_second :
    Answers → Bytes → Command → Option Command → World → Option (Bool × World)
run_second a op c next w = elim (second_mode op) [
  | file_output ↦ run_second_file a c next w
  | numbered_pipe ↦ run_second_numbered a numbered_pipe op c w
  | numbered_pipe_stderr ↦ run_second_numbered a numbered_pipe_stderr op c w
  | mode ↦ some (false, run_user_in a mode [] c w)
]

-- The first half of the branch of `<n`: the FIFO is taken, and its process is told.
unfoldable pub take_from : Answers → ℕ → Bytes → Bytes → World → Option World
take_from a pid raw op w = do
  from_id ← number_of op
  known ← get_user_by_id from_id w.shared.users
  me ← get_user_by_pid pid w.shared.users
  (ok, w1) ← receive_from a pid raw me from_id w
  let told = (do
    from_user ← known
    post (pipe_message (codes "closeFromUserPipe") from_user.pid from_user.id me.id) w1)
  (if ok then told else some w1)

-- `<n` with no `>m` behind it.
unfoldable pub run_from_user :
    Answers → ℕ → Bytes → Bytes → Bytes → Command → Option Command → World → Option (Bool × World)
run_from_user a pid raw op op2 c next w = take_from a pid raw op w >>= run_second a op2 c next

-- `<n` and `>m` together, in either order.
unfoldable pub run_both :
    Answers → ℕ → Bytes → Bytes → Bytes → Command → World → Option (Bool × World)
run_both a pid raw from_op to_op c w = do
  from_id ← number_of from_op
  to_id ← number_of to_op
  me ← get_user_by_pid pid w.shared.users
  (loaded, w1) ← receive_from a pid raw me from_id w
  (made, w2) ← send_to a pid raw me to_id w1
  owner ← get_user_by_id from_id w2.shared.users
  from_user ← owner
  w3 ← post (pipe_message (codes "closeFromUserPipe") from_user.pid from_id me.id) w2
  w4 ← post (pipe_message (codes "openFromUserPipe") me.pid me.id to_id) w3
  some (true, session (execute_forked_command a user_pipe_both none_mode [] c.command c.args w4))

-- One of the two operators starts with `c` and is not `c` alone.
abbrev pub names_with : ℕ → Bytes → Bool
names_with c op = not (str_eq op (c ∷ [])) && first_byte op == c

-- The body of the loop. `next` is the command behind.
unfoldable pub run_command :
    Answers → ℕ → Bytes → Command → Option Command → World → Option (Bool × World)
run_command a pid raw c next w =
    let op = operator_at 0 c.operators in
    let op2 = operator_at 1 c.operators in
    elim (builtin_of c.command) [
      | some b ↦ run_builtin pid c w
      | none ↦
          if str_eq op (codes "|")
          then some (false, execute_forked_command a normal_pipe none_mode [] c.command c.args w)
          else if str_eq op (codes ">")
          then run_to_file a c next w
          else if first_byte op == b'|'
          then run_numbered a numbered_pipe op c w
          else if first_byte op == b'!'
          then run_numbered a numbered_pipe_stderr op c w
          else if first_byte op == b'>'
          then (if names_with b'<' op2
              then run_both a pid raw op2 op c w
              else run_to_user a pid raw op c w)
          else if first_byte op == b'<'
          then (if names_with b'>' op2
              then run_both a pid raw op op2 c w
              else run_from_user a pid raw op op2 c next w)
          else some (
            false,
            session (execute_forked_command a console_output none_mode [] c.command c.args w),
          )
    ]

abbrev pub head_of : List Command → Option Command
head_of [] = none
head_of (c ∷ cs) = some c

-- The loop over the commands. `os i` is what the system answers for the command with index `i`.
unfoldable pub run_commands : (ℕ → Answers) → ℕ → Bytes → ℕ → List Command → World → Option World
run_commands os pid raw i [] w = some w
run_commands os pid raw i (c ∷ cs) w = do
  r ← run_command (os i) pid raw c (head_of cs) w
  let rest = run_commands os pid raw (suc i) cs r.1
  (if r.0 then some r.1 else rest)

unfoldable pub execute : (ℕ → Answers) → ℕ → Bytes → World → Option World
execute os pid raw w = do
  commands ← parse raw
  let loaded = record w { vars = load_env w.env_map w.vars }
  w' ← run_commands os pid raw 0 commands (emit (logged (raw ++ 10 ∷ []) ∷ []) loaded)
  some (record w' { vars = reset_env w'.env_map w'.vars })
