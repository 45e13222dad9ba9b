-- ===== src/Shell/Run/Pipeline.antt =====
-- A line `c1 | c2 | … | cn` of programs: who reads from whom.
use nycu_csic30091_netw.Prelude.{
  ℕ, suc, Option, none, some, List, [], ◌∷◌, ◌++◌, ◌≡◌, refl, arith, false, ◌∙◌, sym, append_assoc,
  append-nil, if◌then◌else◌,
}
use nycu_csic30091_netw.Prelude.Bytes.{Bytes, codes, str_eq}
use nycu_csic30091_netw.Shell.Parser.Model.{Command}
use nycu_csic30091_netw.Shell.Pipes.Model.{
  Pipe, Call, close, dup2, is_pipe, no_pipe, normal_pipe, console_output, none_mode,
  root_pipe_handler, parent_pipe_handler, child_pipe_handler, root_input, root_output,
}
use nycu_csic30091_netw.Shell.Builtin.Model.{builtin_of}
use nycu_csic30091_netw.Shell.Run.World.{
  World, Answers, Event, spawned, called, waited, emit, session, execute_forked_command,
}
use nycu_csic30091_netw.Shell.Run.Model.{run_command, run_commands, operator_at, first_byte}

-- A child takes its input from a pipe, and gives its output to one.
abbrev pub input_calls : Pipe → List Call
input_calls p = if is_pipe p then close p.write ∷ dup2 p.read 0 ∷ close p.read ∷ [] else []

abbrev pub output_calls : Pipe → List Call
output_calls p = close p.read ∷ dup2 p.write 1 ∷ close p.write ∷ []

-- The shell closes its own ends of the pipe that a child reads from.
abbrev pub closing_calls : Pipe → List Call
closing_calls p = if is_pipe p then close p.read ∷ close p.write ∷ [] else []

-- What a pipeline does, the first command reading from `prev`: each command writes to the pipe that the
-- next one reads from, and the shell waits for the last one only.
abbrev pub stages : (ℕ → Answers) → ℕ → Pipe → List Command → List Event
stages os i prev [] = []
stages os i prev (c ∷ []) =
    spawned c.command c.args (input_calls prev) ∷ called (closing_calls prev) ∷ waited ∷ []
stages os i prev (c ∷ d ∷ cs) =
    let p = (os i).fresh.piped in
    spawned c.command c.args (input_calls prev ++ output_calls p)
    ∷ called (closing_calls prev)
    ∷ stages os (suc i) p (d ∷ cs)

-- Programs, each with `|` behind it but the last, which has nothing.
abbrev pub IsPipeline : List Command → Type 0
IsPipeline [] = Unit {0}
IsPipeline (c ∷ []) = (builtin_of c.command ≡ none) × (c.operators ≡ [])
IsPipeline (c ∷ d ∷ cs) =
    (builtin_of c.command ≡ none) × (c.operators ≡ codes "|" ∷ []) × IsPipeline (d ∷ cs)

forked_normal :
    (a : Answers) (command : Bytes) (args : List Bytes) (w : World)
    → w.manager.current_numbered_pipe ≡ no_pipe
    → execute_forked_command a normal_pipe none_mode [] command args w
      ≡ emit
          (spawned command args (input_calls w.manager.current_pipe ++ output_calls a.fresh.piped)
            ∷ called (closing_calls w.manager.current_pipe)
            ∷ [])
          (record w {
            manager = record (w.manager) { current_pipe = a.fresh.piped; new_pipe = no_pipe };
          })
unfolding execute_forked_command root_pipe_handler parent_pipe_handler child_pipe_handler root_input
    root_output
forked_normal a command args w e = ground arith

forked_console :
    (a : Answers) (command : Bytes) (args : List Bytes) (w : World)
    → w.manager.current_numbered_pipe ≡ no_pipe
    → execute_forked_command a console_output none_mode [] command args w
      ≡ emit
          (spawned command args (input_calls w.manager.current_pipe)
            ∷ called (closing_calls w.manager.current_pipe)
            ∷ waited
            ∷ [])
          (record w { manager = record (w.manager) { new_pipe = no_pipe } })
unfolding execute_forked_command root_pipe_handler parent_pipe_handler child_pipe_handler root_input
    root_output
forked_console a command args w e = ground (arith, append-nil (input_calls w.manager.current_pipe))

pub run_command-normal :
    (a : Answers) (pid : ℕ) (raw : Bytes) (c : Command) (next : Option Command) (w : World)
    → builtin_of c.command ≡ none
    → c.operators ≡ codes "|" ∷ []
    → run_command a pid raw c next w
      ≡ some (false, execute_forked_command a normal_pipe none_mode [] c.command c.args w)
unfolding run_command operator_at str_eq
run_command-normal a pid raw c next w b o = ground arith

pub run_command-console :
    (a : Answers) (pid : ℕ) (raw : Bytes) (c : Command) (next : Option Command) (w : World)
    → builtin_of c.command ≡ none
    → c.operators ≡ []
    → run_command a pid raw c next w
      ≡ some
          (false, session (execute_forked_command a console_output none_mode [] c.command c.args w))
unfolding run_command operator_at first_byte str_eq
run_command-console a pid raw c next w b o = ground arith

-- What a pipeline leaves: the events, and everything else but the pipes as it was.
pub record IsRun (w w' : World) (es : List Event) : Type 0 where
  pub did : w'.events ≡ w.events ++ es
  pub shared_kept : w'.shared ≡ w.shared
  pub held_kept : w'.held ≡ w.held
  pub env_kept : w'.env_map ≡ w.env_map
  pub vars_kept : w'.vars ≡ w.vars
  pub exit_kept : w'.exit_flag ≡ w.exit_flag

-- A line of programs with `|` between them, where no numbered pipe leads to the line: each program is
-- started once, in order, with its input from the pipe that the one before it writes to (the first
-- reads from the pipe that the session has), the shell closes each pipe once its reader is started,
-- and waits for the last program only. Nothing but the pipes changes.
pub run_commands-IsRun :
    (os : ℕ → Answers) (pid : ℕ) (raw : Bytes) (i : ℕ) (cs : List Command) (w : World)
    → IsPipeline cs
    → w.manager.current_numbered_pipe ≡ no_pipe
    → (w' : World) × (run_commands os pid raw i cs w ≡ some w')
      × IsRun w w' (stages os i w.manager.current_pipe cs)
unfolding run_commands
run_commands-IsRun os pid raw i [] w v e = (
  w,
  refl,
  record {
    did = sym (append-nil w.events);
    shared_kept = refl;
    held_kept = refl;
    env_kept = refl;
    vars_kept = refl;
    exit_kept = refl;
  },
)
run_commands-IsRun os pid raw i (c ∷ []) w v e =
    let w1 = execute_forked_command (os i) console_output none_mode [] c.command c.args w in
    (
      session w1,
      rw (run_command-console (os i) pid raw c none w v.0 v.1) refl,
      rw (forked_console (os i) c.command c.args w e) (record {
        did = refl;
        shared_kept = refl;
        held_kept = refl;
        env_kept = refl;
        vars_kept = refl;
        exit_kept = refl;
      }),
    )
run_commands-IsRun os pid raw i (c ∷ d ∷ cs) w v e =
    let es =
      spawned c.command c.args
        (input_calls w.manager.current_pipe ++ output_calls (os i).fresh.piped)
      ∷ called (closing_calls w.manager.current_pipe)
      ∷ [] in
    let w1 = emit es (record w {
      manager = record (w.manager) { current_pipe = (os i).fresh.piped; new_pipe = no_pipe };
    }) in
    let (w', run, v') = run_commands-IsRun os pid raw (suc i) (d ∷ cs) w1 v.2 e in
    (
      w',
      rw (run_command-normal (os i) pid raw c (some d) w v.0 v.1)
          (rw (forked_normal (os i) c.command c.args w e) run),
      record {
        did = v'.did ∙ append_assoc w.events es (stages os (suc i) (os i).fresh.piped (d ∷ cs));
        shared_kept = v'.shared_kept;
        held_kept = v'.held_kept;
        env_kept = v'.env_kept;
        vars_kept = v'.vars_kept;
        exit_kept = v'.exit_kept;
      },
    )
