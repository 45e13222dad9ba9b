-- ===== src/Shell/Run/Files.antt =====
-- Commands whose output goes to a file: the loop stops behind `> f`, but not behind `<n > f`.
use nycu_csic30091_netw.Prelude.{
  ℕ, suc, Bool, false, none, some, [], ◌∷◌, ◌≡◌, refl, arith, >>=-eq-some, eq_of_some, sym, ◌∙◌,
}
use nycu_csic30091_netw.Prelude.Bytes.{Bytes, codes, str_eq}
use nycu_csic30091_netw.Shell.Parser.Model.{Command}
use nycu_csic30091_netw.Shell.Pipes.Model.{console_output, file_output, user_pipe_in, none_mode}
use nycu_csic30091_netw.Shell.Builtin.Model.{builtin_of}
use nycu_csic30091_netw.Shell.Run.World.{World, Answers, session, execute_forked_command}
use nycu_csic30091_netw.Shell.Run.Model.{
  run_command, run_commands, run_from_user, take_from, run_second, run_second_file, run_user_in,
  second_mode, operator_at, first_byte,
}
use nycu_csic30091_netw.Shell.Run.Pipeline.{run_command-console}

run_second-file :
    (a : Answers) (c f : Command) (w : World)
    → run_second a (codes ">") c (some f) w
      ≡ some (
        false,
        session (execute_forked_command a user_pipe_in file_output f.command c.command c.args w),
      )
unfolding run_second run_second_file run_user_in second_mode str_eq first_byte
run_second-file a c f w = refl

run_command-from :
    (a : Answers) (pid : ℕ) (raw s : Bytes) (c f : Command) (w : World)
    → builtin_of c.command ≡ none
    → c.operators ≡ (b'<' ∷ s) ∷ codes ">" ∷ []
    → run_command a pid raw c (some f) w
      ≡ run_from_user a pid raw (b'<' ∷ s) (codes ">") c (some f) w
unfolding run_command operator_at str_eq first_byte
run_command-from a pid raw s c f w b o = ground arith

-- A user pipe that leads to the command, as far as the file is concerned: what runs first.
run_from_user-file :
    (a : Answers) (pid : ℕ) (raw op : Bytes) (c f : Command) (w : World) (r : Bool × World)
    → run_from_user a pid raw op (codes ">") c (some f) w ≡ some r
    → (w1 : World) × (r ≡ (
      false,
      session (execute_forked_command a user_pipe_in file_output f.command c.command c.args w1),
    ))
unfolding run_from_user
run_from_user-file a pid raw op c f w r e =
    let (w1, taken, h) =
      >>=-eq-some (take_from a pid raw op w) (run_second a (codes ">") c (some f)) e in
    (w1, eq_of_some (sym h ∙ run_second-file a c f w1))

abbrev pub run_alone : Answers → Command → World → World
run_alone a c w = session (execute_forked_command a console_output none_mode [] c.command c.args w)

-- A line `c <n > f`, f being no built-in command and having no operator: where the first command does
-- not fail, its output goes to the file f, and then the loop goes on, so that f is started as a program
-- of its own.
pub file_run_as_program :
    (os : ℕ → Answers) (pid : ℕ) (raw s : Bytes) (i : ℕ) (c f : Command) (w w' : World)
    → builtin_of c.command ≡ none
    → c.operators ≡ (b'<' ∷ s) ∷ codes ">" ∷ []
    → builtin_of f.command ≡ none
    → f.operators ≡ []
    → run_commands os pid raw i (c ∷ f ∷ []) w ≡ some w'
    → (w1 : World) × (w'
        ≡ run_alone (os (suc i)) f (
            session (
              execute_forked_command
                (os i)
                user_pipe_in
                file_output
                f.command
                c.command
                c.args
                w1)))
unfolding run_commands
file_run_as_program os pid raw s i c f w w' bc oc bf off e =
    let (r, er, h) = >>=-eq-some (run_command (os i) pid raw c (some f) w) _ e in
    let (w1, same) =
      run_from_user-file (os i) pid raw (b'<' ∷ s) c f w r
        (sym (run_command-from (os i) pid raw s c f w bc oc) ∙ er) in
    (w1, ground (arith, same, h, run_command-console (os (suc i)) pid raw f none r.1 bf off))
