-- ===== src/Shell/Run/Kept.antt =====
-- The lines of NPShell::execute that do not run a built-in command leave the shell's variables alone.
use nycu_csic30091_netw.Prelude.{ℕ, Bool, Option, some, ◌≡◌, arith}
use nycu_csic30091_netw.Prelude.Bytes.{Bytes}
use nycu_csic30091_netw.Shell.Parser.Model.{Command}
use nycu_csic30091_netw.Shell.Users.Model.{User}
use nycu_csic30091_netw.Shell.Messages.Model.{Message}
use nycu_csic30091_netw.Shell.Pipes.Model.{PipeMode}
use nycu_csic30091_netw.Shell.Run.World.{World, Answers, execute_forked_command}
use nycu_csic30091_netw.Shell.Run.Users.{send_to, receive_from, post}
use nycu_csic30091_netw.Shell.Run.Model.{
  run_to_file, run_numbered, run_to_user, run_user_in, run_second_numbered, run_second_file,
  run_second, run_from_user, take_from, run_both,
}

pub run_to_file-kept :
    (a : Answers) (c : Command) (next : Option Command) (w : World) (r : Bool × World)
    → run_to_file a c next w ≡ some r
    → (r.1.env_map ≡ w.env_map) × (r.1.vars ≡ w.vars)
unfolding run_to_file execute_forked_command
run_to_file-kept a c next w r e = ground arith

pub run_numbered-kept :
    (a : Answers) (mode : PipeMode) (op : Bytes) (c : Command) (w : World) (r : Bool × World)
    → run_numbered a mode op c w ≡ some r
    → (r.1.env_map ≡ w.env_map) × (r.1.vars ≡ w.vars)
unfolding run_numbered execute_forked_command
run_numbered-kept a mode op c w r e = ground arith

post-kept :
    (m : Message) (w w' : World)
    → post m w ≡ some w'
    → (w'.env_map ≡ w.env_map) × (w'.vars ≡ w.vars)
unfolding post
post-kept m w w' e = ground arith

send_to-kept :
    (a : Answers) (pid : ℕ) (raw : Bytes) (me : User) (id : ℕ) (w : World) (r : Bool × World)
    → send_to a pid raw me id w ≡ some r
    → (r.1.env_map ≡ w.env_map) × (r.1.vars ≡ w.vars)
unfolding send_to
send_to-kept a pid raw me id w r e = ground arith

receive_from-kept :
    (a : Answers) (pid : ℕ) (raw : Bytes) (me : User) (id : ℕ) (w : World) (r : Bool × World)
    → receive_from a pid raw me id w ≡ some r
    → (r.1.env_map ≡ w.env_map) × (r.1.vars ≡ w.vars)
unfolding receive_from
receive_from-kept a pid raw me id w r e = ground arith

pub run_to_user-kept :
    (a : Answers) (pid : ℕ) (raw op : Bytes) (c : Command) (w : World) (r : Bool × World)
    → run_to_user a pid raw op c w ≡ some r
    → (r.1.env_map ≡ w.env_map) × (r.1.vars ≡ w.vars)
unfolding run_to_user execute_forked_command
run_to_user-kept a pid raw op c w r e = grind (arith, send_to-kept, post-kept)

pub run_user_in-kept :
    (a : Answers) (mode : PipeMode) (file : Bytes) (c : Command) (w : World)
    → ((run_user_in a mode file c w).env_map ≡ w.env_map)
      × ((run_user_in a mode file c w).vars ≡ w.vars)
unfolding run_user_in execute_forked_command
run_user_in-kept a mode file c w = ground arith

pub run_second-kept :
    (a : Answers) (op : Bytes) (c : Command) (next : Option Command) (w : World) (r : Bool × World)
    → run_second a op c next w ≡ some r
    → (r.1.env_map ≡ w.env_map) × (r.1.vars ≡ w.vars)
unfolding run_second run_second_file run_second_numbered
run_second-kept a op c next w r e = grind (arith, run_user_in-kept)

take_from-kept :
    (a : Answers) (pid : ℕ) (raw op : Bytes) (w w' : World)
    → take_from a pid raw op w ≡ some w'
    → (w'.env_map ≡ w.env_map) × (w'.vars ≡ w.vars)
unfolding take_from
take_from-kept a pid raw op w w' e = grind (arith, receive_from-kept, post-kept)

pub run_from_user-kept :
    (a : Answers) (pid : ℕ) (raw op op2 : Bytes) (c : Command) (next : Option Command) (w : World)
    (r : Bool × World)
    → run_from_user a pid raw op op2 c next w ≡ some r
    → (r.1.env_map ≡ w.env_map) × (r.1.vars ≡ w.vars)
unfolding run_from_user
run_from_user-kept a pid raw op op2 c next w r e = grind (arith, take_from-kept, run_second-kept)

pub run_both-kept :
    (a : Answers) (pid : ℕ) (raw op op2 : Bytes) (c : Command) (w : World) (r : Bool × World)
    → run_both a pid raw op op2 c w ≡ some r
    → (r.1.env_map ≡ w.env_map) × (r.1.vars ≡ w.vars)
unfolding run_both execute_forked_command
run_both-kept a pid raw op op2 c w r e = grind (arith, send_to-kept, receive_from-kept, post-kept)
