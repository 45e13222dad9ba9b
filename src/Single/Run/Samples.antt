-- ===== src/Single/Run/Samples.antt =====
-- Two users of np_single_proc: the first one pipes to the second one, who reads.
use nycu_csic30091_netw.Prelude.{
  ℕ, ◌⊎◌, true, false, none, some, List, [], ◌∷◌, ◌++◌, ◌≡◌, refl, arith, Bool-cases, inl, inr,
  ◌==◌,
}
use nycu_csic30091_netw.Prelude.Bytes.{Bytes, codes, str_eq, str_eq_iff}
use nycu_csic30091_netw.Cxx.Map.{find}
use nycu_csic30091_netw.Cxx.TextMap.{find_text}
use nycu_csic30091_netw.Shell.Parser.Model.{Command, parse}
use nycu_csic30091_netw.Shell.Pipes.Model.{Pipe, Call, close}
use nycu_csic30091_netw.Shell.Builtin.Model.{builtin_of}
use nycu_csic30091_netw.Single.Names.{find_name}
use nycu_csic30091_netw.Single.Users.{User, UserManager}
use nycu_csic30091_netw.Single.Indexed.{IsIndexed}
use nycu_csic30091_netw.Single.Pipes.{find_user_pipe}
use nycu_csic30091_netw.Single.Server.{SingleProcServer, new_shell, broadcast}
use nycu_csic30091_netw.Single.Run.World.{World, Answers, Event, told, spawned, called, waited}
use nycu_csic30091_netw.Single.Run.Users.{piped_text, received_text}
use nycu_csic30091_netw.Single.Run.Model.{run_command}
use nycu_csic30091_netw.Single.Run.Loop.{
  State, Ready, Accepted, turn, on_ready, in_str, c_string, without_cr,
}
use nycu_csic30091_netw.Single.Run.Sound.{IsSound, has_fd, is_some}
use nycu_csic30091_netw.Single.Run.Asked.{asks}
use nycu_csic30091_netw.Single.Run.Lines.{AreAsked}
use nycu_csic30091_netw.Single.Run.Turns.{TurnUnread, turn_ends}
use nycu_csic30091_netw.Single.Run.Sent.{piping, reading, writes_to, reads_from}
use nycu_csic30091_netw.Single.Run.Delivered.{user_pipe_delivers}
use nycu_csic30091_netw.Single.Run.Buffer.{end_of_input_serves_buffer}

abbrev ann : User
ann = record {
  fd = 4;
  id = 1;
  name = codes "ann";
  name_change_count = 1;
  ip_addr = codes "1.2.3.4:5";
}

abbrev bob : User
bob = record { fd = 5; id = 2; name = []; name_change_count = 0; ip_addr = codes "1.2.3.4:6" }

abbrev two_users : UserManager
two_users = record {
  heap = (100, ann) ∷ (101, bob) ∷ [];
  id_user_map = (1, 100) ∷ (2, 101) ∷ [];
  fd_user_map = (4, 100) ∷ (5, 101) ∷ [];
  name_user_map = (codes "ann", 100) ∷ [];
  ip_username_map = (codes "1.2.3.4:5", []) ∷ (codes "1.2.3.4:6", []) ∷ [];
}

two_users-IsIndexed : IsIndexed two_users
unfolding find find_name find_text str_eq
two_users-IsIndexed = record {
  in_ids = λ p u h. ground arith;
  in_fds = λ p u h. ground arith;
  in_names = λ p u h n. ground (arith, h, n, str_eq_iff u.name [], str_eq_iff (codes "ann") u.name);
  of_id = λ id p h. elim (Bool-cases (1 == id)) [
    | inl e ↦ (ann, ground (arith, h, e), ground (arith, e))
    | inr e ↦ (bob, ground (arith, h, e), ground (arith, h, e))
  ];
  of_fd = λ fd p h. elim (Bool-cases (4 == fd)) [
    | inl e ↦ (ann, ground (arith, h, e), ground (arith, e))
    | inr e ↦ (bob, ground (arith, h, e), ground (arith, h, e))
  ];
  of_name = λ n p f h. (ann, ground (arith, h), ground (arith, h, str_eq_iff (codes "ann") n));
  of_ip = λ ip n h. ground arith;
}

abbrev two_clients : SingleProcServer
two_clients = record {
  user_manager = two_users;
  user_pipe_map = [];
  active_fds = 4 ∷ 5 ∷ [];
  npshell_map = (4, new_shell []) ∷ (5, new_shell []) ∷ [];
}

two_clients-IsSound : IsSound two_clients
unfolding find find_user_pipe has_fd
two_clients-IsSound = record {
  indexed = two_users-IsIndexed;
  ordered = (omega arith, (omega arith, tt));
  piped = λ a b p e. cc;
  shells = λ fd. ground arith;
  active = λ fd. ground arith;
}

abbrev answers : ℕ → Answers
answers i = record {
  fresh = record {
    null_in = record { read = 10; write = 11 };
    null_out = record { read = 12; write = 13 };
    piped = record { read = 14; write = 15 };
  };
  numbered = record { read = 16; write = 17 };
  user = record { read = 20; write = 21 };
}

abbrev world : World
world = record { server = two_clients; shell = new_shell []; vars = []; events = [] }

ann_there :
    (find 4 two_users.fd_user_map ≡ some 100)
    × (find 100 two_users.heap ≡ some ann)
    × (find 5 two_users.fd_user_map ≡ some 101)
    × (find 101 two_users.heap ≡ some bob)
unfolding find
ann_there = (refl, refl, refl, refl)

no_program : (builtin_of (codes "ls") ≡ none) × (builtin_of (codes "cat") ≡ none)
unfolding builtin_of str_eq
no_program = (refl, refl)

no_user_pipe : find_user_pipe 1 2 two_clients.user_pipe_map ≡ none
unfolding find_user_pipe
no_user_pipe = refl

abbrev user_pipe : Pipe
user_pipe = record { read = 20; write = 21 }

user_pipe_delivers_example :
    (w1 w2 : World) × (ins closed : List Call) × (run_command
        (answers 0)
        4
        (codes "ls >2")
        (piping (codes "ls") [] 2)
        none
        world
      ≡ some (true, w1))
    × (w1.events
        ≡ told (broadcast (piped_text ann (codes "ls >2") bob 2) two_clients)
          ∷ spawned (codes "ls") [] (ins ++ writes_to user_pipe)
          ∷ called closed
          ∷ [])
    × (run_command
          (answers 1)
          5
          (codes "cat <1")
          (reading (codes "cat") [] 1)
          none
          (record w1 { shell = new_shell [] })
        ≡ some (false, w2))
    × (w2.events
        ≡ w1.events
          ++ told (broadcast (received_text bob (codes "cat <1") ann 1) two_clients)
            ∷ spawned (codes "cat") [] (reads_from user_pipe)
            ∷ called (close 20 ∷ close 21 ∷ [])
            ∷ waited
            ∷ [])
    × (find_user_pipe 1 2 w2.server.user_pipe_map ≡ none)
user_pipe_delivers_example =
    user_pipe_delivers 4 5 100 101 ann bob world ann_there.0 ann_there.1 ann_there.2 ann_there.3
      two_clients-IsSound (answers 0) (answers 1) (codes "ls >2") (codes "cat <1") (codes "ls")
      (codes "cat") [] [] none none (new_shell []) no_program.0 no_program.1 refl no_user_pipe

abbrev line : Bytes
line = codes "name x"

abbrev name_it : Command
name_it = record { command = codes "name"; args = codes "x" ∷ []; operators = [] }

line_parses : parse line ≡ some (name_it ∷ [])
unfolding parse
line_parses = refl

-- A third client comes, and the first one asks for a name.
abbrev comes : Accepted
comes = record { fd = 6; ip_addr = codes "1.2.3.4:7"; user = 102 }

abbrev sends_line : Ready
sends_line = record {
  fd = 4;
  read_size = 7;
  memory = line ++ 10 ∷ 0 ∷ [];
  answers = answers;
  kept = true;
}

there_are_two :
    (find 102 two_users.heap ≡ none)
    × (find 6 two_users.fd_user_map ≡ none)
    × (is_some (find 4 two_clients.npshell_map) ≡ true)
unfolding find
there_are_two = (refl, refl, refl)

line_read : in_str 7 (line ++ 10 ∷ 0 ∷ []) ≡ some line
unfolding in_str c_string without_cr
line_read = refl

asked : (cs : List Command) → parse line ≡ some cs → AreAsked cs
unfolding asks builtin_of str_eq
asked cs e = let same : cs ≡ name_it ∷ [] = ground (arith, e, line_parses) in rw same (refl, tt)

abbrev state : State
state = record { server = two_clients; vars = [] }

turn_ends_example :
    (TurnUnread (some comes) (sends_line ∷ []) state
      × (turn (some comes) (sends_line ∷ []) state ≡ none))
    ⊎ ((s' : State) × (es : List Event) × (turn (some comes) (sends_line ∷ []) state
          ≡ some (s', es))
        × IsSound s'.server)
turn_ends_example =
    turn_ends (some comes) (sends_line ∷ []) state two_clients-IsSound
      (there_are_two.0, there_are_two.1) (there_are_two.2, (line, line_read, asked), tt, tt)

end_of_input_serves_buffer_example :
    on_ready
      (record { fd = 4; read_size = 0; memory = line ++ 0 ∷ []; answers = answers; kept = true })
      state
    ≡ on_ready
        (record { fd = 4; read_size = 7; memory = line ++ 0 ∷ []; answers = answers; kept = true })
        state
end_of_input_serves_buffer_example =
    end_of_input_serves_buffer 4 line [] answers true state
      (refl, (refl, (refl, (refl, (refl, (refl, tt))))))
