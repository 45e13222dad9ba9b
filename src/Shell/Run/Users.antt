-- ===== src/Shell/Run/Users.antt =====
-- The parts of NPShell::execute that send a command's output to another user, or take its input from
-- one.
use nycu_csic30091_netw.Prelude.{
  ℕ, Bool, true, false, Option, none, some, ◌∷◌, ◌++◌, ◌>>=◌, if◌then◌else◌,
}
use nycu_csic30091_netw.Prelude.Bytes.{Bytes, codes}
use nycu_csic30091_netw.Cxx.Decimal.{to_string}
use nycu_csic30091_netw.Shell.Users.Model.{User, get_user_by_id}
use nycu_csic30091_netw.Shell.Messages.Model.{Message, add_message}
use nycu_csic30091_netw.Shell.Pipes.Fifos.{add_user_pipe, load_user_pipe}
use nycu_csic30091_netw.Shell.Server.Model.{broadcast, shown_name}
use nycu_csic30091_netw.Shell.Builtin.Model.{no_user_text, pos}
use nycu_csic30091_netw.Shell.Run.World.{World, Answers, say, pipes_of, with_pipes}

abbrev pub pipe_text : ℕ → ℕ → Bytes
pipe_text from_id to_id =
    codes "*** Error: the pipe #" ++ (to_string from_id ++ (codes "->#" ++ to_string to_id))

abbrev pub exists_text : ℕ → ℕ → Bytes
exists_text from_id to_id = pipe_text from_id to_id ++ codes " already exists. ***\n"

abbrev pub no_pipe_text : ℕ → ℕ → Bytes
no_pipe_text from_id to_id = pipe_text from_id to_id ++ codes " does not exist yet. ***\n"

-- A user as the announcements show it.
abbrev pub shown_user : Bytes → ℕ → Bytes
shown_user name id = shown_name name ++ (codes " (#" ++ (to_string id ++ codes ")"))

abbrev pub piped_text : User → Bytes → User → ℕ → Bytes
piped_text me raw to_user to_id =
    codes "*** "
    ++ (shown_user me.name me.id
        ++ (codes " just piped '"
            ++ (raw ++ (codes "' to " ++ (shown_user to_user.name to_id ++ codes " ***")))))

abbrev pub received_text : User → Bytes → User → ℕ → Bytes
received_text me raw from_user from_id =
    codes "*** "
    ++ (shown_user me.name me.id
        ++ (codes " just received from "
            ++ (shown_user from_user.name from_id ++ (codes " by '" ++ (raw ++ codes "' ***")))))

-- A FIFO to another user: whether it was made, and what is left. `pid` is the process of the shell.
unfoldable pub send_to : Answers → ℕ → Bytes → User → ℕ → World → Option (Bool × World)
send_to a pid raw me to_id w = do
  found ← get_user_by_id to_id w.shared.users
  elim found [
    | none ↦ some (false, say (no_user_text (pos to_id)) w)
    | some to_user ↦
        let (ok, p) = add_user_pipe a.dummy a.user_fd me.id to_id (pipes_of w) in
        let w' = with_pipes p w in
        let announced = (do
          shared ← broadcast (piped_text me raw to_user to_id) true pid w'.shared
          some (true, record w' { shared = shared })) in
        if ok then announced else some (false, say (exists_text me.id to_id) w')
  ]

-- A FIFO from another user: whether it was there, and what is left.
unfoldable pub receive_from : Answers → ℕ → Bytes → User → ℕ → World → Option (Bool × World)
receive_from a pid raw me from_id w = do
  found ← get_user_by_id from_id w.shared.users
  elim found [
    | none ↦ some (false, say (no_user_text (pos from_id)) w)
    | some from_user ↦
        let (ok, p) = load_user_pipe a.loaded from_id me.id (pipes_of w) in
        let w' = with_pipes p w in
        let announced = (do
          shared ← broadcast (received_text me raw from_user from_id) true pid w'.shared
          some (true, record w' { shared = shared })) in
        if ok then announced else some (false, say (no_pipe_text from_id me.id) w')
  ]

-- The message by which a process is told to open or close its end of a FIFO.
abbrev pub pipe_message : Bytes → ℕ → ℕ → ℕ → Message
pipe_message kind pid from_id to_id = record {
  pid = pid;
  kind = kind;
  value = to_string from_id ++ b'_' ∷ to_string to_id;
}

unfoldable pub post : Message → World → Option World
post m w = do
  messages ← add_message m w.shared.messages
  some (record w { shared = record (w.shared) { messages = messages } })
