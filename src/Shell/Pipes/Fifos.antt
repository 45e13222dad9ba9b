-- ===== src/Shell/Pipes/Fifos.antt =====
-- The FIFOs between users: addUserPipe to closeAllPipe of PipeManager. The directory ./user_pipe is
-- the list of its FIFOs' names; a descriptor that `open` gives is an argument, `none` where it fails.
use nycu_csic30091_netw.Prelude.{
  ℕ, Bool, true, false, ◌&&◌, ◌||◌, Option, none, some, List, [], ◌∷◌, ◌++◌, ◌==◌, if◌then◌else◌,
}
use nycu_csic30091_netw.Prelude.Bytes.{Bytes, codes, str_eq}
use nycu_csic30091_netw.Cxx.Decimal.{to_string}
use nycu_csic30091_netw.Cxx.Stream.{before}
use nycu_csic30091_netw.Shell.Messages.Model.{Message, behind_underscore}
use nycu_csic30091_netw.Shell.Pipes.Model.{PipeManager, Call, close_known}

-- userPipeMap: the write ends that a user holds open, by sender and receiver.
pub record Held : Type 0 where
  pub from_id : ℕ
  pub to_id : ℕ
  pub fd : Option ℕ

pub record UserPipes : Type 0 where
  pub manager : PipeManager
  pub directory : List Bytes
  pub user_pipe_map : List Held

unfoldable pub fifo_name : ℕ → ℕ → Bytes
fifo_name from_id to_id = to_string from_id ++ b'_' ∷ to_string to_id

unfoldable pub has_fifo : Bytes → List Bytes → Bool
has_fifo name [] = false
has_fifo name (e ∷ d) = str_eq name e || has_fifo name d

unfoldable pub unlink : Bytes → List Bytes → List Bytes
unlink name [] = []
unlink name (e ∷ d) = let rest = unlink name d in if str_eq name e then rest else e ∷ rest

both_open : Option ℕ → Option ℕ → Bool
both_open (some a) (some b) = true
both_open _ _ = false

-- mknod fails exactly if the FIFO is there.
unfoldable pub add_user_pipe : Option ℕ → Option ℕ → ℕ → ℕ → UserPipes → Bool × UserPipes
unfolding both_open
add_user_pipe dummy fd from_id to_id s =
    let name = fifo_name from_id to_id in
    if has_fifo name s.directory then (false, s) else (
      both_open dummy fd,
      record s {
        directory = name ∷ s.directory;
        manager = record (s.manager) { dummy_read_fd = dummy; new_user_pipe = fd };
      },
    )

-- `open` gives a descriptor exactly if the FIFO is there.
unfoldable pub load_user_pipe : ℕ → ℕ → ℕ → UserPipes → Bool × UserPipes
load_user_pipe fd from_id to_id s =
    let name = fifo_name from_id to_id in
    if has_fifo name s.directory
    then (
      true,
      record s {
        directory = unlink name s.directory;
        manager = record (s.manager) { current_user_pipe = some fd };
      },
    )
    else (false, record s { manager = record (s.manager) { current_user_pipe = none } })

abbrev pub is_held : ℕ → ℕ → Held → Bool
is_held from_id to_id h = h.from_id == from_id && h.to_id == to_id

unfoldable pub find_held : ℕ → ℕ → List Held → Option Held
find_held from_id to_id [] = none
find_held from_id to_id (h ∷ hs) =
    if is_held from_id to_id h then some h else find_held from_id to_id hs

unfoldable pub erase_held : ℕ → ℕ → List Held → List Held
erase_held from_id to_id [] = []
erase_held from_id to_id (h ∷ hs) =
    let rest = erase_held from_id to_id hs in if is_held from_id to_id h then rest else h ∷ rest

-- `fd` is what `open` gives.
unfoldable pub open_from_user_pipe : Option ℕ → ℕ → ℕ → UserPipes → UserPipes
open_from_user_pipe fd from_id to_id s = record s {
  user_pipe_map =
      record { from_id = from_id; to_id = to_id; fd = fd }
      ∷ erase_held from_id to_id s.user_pipe_map;
}

unfoldable pub close_from_user_pipe : ℕ → ℕ → UserPipes → Bool × UserPipes × List Call
unfolding close_known
close_from_user_pipe from_id to_id s = elim (find_held from_id to_id s.user_pipe_map) [
  | none ↦ (false, s, [])
  | some h ↦ (
    true,
    record s { user_pipe_map = erase_held from_id to_id s.user_pipe_map },
    close_known h.fd,
  )
]

-- The test of closeUserPipe on the name of a FIFO.
unfoldable pub names_user : ℕ → Bytes → Bool
names_user id name =
    str_eq (before b'_' name) (to_string id) || str_eq (behind_underscore name) (to_string id)

-- The loop of closeUserPipe: the messages that it adds, and the FIFOs that are left. `pid` is the
-- process of the user.
unfoldable pub close_user_pipe : ℕ → ℕ → List Bytes → List Message × List Bytes
close_user_pipe pid id [] = ([], [])
close_user_pipe pid id (name ∷ d) =
    let (messages, left) = close_user_pipe pid id d in
    let message : Message = record {
      pid = pid;
      kind = codes "closeFromUserPipe";
      value = before b'_' name ++ b'_' ∷ behind_underscore name;
    } in
    if names_user id name then (message ∷ messages, left) else (messages, name ∷ left)

unfoldable pub close_all_pipe : List Bytes → List Bytes
close_all_pipe d = []
