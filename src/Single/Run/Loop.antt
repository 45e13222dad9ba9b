-- ===== src/Single/Run/Loop.antt =====
-- The loop of SingleProcServer::run (project2/src/np_single_proc/src/SingleProcServer.cpp): what a turn
-- does for a new client, and for each client that has sent something.
use nycu_csic30091_netw.Prelude.{
  ℕ, Bool, zero, suc, Option, none, some, List, [], ◌∷◌, ◌++◌, ◌==◌, ◌>>=◌, if◌then◌else◌, take,
}
use nycu_csic30091_netw.Prelude.Bytes.{Bytes, codes}
use nycu_csic30091_netw.Cxx.Map.{find, insert, erase}
use nycu_csic30091_netw.Cxx.TextMap.{TextMap}
use nycu_csic30091_netw.Single.Server.{SingleProcServer, new_client, close_client}
use nycu_csic30091_netw.Single.Run.World.{World, Answers, Event, printed, told, called}
use nycu_csic30091_netw.Single.Run.Model.{execute}

-- `string(buf)`: the bytes up to a NUL. A buffer without a NUL is read past its end.
unfoldable pub c_string : Bytes → Option Bytes
c_string [] = none
c_string (c ∷ s) = let rest = c_string s >>= λ t. some (c ∷ t) in if c == 0 then some [] else rest

-- A carriage return at the end is dropped.
unfoldable pub without_cr : Bytes → Bytes
without_cr [] = []
without_cr (c ∷ []) = if c == 13 then [] else c ∷ []
without_cr (c ∷ d ∷ s) = c ∷ without_cr (d ∷ s)

-- `string(buf).substr(0, readSize - 1)`: a size of -1 is npos, and keeps all. `memory` is what stands in
-- all of the buffer behind the read.
unfoldable pub in_str : ℕ → Bytes → Option Bytes
in_str zero memory = do s ← c_string memory; some (without_cr s)
in_str (suc n) memory = do s ← c_string memory; some (without_cr (take n s))

-- The server and the environment of its process.
pub record State : Type 0 where
  pub server : SingleProcServer
  pub vars : TextMap

-- What the system answers for a client that is ready: how much was read, the buffer behind the read,
-- the answers for the commands of the line, and, should the client leave, whether the entry that
-- removeUserByFd erases can still be read.
pub record Ready : Type 0 where
  pub fd : ℕ
  pub read_size : ℕ
  pub memory : Bytes
  pub answers : ℕ → Answers
  pub kept : Bool

-- An accepted client: its descriptor, its address, and what `new User()` gives.
pub record Accepted : Type 0 where
  pub fd : ℕ
  pub ip_addr : Bytes
  pub user : ℕ

-- The last part of the body: a shell with its exit flag set goes, any other prints the prompt.
unfoldable pub end_line : Bool → ℕ → World → Option (State × List Event)
end_line kept fd w =
    let left = (do
      let server = record (w.server) { npshell_map = erase fd w.server.npshell_map }
      (server', texts, calls) ← close_client kept fd server
      some (
        record { server = server'; vars = w.vars },
        w.events ++ told texts ∷ called calls ∷ [],
      )) in
    let server = record (w.server) { npshell_map = insert fd w.shell w.server.npshell_map } in
    if w.shell.exit_flag
    then left
    else some (record { server = server; vars = w.vars }, w.events ++ printed (codes "% ") ∷ [])

-- The body of the loop over the descriptors.
unfoldable pub on_ready : Ready → State → Option (State × List Event)
on_ready r s = do
  shell ← find r.fd s.server.npshell_map
  let w : World = record { server = s.server; shell = shell; vars = s.vars; events = [] }
  line ← in_str r.read_size r.memory
  w' ← execute r.answers r.fd line w
  end_line r.kept r.fd w'

unfoldable pub on_accept : Accepted → State → Option (State × List Event)
on_accept a s = do
  (server, texts) ← new_client s.vars a.user a.fd a.ip_addr s.server
  some (record s { server = server }, told texts ∷ [])

unfoldable pub serve_ready : List Ready → State → Option (State × List Event)
serve_ready [] s = some (s, [])
serve_ready (r ∷ rs) s = do
  (s1, es) ← on_ready r s
  (s2, es') ← serve_ready rs s1
  some (s2, es ++ es')

-- One turn behind `select`: the master socket is first.
unfoldable pub turn : Option Accepted → List Ready → State → Option (State × List Event)
turn none rs s = serve_ready rs s
turn (some a) rs s = do
  (s1, es) ← on_accept a s
  (s2, es') ← serve_ready rs s1
  some (s2, es ++ es')
