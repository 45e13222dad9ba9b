-- ===== src/Single/Run/Turns.antt =====
-- The turns of np_single_proc's server, one behind the other.
use nycu_csic30091_netw.Prelude.{
  ℕ, Bool, true, false, ◌⊎◌, Option, none, some, List, [], ◌∷◌, ◌++◌, ◌≡◌, ◌≢◌, refl, inl, inr,
  Bool-cases, arith,
}
use nycu_csic30091_netw.Prelude.Bytes.{Bytes, codes}
use nycu_csic30091_netw.Cxx.Map.{find, insert, erase, find-insert}
use nycu_csic30091_netw.Shell.Parser.Model.{Command, parse}
use nycu_csic30091_netw.Single.Users.{no_users}
use nycu_csic30091_netw.Single.Indexed.{no_users-IsIndexed}
use nycu_csic30091_netw.Single.Pipes.{find_user_pipe}
use nycu_csic30091_netw.Single.Server.{SingleProcServer, NpShell}
use nycu_csic30091_netw.Single.Left.{unread}
use nycu_csic30091_netw.Single.Run.Model.{execute}
use nycu_csic30091_netw.Single.Run.World.{World, Event, printed, told, called}
use nycu_csic30091_netw.Single.Run.Loop.{
  State, Ready, Accepted, in_str, end_line, on_ready, on_accept, serve_ready, turn,
}
use nycu_csic30091_netw.Single.Run.Sound.{IsSound, IsLive, is_some, is_some-elim, has_fd, owner}
use nycu_csic30091_netw.Single.Run.Lines.{AreAsked, execute_ends}
use nycu_csic30091_netw.Single.Run.Clients.{new_client-IsSound, close_client-IsSound}

-- The buffer holds a NUL, and in the line that is taken out of it each `name` has an argument, and each
-- `tell` a number.
abbrev pub IsAsked : Ready → Type 0
IsAsked r =
    (line : Bytes) × (in_str r.read_size r.memory ≡ some line)
    × ((cs : List Command) → parse line ≡ some cs → AreAsked cs)

abbrev pub IsNone : ℕ → List Ready → Type 0
IsNone fd [] = Unit {0}
IsNone fd (r ∷ rs) = (fd ≢ r.fd) × IsNone fd rs

-- Clients that are there, each once.
abbrev pub AreReady : List Ready → SingleProcServer → Type 0
AreReady [] s = Unit {0}
AreReady (r ∷ rs) s = IsLive r.fd s × IsAsked r × IsNone r.fd rs × AreReady rs s

-- No one, or a client with an address that holds no object and a descriptor that no user has.
abbrev pub IsAccepted : Option Accepted → SingleProcServer → Type 0
IsAccepted none s = Unit {0}
IsAccepted (some a) s =
    (find a.user s.user_manager.heap ≡ none) × (find a.fd s.user_manager.fd_user_map ≡ none)

pub AreReady-kept :
    (fd : ℕ) (rs : List Ready) (s s' : SingleProcServer)
    → ((j : ℕ) → fd ≢ j → IsLive j s → IsLive j s')
    → IsNone fd rs
    → AreReady rs s
    → AreReady rs s'
AreReady-kept fd [] s s' k n a = tt
AreReady-kept fd (r ∷ rs) s s' k n a =
    (k r.fd n.0 a.0, a.1, a.2, AreReady-kept fd rs s s' k n.1 a.3)

AreReady-more :
    (rs : List Ready) (s s' : SingleProcServer)
    → ((j : ℕ) → IsLive j s → IsLive j s')
    → AreReady rs s
    → AreReady rs s'
AreReady-more [] s s' k a = tt
AreReady-more (r ∷ rs) s s' k a = (k r.fd a.0, a.1, a.2, AreReady-more rs s s' k a.3)

-- The line of a client sets the exit flag of its shell, and the entry of its user, once it is erased,
-- cannot be read.
abbrev pub LeavesUnread : Ready → State → Type 0
LeavesUnread r s =
    (r.kept ≡ false)
    × (shell : NpShell) × (line : Bytes) × (w' : World) × (find r.fd s.server.npshell_map
        ≡ some shell)
    × (in_str r.read_size r.memory ≡ some line)
    × (execute r.answers r.fd line
          (record { server = s.server; shell = shell; vars = s.vars; events = [] })
        ≡ some w')
    × (w'.shell.exit_flag ≡ true)

-- The first client to leave so is reached by the loop.
abbrev pub StopsUnread : List Ready → State → Type 0
StopsUnread [] s = ⊥
StopsUnread (r ∷ rs) s =
    LeavesUnread r s
    ⊎ ((s1 : State) × (es : List Event) × (on_ready r s ≡ some (s1, es)) × StopsUnread rs s1)

-- The same for a turn.
abbrev pub TurnUnread : Option Accepted → List Ready → State → Type 0
TurnUnread none rs s = StopsUnread rs s
TurnUnread (some a) rs s =
    (s1 : State) × (es : List Event) × (on_accept a s ≡ some (s1, es)) × StopsUnread rs s1

-- A call that comes back, with a sound server.
abbrev Comes : Option (State × List Event) → (SingleProcServer → Type 0) → Type 0
Comes o P = (s' : State) × (es : List Event) × (o ≡ some (s', es)) × IsSound s'.server × P s'.server

-- The shell of a client that stays is put back.
stayed-Comes :
    (kept : Bool) (fd : ℕ) (w : World)
    → IsSound w.server
    → IsLive fd w.server
    → w.shell.exit_flag ≡ false
    → Comes (end_line kept fd w) (λ s'. (j : ℕ) → fd ≢ j → IsLive j w.server → IsLive j s')
unfolding end_line
stayed-Comes kept fd w v l e =
    let s' : SingleProcServer = record (w.server) {
      npshell_map = insert fd w.shell w.server.npshell_map;
    } in
    let stays : (j : ℕ) → is_some (find j s'.npshell_map) ≡ is_some (find j w.server.npshell_map) =
      λ j. ground (arith, l, find-insert fd j w.shell w.server.npshell_map) in
    (
      record { server = s'; vars = w.vars },
      w.events ++ printed (codes "% ") ∷ [],
      rw e refl,
      record {
        indexed = v.indexed;
        ordered = v.ordered;
        piped = v.piped;
        shells = λ j. rw (stays j) (v.shells j);
        active = v.active;
      },
      λ j n m. rw (stays j) m,
    )

end_line-Comes :
    (kept : Bool) (fd : ℕ) (w : World)
    → IsSound w.server
    → IsLive fd w.server
    → ((kept ≡ false) × (w.shell.exit_flag ≡ true) × (end_line kept fd w ≡ none))
      ⊎ Comes (end_line kept fd w) (λ s'. (j : ℕ) → fd ≢ j → IsLive j w.server → IsLive j s')
unfolding end_line
end_line-Comes kept fd w v l = elim (Bool-cases w.shell.exit_flag) [
  | inr e ↦ inr (stayed-Comes kept fd w v l e)
  | inl e ↦ elim (Bool-cases kept) [
    | inr gone ↦
        let (p, u, at, h, same) = owner fd w.server v l in
        let s = record (w.server) { npshell_map = erase fd w.server.npshell_map } in
        inl (gone, e, rw (e, end_line) (rw gone (rw (unread fd p u s at h) refl)))
    | inl there ↦
        let (s', texts, calls, run, v', k) = close_client-IsSound fd w.server v l in
        inr (
          record { server = s'; vars = w.vars },
          w.events ++ told texts ∷ called calls ∷ [],
          rw (e, end_line) (rw there (rw run refl)),
          v',
          k,
        )
  ]
]

on_ready-Comes :
    (r : Ready) (s : State)
    → IsSound s.server
    → IsLive r.fd s.server
    → IsAsked r
    → (LeavesUnread r s × (on_ready r s ≡ none))
      ⊎ Comes (on_ready r s) (λ s'. (j : ℕ) → r.fd ≢ j → IsLive j s.server → IsLive j s')
unfolding on_ready
on_ready-Comes r s v l (line, taken, h) =
    let (shell, e) = is_some-elim (find r.fd s.server.npshell_map) l in
    let w : World = record { server = s.server; shell = shell; vars = s.vars; events = [] } in
    let (w', run, k) = execute_ends r.answers r.fd line w v l h in
    elim (end_line-Comes r.kept r.fd w' k.0 (rw k.1 l)) [
      | inl (gone, exits, stuck) ↦
          inl ((gone, shell, line, w', e, taken, run, exits), rw (e, taken) (rw run stuck))
      | inr (s', es, run', v', k') ↦
          inr (s', es, rw (e, taken) (rw run run'), v', λ j n m. k' j n (rw k.1 m))
    ]

serve_ready-Comes :
    (rs : List Ready) (s : State)
    → IsSound s.server
    → AreReady rs s.server
    → (StopsUnread rs s × (serve_ready rs s ≡ none)) ⊎ Comes (serve_ready rs s) (λ s'. Unit {0})
unfolding serve_ready
serve_ready-Comes [] s v a = inr (s, [], refl, v, tt)
serve_ready-Comes (r ∷ rs) s v a = elim (on_ready-Comes r s v a.0 a.1) [
  | inl (left, stuck) ↦ inl (inl left, rw stuck refl)
  | inr (s1, es, run, v1, k) ↦
      elim (serve_ready-Comes rs s1 v1 (AreReady-kept r.fd rs s.server s1.server k a.2 a.3)) [
        | inl (later, stuck) ↦ inl (inr (s1, es, run, later), rw (run, stuck) refl)
        | inr (s2, es', run', v2, _) ↦ inr (s2, es ++ es', rw (run, run') refl, v2, tt)
      ]
]

-- A turn of the loop in a sound server, with at most one new client, whose user gets an address that
-- holds no object and who has a descriptor of no user, and with lines of clients that are there, of
-- each at most one, out of buffers that hold a NUL, in which each `name` has an argument and each `tell`
-- a number. Whatever else the system answers, either the turn comes to its end with no read through a
-- pointer that leads nowhere, the erased entries of those who left still holding what they held, and the
-- server is sound again. Or the loop reaches a client whose line sets its exit flag and whose entry in the
-- map cannot be read any more behind its erase, and the program reads it all the same, so that there is no
-- result.
pub turn_ends :
    (a : Option Accepted) (rs : List Ready) (s : State)
    → IsSound s.server
    → IsAccepted a s.server
    → AreReady rs s.server
    → (TurnUnread a rs s × (turn a rs s ≡ none))
      ⊎ ((s' : State) × (es : List Event) × (turn a rs s ≡ some (s', es)) × IsSound s'.server)
unfolding turn on_accept
turn_ends none rs s v n h = elim (serve_ready-Comes rs s v h) [
  | inl stuck ↦ inl stuck
  | inr (s', es, run, v', _) ↦ inr (s', es, run, v')
]
turn_ends (some a) rs s v n h =
    let (server, texts, run, v1, k) =
      new_client-IsSound s.vars a.user a.fd a.ip_addr s.server v n.0 n.1 in
    let s1 : State = record s { server = server } in
    elim (serve_ready-Comes rs s1 v1 (AreReady-more rs s.server server k h)) [
      | inl (later, stuck) ↦ inl ((s1, told texts ∷ [], rw run refl, later), rw (run, stuck) refl)
      | inr (s2, es', run', v2, _) ↦ inr (s2, (told texts ∷ []) ++ es', rw (run, run') refl, v2)
    ]

abbrev pub no_clients : SingleProcServer
no_clients = record {
  user_manager = no_users;
  user_pipe_map = [];
  active_fds = [];
  npshell_map = [];
}

pub no_clients-IsSound : IsSound no_clients
unfolding find find_user_pipe has_fd
no_clients-IsSound = record {
  indexed = no_users-IsIndexed;
  ordered = tt;
  piped = λ a b p e. cc;
  shells = λ fd. refl;
  active = λ fd. refl;
}
