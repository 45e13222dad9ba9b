-- ===== src/Shell/Run/Client.antt =====
-- The process of a client of np_multi_proc: the loop over its lines in MultiProcServer::run
-- (project2/src/np_multi_proc/src/MultiProcServer.cpp).
use nycu_csic30091_netw.Prelude.{ℕ, suc, Option, some, List, [], ◌∷◌, ◌≡◌, ◌>>=◌, if◌then◌else◌}
use nycu_csic30091_netw.Prelude.Bytes.{Bytes, codes}
use nycu_csic30091_netw.Cxx.TextMap.{find_text}
use nycu_csic30091_netw.Shell.Builtin.Env.{or_empty}
use nycu_csic30091_netw.Shell.Server.Model.{Shared}
use nycu_csic30091_netw.Shell.Run.World.{World, Answers, say}
use nycu_csic30091_netw.Shell.Run.Model.{execute}
use nycu_csic30091_netw.Single.Run.Loop.{without_cr}

abbrev pub symbol : Bytes
symbol = codes "% "

-- `others j` is what the other processes make of the segments and the directory before the j-th line, and
-- `os j` is what the system answers for that line.
unfoldable pub serve_lines :
    (ℕ → ℕ → Answers) → (ℕ → Shared → Shared) → ℕ → ℕ → List Bytes → World → Option World
serve_lines os others pid j [] w = some w
serve_lines os others pid j (raw ∷ lines) w = do
  w' ← execute (os j) pid (without_cr raw) (record w { shared = others j w.shared })
  let rest = serve_lines os others pid (suc j) lines (say symbol w')
  (if w'.exit_flag then some w' else rest)

-- The values of all variables are the same, a variable that is not set being as one that is empty.
abbrev pub SameVars : World → World → Type 0
SameVars w w' = (n : Bytes) → or_empty (find_text n w'.vars) ≡ or_empty (find_text n w.vars)
