-- ===== src/Single/Between.antt =====
-- What the user pipes of np_single_proc's PipeManager do.
use nycu_csic30091_netw.Prelude.{
  ℕ, true, false, ◌&&◌, ◌||◌, none, [], ◌∷◌, ◌==◌, if◌then◌else◌, ◌≡◌, arith,
}
use nycu_csic30091_netw.Shell.Pipes.Model.{Pipe, no_pipe}
use nycu_csic30091_netw.Single.Pipes.{
  UserPipeMap, PipeManager, find_user_pipe, erase_user_pipe, add_user_pipe, load_user_pipe,
  close_user_pipe,
}

pub find-erase_user_pipe :
    (a b c d : ℕ) (us : UserPipeMap)
    → find_user_pipe c d (erase_user_pipe a b us)
      ≡ (if a == c && b == d then none else find_user_pipe c d us)
unfolding find_user_pipe erase_user_pipe
find-erase_user_pipe a b c d [] = ground arith
find-erase_user_pipe a b c d (u ∷ us) = ground (arith, find-erase_user_pipe a b c d us)

-- A pipe between two users that have none is made once, is then the output of the command and cannot be
-- made again; the other one loads it once, and it is gone.
pub user_pipe_once :
    (fresh fresh' : Pipe) (a b : ℕ) (us : UserPipeMap) (m m' m'' : PipeManager)
    → find_user_pipe a b us ≡ none
    → let (made, us1, m1) = add_user_pipe fresh a b us m in
      let (again, us2, m2) = add_user_pipe fresh' a b us1 m' in
      let (loaded, us3, m3) = load_user_pipe a b us2 m'' in
      (made ≡ true)
      × (m1.new_user_pipe ≡ fresh)
      × (again ≡ false)
      × (us2 ≡ us1)
      × (m2.new_user_pipe ≡ no_pipe)
      × (loaded ≡ true)
      × (m3.current_user_pipe ≡ fresh)
      × (find_user_pipe a b us3 ≡ none)
unfolding add_user_pipe load_user_pipe find_user_pipe
user_pipe_once fresh fresh' a b us m m' m'' e =
    ground (
      arith,
      e,
      find-erase_user_pipe a b a b (record { from_id = a; to_id = b; pipe = fresh } ∷ us),
    )

-- When a user goes, the pipes from it and to it are gone, and every other one is as it was.
pub find-close_user_pipe :
    (id a b : ℕ) (us : UserPipeMap)
    → find_user_pipe a b (close_user_pipe id us).0
      ≡ (if a == id || b == id then none else find_user_pipe a b us)
unfolding find_user_pipe close_user_pipe
find-close_user_pipe id a b [] = ground arith
find-close_user_pipe id a b (u ∷ us) = ground (arith, find-close_user_pipe id a b us)
