-- ===== src/Single/Samples.antt =====
-- The users of np_single_proc at a fixed state: one, with a name, and a request to bear that name too.
use nycu_csic30091_netw.Prelude.{true, false, ◌⊎◌, none, some, [], ◌∷◌, ◌≡◌, arith}
use nycu_csic30091_netw.Prelude.Bytes.{codes, str_eq_iff}
use nycu_csic30091_netw.Cxx.Map.{find}
use nycu_csic30091_netw.Cxx.TextMap.{find_text}
use nycu_csic30091_netw.Single.Names.{find_name}
use nycu_csic30091_netw.Single.Users.{User, UserManager}
use nycu_csic30091_netw.Single.Indexed.{IsIndexed}
use nycu_csic30091_netw.Single.Table.{table_of}
use nycu_csic30091_netw.Single.Requests.{Reply, leave_fd, serve, TakesOut, TableStep}
use nycu_csic30091_netw.Single.Refines.{serve-Refined}

abbrev ann : User
ann = record {
  fd = 4;
  id = 1;
  name = codes "ann";
  name_change_count = 0;
  ip_addr = codes "1.2.3.4:5";
}

abbrev one_user : UserManager
one_user = record {
  heap = (100, ann) ∷ [];
  id_user_map = (1, 100) ∷ [];
  fd_user_map = (4, 100) ∷ [];
  name_user_map = (codes "ann", 100) ∷ [];
  ip_username_map = (codes "1.2.3.4:5", []) ∷ [];
}

one_user-IsIndexed : IsIndexed one_user
unfolding find find_name find_text
one_user-IsIndexed = record {
  in_ids = λ p u h. ground arith;
  in_fds = λ p u h. ground arith;
  in_names = λ p u h n. ground (arith, h, str_eq_iff (codes "ann") u.name);
  of_id = λ id p h. (ann, ground arith, ground arith);
  of_fd = λ fd p h. (ann, ground arith, ground arith);
  of_name = λ n p f h. (ann, ground (arith, h), ground (arith, h, str_eq_iff (codes "ann") n));
  of_ip = λ ip n h. ground arith;
}

serve-Refined_example :
    ((true ≡ false)
      × TakesOut (table_of one_user) (leave_fd 4)
      × (serve true (leave_fd 4) one_user ≡ none))
    ⊎ ((answer : Reply) × (m' : UserManager) × (serve true (leave_fd 4) one_user
          ≡ some (answer, m'))
        × IsIndexed m'
        × TableStep (table_of one_user) (table_of m') (leave_fd 4) answer)
serve-Refined_example = serve-Refined true (leave_fd 4) one_user one_user-IsIndexed tt
