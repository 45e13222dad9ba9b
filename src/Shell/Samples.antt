-- ===== src/Shell/Samples.antt =====
-- Runs of the remote shell at fixed inputs.
use nycu_csic30091_netw.Prelude.{ℕ, ◌-◌, ◌<◌, false, ◌≡◌, refl, arith, subst}
use nycu_csic30091_netw.Prelude.{some, List, [], ◌∷◌, length, drop, eq_of_some}
use nycu_csic30091_netw.Prelude.Bytes.{Bytes, codes, str_eq}
use nycu_csic30091_netw.Cxx.Map.{Map, find, insert}
use nycu_csic30091_netw.Cxx.Decimal.{to_string}
use nycu_csic30091_netw.Cxx.Stream.{is_space, IsWord}
use nycu_csic30091_netw.Shell.Users.Model.{id_min_from, user_line}
use nycu_csic30091_netw.Shell.Messages.Model.{message_line}
use nycu_csic30091_netw.Shell.Parser.Model.{
  Command, parse, is_operator, is_one_arg_command, is_two_arg_command,
}
use nycu_csic30091_netw.Shell.Parser.Shape.{AreParsed, parse-AreParsed}
use nycu_csic30091_netw.Shell.Parser.Printed.{text, IsLine}
use nycu_csic30091_netw.Shell.Parser.Print.{parse-text}
use nycu_csic30091_netw.Shell.Users
use nycu_csic30091_netw.Shell.Users.Model.{User, Maps, users_text, id_min, add_user}
use nycu_csic30091_netw.Shell.Users.Text.{IsUsers}
use nycu_csic30091_netw.Shell.Users.Ids.{IsLeastFree, newcomer, add_user_lem}
use nycu_csic30091_netw.Shell.Messages
use nycu_csic30091_netw.Shell.Messages.Model.{
  Message, Queue, Walk, walk, round, messages_text, add_message, tell,
}
use nycu_csic30091_netw.Shell.Messages.Text.{add_message_lem}
use nycu_csic30091_netw.Shell.Messages.Round.{round-drop, round_loses_foreign}

abbrev number_it : Command
number_it = record { command = codes "ls"; args = codes "-l" ∷ []; operators = codes "|2" ∷ [] }

abbrev show_it : Command
show_it = record { command = codes "cat"; args = []; operators = [] }

sample-IsLine : IsLine (number_it ∷ show_it ∷ [])
unfolding is_operator is_one_arg_command is_two_arg_command is_space
sample-IsLine = (
  record {
    name_word = (refl, (refl, tt));
    name_plain = refl;
    not_yell = refl;
    not_tell = refl;
    args_plain = ((refl, (refl, tt)), refl, tt);
    operators_plain = ((refl, (refl, tt)), refl, tt);
  },
  omega arith,
  record {
    name_word = (refl, (refl, (refl, tt)));
    name_plain = refl;
    not_yell = refl;
    not_tell = refl;
    args_plain = tt;
    operators_plain = tt;
  },
)

parse-text_example : parse (text (number_it ∷ show_it ∷ [])) ≡ some (number_it ∷ show_it ∷ [])
parse-text_example = parse-text (number_it ∷ show_it ∷ []) sample-IsLine

parse-AreParsed_example :
    (cs : List Command) × (parse (codes "ls | cat !3") ≡ some cs) × AreParsed cs
parse-AreParsed_example = parse-AreParsed (codes "ls | cat !3")

abbrev sample_ip : Bytes
sample_ip = codes "1.2:3"

abbrev sample_users : Map User
sample_users = (1, newcomer 50 4 sample_ip 1) ∷ []

ip-IsWord : IsWord sample_ip
unfolding is_space
ip-IsWord = (refl, (refl, (refl, (refl, (refl, tt)))))

sample-IsUsers : IsUsers sample_users
sample-IsUsers = record {
  rising = (omega arith, tt);
  plain = (refl, record { ip_word = ip-IsWord; name_plain = tt }, tt);
}

sample_fits :
    (id : ℕ)
    → id_min sample_users ≡ some id
    → length (users_text (insert id (newcomer 51 5 sample_ip id) sample_users))
      < Users.Model.shm_size
unfolding id_min users_text id_min_from find insert user_line to_string
sample_fits id e =
    subst
      (λ i.
        length (users_text (insert i (newcomer 51 5 sample_ip i) sample_users))
        < Users.Model.shm_size)
      (eq_of_some e) (omega arith)

add_user_lem_example :
    (id : ℕ) × IsLeastFree 1 id sample_users
    × (add_user 51 5 sample_ip (users_text sample_users)
        ≡ some (
          newcomer 51 5 sample_ip id,
          users_text (insert id (newcomer 51 5 sample_ip id) sample_users),
        ))
    × IsUsers (insert id (newcomer 51 5 sample_ip id) sample_users)
add_user_lem_example = add_user_lem 51 5 sample_ip sample_users sample-IsUsers ip-IsWord sample_fits

abbrev renamed : User
renamed = record (newcomer 50 4 sample_ip 1) { name = codes "ann" }

abbrev hello : ℕ → Message
hello pid = record { pid = pid; kind = codes "tell"; value = codes "hi" }

abbrev heard : Walk
heard = record { effects = tell (codes "hi") ∷ []; remove_idx = 0 ∷ []; exit_flag = false }

sample_walk : walk 7 0 (hello 7 ∷ hello 8 ∷ []) ≡ some heard
unfolding walk Messages.Model.handle str_eq
sample_walk = refl

round-drop_example :
    round 7 (hello 7 ∷ hello 8 ∷ [])
    ≡ some (heard, drop (length heard.effects) (hello 7 ∷ hello 8 ∷ []))
round-drop_example = round-drop 7 (hello 7 ∷ hello 8 ∷ []) heard sample_walk

round_loses_foreign_example :
    round 7 (hello 9 ∷ hello 7 ∷ hello 8 ∷ [])
    ≡ some (heard, drop (length heard.effects - 1) (hello 7 ∷ hello 8 ∷ []))
round_loses_foreign_example =
    round_loses_foreign 7 (hello 9) (hello 7 ∷ hello 8 ∷ []) heard (λ e. omega (arith, e))
      sample_walk (omega arith)

two_fit : length (messages_text (hello 7 ∷ hello 8 ∷ [])) < Messages.Model.shm_size
unfolding messages_text message_line to_string
two_fit = omega arith

piped :
    parse (codes "removetag test.html |2 ls -l > out")
    ≡ some (
        record {
          command = codes "removetag";
          args = codes "test.html" ∷ [];
          operators = codes "|2" ∷ [];
        }
        ∷ record { command = codes "ls"; args = codes "-l" ∷ []; operators = codes ">" ∷ [] }
        ∷ record { command = codes "out"; args = []; operators = [] }
        ∷ [])
unfolding parse
piped = refl

told :
    parse (codes "tell 3  hi | there")
    ≡ some (
        record {
          command = codes "tell";
          args = codes "3" ∷ codes "hi | there" ∷ [];
          operators = [];
        }
        ∷ [])
unfolding parse
told = refl
