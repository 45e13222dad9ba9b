-- ===== src/Shell/Parser/Model.antt =====
-- Parser::parse of project2/src/np_multi_proc/src/Parser.cpp. The same file stands in np_single_proc.
use nycu_csic30091_netw.Prelude.{ℕ, zero, suc, ◌+◌, Bool, true, false, Option, none, some}
use nycu_csic30091_netw.Prelude.{List, [], ◌∷◌, ◌++◌, if◌then◌else◌, ◌>>=◌, length}
use nycu_csic30091_netw.Prelude.Bytes.{Bytes, codes, str_eq}
use nycu_csic30091_netw.Cxx.Regex.{compile, regex_match}
use nycu_csic30091_netw.Cxx.Stream.{read_word, word_or_empty, skip_ws, before, after}

pub record Command : Type 0 where
  pub command : Bytes
  pub args : List Bytes
  pub operators : List Bytes

abbrev pub operator_types : List Bytes
operator_types =
    codes "\\|"
    ∷ codes "\\|[1-9][0-9]*"
    ∷ codes "\\![1-9][0-9]*"
    ∷ codes "<[1-9][0-9]*"
    ∷ codes ">[1-9][0-9]*"
    ∷ codes ">"
    ∷ []

abbrev pub one_arg_commands : List Bytes
one_arg_commands = codes "yell" ∷ []

abbrev pub two_arg_commands : List Bytes
two_arg_commands = codes "tell" ∷ []

-- The loop of isOperator, isOneArgCommand and isTwoArgCommand over their patterns.
unfoldable pub matches_any : List Bytes → Bytes → Bool
unfolding compile regex_match
matches_any [] token = false
matches_any (pat ∷ pats) token =
    let rest = matches_any pats token in
    elim (compile pat) [ none ↦ rest | some items ↦ if regex_match items token then true else rest ]

unfoldable pub is_operator : Bytes → Bool
unfolding matches_any
is_operator token = matches_any operator_types token

unfoldable pub is_one_arg_command : Bytes → Bool
unfolding matches_any
is_one_arg_command command = matches_any one_arg_commands command

unfoldable pub is_two_arg_command : Bytes → Bool
unfolding matches_any
is_two_arg_command command = matches_any two_arg_commands command

-- The local variables of `parse`; `new_command` is the field `command` of newCommand.
pub record State : Type 0 where
  pub command : Bytes
  pub operators : List Bytes
  pub args : List Bytes
  pub new_command : Bytes
  pub commands : List Command

abbrev pub init : State
init = record { command = []; operators = []; args = []; new_command = []; commands = [] }

abbrev pub pending : State → Command
pending st = record { command = st.new_command; args = st.args; operators = st.operators }

-- The command that is being read, if any, goes to the result.
unfoldable pub flush : State → State
flush st = if str_eq st.new_command [] then st else record st {
  commands = st.commands ++ pending st ∷ [];
  new_command = [];
  args = [];
  operators = [];
}

unfoldable pub on_operator : Bytes → State → State
on_operator token st = record st { operators = st.operators ++ token ∷ []; command = [] }

unfoldable pub on_argument : Bytes → State → State
on_argument token st = record st { args = st.args ++ token ∷ [] }

-- A word where a command is due; `yell` and `tell` take the rest of the line as it stands.
unfoldable pub on_command : Bytes → Bytes → State → Bytes × State
on_command token rest st =
    let st' = record (flush st) { command = token; new_command = token } in
    if is_one_arg_command token
    then (after 10 (skip_ws rest), record st' { args = st'.args ++ before 10 (skip_ws rest) ∷ [] })
    else if is_two_arg_command token
    then (let (arg1, rest') = word_or_empty rest in
        (
          after 10 (skip_ws rest'),
          record st' { args = st'.args ++ arg1 ∷ before 10 (skip_ws rest') ∷ [] },
        ))
    else (rest, st')

-- The body of the loop: what is left of the stream, and the new state.
unfoldable pub body : Bytes → Bytes → State → Bytes × State
body token rest st =
    if is_operator token
    then (rest, on_operator token st)
    else if str_eq st.command []
    then on_command token rest st
    else (rest, on_argument token st)

-- `while (iss >> token)`; `none` means that the fuel ran out.
unfoldable pub loop : ℕ → Bytes → State → Option State
loop zero s st = none
loop (suc f) s st = elim (read_word s) [
  | none ↦ some st
  | some (token, rest) ↦ let (rest', st') = body token rest st in loop f rest' st'
]

unfoldable pub parse : Bytes → Option (List Command)
unfolding loop flush read_word body is_operator on_operator on_argument on_command str_eq
    is_one_arg_command is_two_arg_command skip_ws before after word_or_empty
parse s = do st ← loop (length s + 1) s init; some (flush st).commands
