-- ===== src/Simple/Parser.antt =====
-- Parser::parse of project2/src/np_simple/src/Parser.cpp: the commands and the operators between them.
use nycu_csic30091_netw.Prelude.{
  ℕ, zero, suc, ◌+◌, ◌&&◌, Bool, Option, none, some, List, [], ◌∷◌, ◌++◌, if◌then◌else◌, ◌>>=◌,
  length,
}
use nycu_csic30091_netw.Prelude.Bytes.{Bytes, codes, str_eq}
use nycu_csic30091_netw.Cxx.Stream.{read_word}
use nycu_csic30091_netw.Shell.Parser.Model.{matches_any}

abbrev pub operator_types : List Bytes
operator_types = codes "\\|" ∷ codes "\\|[1-9][0-9]*" ∷ codes "\\![1-9][0-9]*" ∷ codes ">" ∷ []

unfoldable pub is_operator : Bytes → Bool
is_operator token = matches_any operator_types token

pub record ParseResult : Type 0 where
  pub commands : List (Bytes × List Bytes)
  pub operators : List Bytes
  pub error_message : Bytes

-- The local variables of `parse`.
pub record State : Type 0 where
  pub command : Bytes
  pub args : List Bytes
  pub result : ParseResult

abbrev pub init : State
init = record {
  command = [];
  args = [];
  result = record { commands = []; operators = []; error_message = [] };
}

-- The last branches of the loop: the state behind a token that is no error.
unfoldable pub body : Bytes → State → State
body token st =
    if is_operator token
    then record {
      command = [];
      args = [];
      result = record (st.result) {
        operators = st.result.operators ++ token ∷ [];
        commands = st.result.commands ++ (st.command, st.args) ∷ [];
      };
    }
    else if str_eq st.command []
    then record st { command = token }
    else record st { args = st.args ++ token ∷ [] }

abbrev pub stopped : State → State
stopped st = record st {
  result = record (st.result) { error_message = codes "Error! operator before command." };
}

-- `while (iss >> token)`, left at an operator with no command before it; `none` means that the fuel ran
-- out.
unfoldable pub loop : ℕ → Bytes → State → Option State
loop zero s st = none
loop (suc f) s st = elim (read_word s) [
  | none ↦ some st
  | some (token, rest) ↦
      let more = loop f rest (body token st) in
      if is_operator token && str_eq st.command [] then some (stopped st) else more
]

unfoldable pub finish : State → ParseResult
finish st =
    if str_eq st.result.error_message []
    then (if str_eq st.command []
        then st.result
        else record (st.result) { commands = st.result.commands ++ (st.command, st.args) ∷ [] })
    else record (st.result) { commands = []; operators = [] }

unfoldable pub parse : Bytes → Option ParseResult
parse s = do st ← loop (length s + 1) s init; some (finish st)
