-- ===== src/Shell/Builtin/Tell.antt =====
-- What `tell` does to the queue of messages.
use nycu_csic30091_netw.Prelude.{false, List, []}
use nycu_csic30091_netw.Prelude.Bytes.{Bytes}
use nycu_csic30091_netw.Cxx.Map.{Map}
use nycu_csic30091_netw.Shell.Users.Model.{User, users_text}
use nycu_csic30091_netw.Shell.Messages.Model.{Queue, messages_text}
use nycu_csic30091_netw.Shell.Builtin.Model.{Context}

abbrev pub context_of : Map User → Queue → List Bytes → Context
context_of m q d = record {
  shared = record { users = users_text m; messages = messages_text q; directory = d };
  env_map = [];
  exit_flag = false;
}
