-- ===== src/Socks/Firewall/Model.antt =====
-- The Firewall class of project4/src/socksServer/src/Firewall.cpp.
use nycu_csic30091_netw.Socks.Firewall.Defs.{filter_regex}
use nycu_csic30091_netw.Prelude.{Bool, true, false, not, Option, none, some}
use nycu_csic30091_netw.Prelude.{List, [], ◌∷◌, ◌++◌, if◌then◌else◌, ◌>>=◌}
use nycu_csic30091_netw.Prelude.Bytes.{Bytes, codes, str_eq}
use nycu_csic30091_netw.Cxx.Regex.{compile, regex_match}
use nycu_csic30091_netw.Cxx.Stream.{fields, word_or_empty}
use nycu_csic30091_netw.Socks.Request.{Socks4aRequest, get_dst_ip_string, get_command_string}

pub record Firewall : Type 0 where
  pub connect_ip_filters : List Bytes
  pub bind_ip_filters : List Bytes

-- Firewall(configFilename); the file itself is an argument of `is_permit`.
abbrev pub fresh_firewall : Firewall
fresh_firewall = record { connect_ip_filters = []; bind_ip_filters = [] }

-- `issLine >> permit >> type >> filterString`
pub record Rule : Type 0 where
  pub permit : Bytes
  pub kind : Bytes
  pub filter_string : Bytes

unfoldable pub read_rule : Bytes → Rule
unfolding word_or_empty
read_rule line =
    let (p, rest) = word_or_empty line in
    let (k, rest') = word_or_empty rest in
    let (f, rest'') = word_or_empty rest' in record { permit = p; kind = k; filter_string = f }

-- The body of the loop over the lines of the file.
unfoldable pub add_rule : Firewall → Rule → Firewall
unfolding filter_regex str_eq
add_rule fw r =
    if not (str_eq r.permit (codes "permit"))
    then fw
    else if str_eq r.kind (codes "c")
    then record fw {
      connect_ip_filters = fw.connect_ip_filters ++ filter_regex r.filter_string ∷ [];
    }
    else if str_eq r.kind (codes "b")
    then record fw { bind_ip_filters = fw.bind_ip_filters ++ filter_regex r.filter_string ∷ [] }
    else fw

unfoldable pub add_lines : Firewall → List Bytes → Firewall
unfolding add_rule read_rule
add_lines fw [] = fw
add_lines fw (l ∷ ls) = add_lines (add_rule fw (read_rule l)) ls

-- `none` is a file that cannot be opened.
unfoldable pub load_config_file : Firewall → Option Bytes → Bool × Firewall
unfolding add_lines fields
load_config_file fw none = (false, fw)
load_config_file fw (some content) = (true, add_lines fw (fields 10 content))

-- The loop over the filters; `none` is a filter outside the modelled regular expressions.
unfoldable pub match_any : List Bytes → Bytes → Option Bool
unfolding compile regex_match
match_any [] ip = some false
match_any (f ∷ fs) ip = do
  items ← compile f
  let rest = match_any fs ip
  if regex_match items ip then some true else rest

unfoldable pub is_permit : Firewall → Option Bytes → Socks4aRequest → Option Bool × Firewall
unfolding load_config_file match_any get_dst_ip_string get_command_string str_eq
is_permit fw file request =
    let (loaded, fw') = load_config_file fw file in
    (
      if not loaded
          then some false
          else if str_eq (get_command_string request) (codes "CONNECT")
          then match_any fw'.connect_ip_filters (get_dst_ip_string request)
          else if str_eq (get_command_string request) (codes "BIND")
          then match_any fw'.bind_ip_filters (get_dst_ip_string request)
          else some false,
      fw',
    )
