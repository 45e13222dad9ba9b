-- ===== src/Socks/Firewall/Rules.antt =====
-- Firewall::isPermit against the rules that the file holds: which requests pass.
use nycu_csic30091_netw.Prelude.{ℕ, Bool, true, false, ◌&&◌, ◌≡◌, refl, arith, ◌↔◌, ◌⊎◌}
use nycu_csic30091_netw.Prelude.{Option, none, some, inl, inr, List, [], ◌∷◌, ◌++◌, ◌==◌}
use nycu_csic30091_netw.Prelude.{if◌then◌else◌, Bool-cases, map, append-nil, append_assoc}
use nycu_csic30091_netw.Prelude.Bytes.{Bytes, codes, str_eq, str_eq_iff}
use nycu_csic30091_netw.Cxx.Regex.{regex_match}
use nycu_csic30091_netw.Cxx.Stream.{fields}
use nycu_csic30091_netw.Socks.Request.{Socks4aRequest, get_dst_ip_string, get_command_string}
use nycu_csic30091_netw.Socks.Firewall.Defs.{filter_regex}
use nycu_csic30091_netw.Socks.Firewall.Wildcard.{AllPlain, Covers, items_of, compile-filter_regex}
use nycu_csic30091_netw.Socks.Firewall.Wildcard.{regex_match_filter_iff}
use nycu_csic30091_netw.Socks.Firewall.Model.{Firewall, fresh_firewall, read_rule, add_rule}
use nycu_csic30091_netw.Socks.Firewall.Model.{add_lines, load_config_file, match_any, is_permit}

-- The filters of the `permit` rules of one kind, in the order of the file.
abbrev pub filters_of : Bytes → List Bytes → List Bytes
filters_of kind [] = []
filters_of kind (l ∷ ls) =
    let r = read_rule l in
    let rest = filters_of kind ls in
    if str_eq r.permit (codes "permit") && str_eq r.kind kind then r.filter_string ∷ rest else rest

-- Some element of the list has the property.
abbrev pub Any : (Bytes → Type 0) → List Bytes → Type 0
Any P [] = ⊥
Any P (x ∷ xs) = P x ⊎ Any P xs

abbrev pub AllFilters : (Bytes → Type 0) → List Bytes → Type 0
AllFilters P [] = Unit {0}
AllFilters P (x ∷ xs) = P x × AllFilters P xs

b_ne_c : (k : Bytes) → str_eq k (codes "b") ≡ true → str_eq k (codes "c") ≡ false
b_ne_c k h = rw ((str_eq_iff k (codes "b")).0 h) (unfold str_eq in refl)

connect-add_lines :
    (fw : Firewall) (ls : List Bytes)
    → (add_lines fw ls).connect_ip_filters
      ≡ fw.connect_ip_filters ++ map filter_regex (filters_of (codes "c") ls)
unfolding add_lines add_rule
connect-add_lines fw [] = ground (arith, append-nil fw.connect_ip_filters)
connect-add_lines fw (l ∷ ls) = ground (
  arith,
  connect-add_lines (add_rule fw (read_rule l)) ls,
  append_assoc fw.connect_ip_filters (filter_regex (read_rule l).filter_string ∷ [])
      (map filter_regex (filters_of (codes "c") ls)),
)

bind-add_lines :
    (fw : Firewall) (ls : List Bytes)
    → (add_lines fw ls).bind_ip_filters
      ≡ fw.bind_ip_filters ++ map filter_regex (filters_of (codes "b") ls)
unfolding add_lines add_rule
bind-add_lines fw [] = ground (arith, append-nil fw.bind_ip_filters)
bind-add_lines fw (l ∷ ls) = ground (
  arith,
  bind-add_lines (add_rule fw (read_rule l)) ls,
  b_ne_c (read_rule l).kind,
  append_assoc fw.bind_ip_filters (filter_regex (read_rule l).filter_string ∷ [])
      (map filter_regex (filters_of (codes "b") ls)),
)

-- Over plain filters the loop over the patterns answers, and answers whether one covers the address.
match_any_answers :
    (fs : List Bytes) (ip : Bytes)
    → AllFilters AllPlain fs
    → (b : Bool) × (match_any (map filter_regex fs) ip ≡ some b)
unfolding match_any
match_any_answers [] ip h = (false, refl)
match_any_answers (f ∷ fs) ip h =
    rw (compile-filter_regex f h.0) (elim (Bool-cases (regex_match (items_of f) ip)) [
      | inl e ↦ (true, rw e)
      | inr e ↦ rw e (match_any_answers fs ip h.1)
    ])

match_any_iff :
    (fs : List Bytes) (ip : Bytes)
    → AllFilters AllPlain fs
    → (match_any (map filter_regex fs) ip ≡ some true) ↔ Any (λ f. Covers f ip) fs
unfolding match_any
match_any_iff [] ip h = (λ e. cc, λ e. elim e [ ])
match_any_iff (f ∷ fs) ip h =
    rw (compile-filter_regex f h.0) (elim (Bool-cases (regex_match (items_of f) ip)) [
      | inl e ↦ rw e (λ _. inl ((regex_match_filter_iff f ip).0 e), λ _. refl)
      | inr e ↦ rw e (
        λ d. inr ((match_any_iff fs ip h.1).0 d),
        elim [
          | inl d ↦ cc (e, (regex_match_filter_iff f ip).1 d)
          | inr d ↦ (match_any_iff fs ip h.1).1 d
        ],
      )
    ])

-- The kind of rule that a command is held against: `c` for CONNECT (1), `b` for BIND (2).
abbrev pub kind_of : ℕ → Option Bytes
kind_of cd = if cd == 1 then some (codes "c") else if cd == 2 then some (codes "b") else none

abbrev match_kind : Option Bytes → List Bytes → Bytes → Option Bool
match_kind none ls ip = some false
match_kind (some kind) ls ip = match_any (map filter_regex (filters_of kind ls)) ip

is_permit-match_kind :
    (content : Bytes) (r : Socks4aRequest)
    → (is_permit fresh_firewall (some content) r).0
      ≡ match_kind (kind_of r.cd) (fields 10 content) (get_dst_ip_string r)
unfolding is_permit load_config_file get_command_string str_eq
is_permit-match_kind content r =
    let ls = fields 10 content in
    elim (Bool-cases (r.cd == 1)) [
      | inl e ↦ rw (e, kind_of) (rw (connect-add_lines fresh_firewall ls))
      | inr e ↦
          rw (e, kind_of)
            (elim (Bool-cases (r.cd == 2)) [
              | inl e' ↦ rw e' (rw (bind-add_lines fresh_firewall ls))
              | inr e' ↦ rw e'
            ])
    ]

-- For a firewall that has no rules yet: a CONNECT or BIND request is permitted exactly if a
-- `permit` rule of its kind in the file covers its address, where the filters of these rules hold
-- no operator but `*` and `.`.
pub is_permit_iff :
    (content kind : Bytes) (r : Socks4aRequest)
    → kind_of r.cd ≡ some kind
    → AllFilters AllPlain (filters_of kind (fields 10 content))
    → ((is_permit fresh_firewall (some content) r).0 ≡ some true)
      ↔ Any (λ f. Covers f (get_dst_ip_string r)) (filters_of kind (fields 10 content))
is_permit_iff content kind r e h =
    rw (is_permit-match_kind content r)
      (rw e (match_any_iff (filters_of kind (fields 10 content)) (get_dst_ip_string r) h))

-- A request with another command, and any request when the file cannot be opened, is refused.
pub is_permit_refuses :
    (fw : Firewall) (file : Option Bytes) (r : Socks4aRequest)
    → (kind_of r.cd ≡ none) ⊎ (file ≡ none)
    → (is_permit fw file r).0 ≡ some false
unfolding is_permit load_config_file get_command_string str_eq
is_permit_refuses fw none r h = refl
is_permit_refuses fw (some content) r (inl e) = ground arith
is_permit_refuses fw (some content) r (inr e) = cc

-- Over plain filters a verdict is always reached.
pub is_permit_answers :
    (content kind : Bytes) (r : Socks4aRequest)
    → kind_of r.cd ≡ some kind
    → AllFilters AllPlain (filters_of kind (fields 10 content))
    → (b : Bool) × ((is_permit fresh_firewall (some content) r).0 ≡ some b)
is_permit_answers content kind r e h =
    let (b, run) =
      match_any_answers (filters_of kind (fields 10 content)) (get_dst_ip_string r) h in
    (b, rw (is_permit-match_kind content r) (rw e run))
