-- ===== src/Console/Reach.antt =====
-- A console session under any answers of the system: the operations that are started at a time.
use nycu_csic30091_netw.Prelude.{
  ℕ, Bool, true, false, not, ◌&&◌, Option, none, some, List, [], ◌∷◌, ◌++◌, ◌≡◌, refl, arith, ap,
  sym, ◌∙◌, append-nil, eq_of_some, subst, Bool-cases, inl, inr,
}
use nycu_csic30091_netw.Prelude.Bytes.{Bytes}
use nycu_csic30091_netw.Socks.Response.{reply_accepts}
use nycu_csic30091_netw.Console.Told.{pages}
use nycu_csic30091_netw.Console.Session.{
  Op, Answer, ConsoleSession, resolve, connect, write_socks4, read_socks4, read, write, failed,
  resolved, done, got, add_output, exit_session, start, complete, on_read, on_write, on_resolve,
  on_connect, on_write_socks4, on_read_socks4, do_write,
}
use nycu_csic30091_netw.Console.Record.{
  IsShown, on_read-IsShown, on_write-IsShown, given_up-IsShown, ends-IsShown,
}

-- Not a connection with endpoints left.
abbrev pub is_calm : Op → Bool
is_calm (connect (_ ∷ _)) = false
is_calm _ = true

-- An answer of the resolver has one endpoint.
abbrev pub is_single : Answer → Bool
is_single (resolved (_ ∷ _ ∷ _)) = false
is_single _ = true

-- At most one operation, and none behind the end.
abbrev pub fits : Bool → List Op → Bool
fits ended [] = true
fits ended (op ∷ []) = not ended && is_calm op
fits ended _ = false

pub record Running : Type 0 where
  pub session : ConsoleSession
  pub pending : List Op

-- Any operation that is started ends in any way.
pub data Step : Running → Running → Type 0 where
  completed :
      (front back new : List Op) (op : Op) (a : Answer) (r r' : Running)
      → r.pending ≡ front ++ op ∷ back
      → is_single a ≡ true
      → complete op a r.session ≡ some (r'.session, new)
      → r'.pending ≡ front ++ (new ++ back)
      → Step r r'

pub data Reach (r : Running) : Running → Type 0 where
  here : Reach r r
  there : (r1 r2 : Running) → Reach r r1 → Step r1 r2 → Reach r r2

do_write-fits :
    (s s' : ConsoleSession) (new : List Op)
    → do_write s ≡ some (s', new)
    → (s'.exit ≡ s.exit) × (s'.is_open ≡ s.is_open) × (fits false new ≡ true)
unfolding do_write
do_write-fits s s' new e = ground arith

on_read-fits :
    (a : Answer) (s s' : ConsoleSession) (new : List Op)
    → s.exit ≡ false
    → on_read a s ≡ some (s', new)
    → (fits s'.exit new ≡ true) × (s'.exit && s'.is_open ≡ false)
unfolding on_read exit_session add_output
on_read-fits a s s' new n e = grind (arith, do_write-fits)

complete-fits :
    (op : Op) (a : Answer) (s s' : ConsoleSession) (new : List Op)
    → is_calm op ≡ true
    → is_single a ≡ true
    → s.exit ≡ false
    → complete op a s ≡ some (s', new)
    → (fits s'.exit new ≡ true) × (s'.exit && s'.is_open ≡ false)
unfolding complete on_resolve on_connect on_write_socks4 on_read_socks4 on_write exit_session
    add_output
complete-fits resolve a s s' new c o n e = ground arith
complete-fits (connect rest) a s s' new c o n e = ground arith
complete-fits (write_socks4 q) a s s' new c o n e = ground arith
complete-fits read_socks4 a s s' new c o n e = ground arith
complete-fits read a s s' new c o n e = on_read-fits a s s' new n e
complete-fits (write sent text) a s s' new c o n e = ground arith

complete-IsShown :
    (page : Bytes) (id : ℕ) (op : Op) (a : Answer) (s s' : ConsoleSession) (new : List Op)
    → IsShown page id s
    → complete op a s ≡ some (s', new)
    → IsShown page id s'
unfolding complete on_resolve on_connect on_write_socks4 on_read_socks4
complete-IsShown page id resolve (failed x) s s' new h e =
    ends-IsShown page id _ s' _ new e (given_up-IsShown page id _ s h)
complete-IsShown page id resolve (resolved []) s s' new h e = cc
complete-IsShown page id resolve (resolved (p ∷ ps)) s s' new h e =
    ends-IsShown page id _ s' _ new e (record { same_id = h.same_id; shows = h.shows })
complete-IsShown page id resolve done s s' new h e = cc
complete-IsShown page id resolve (got b) s s' new h e = cc
complete-IsShown page id (connect ps) (failed x) s s' new h e =
    ends-IsShown page id _ s' _ new e (given_up-IsShown page id _ s h)
complete-IsShown page id (connect []) done s s' new h e = ends-IsShown page id s s' _ new e h
complete-IsShown page id (connect (p ∷ ps)) done s s' new h e = ends-IsShown page id s s' _ new e h
complete-IsShown page id (connect ps) (got b) s s' new h e = ground (arith, e)
complete-IsShown page id (connect ps) (resolved es) s s' new h e = ground (arith, e)
complete-IsShown page id (write_socks4 q) (failed x) s s' new h e =
    ends-IsShown page id _ s' _ new e (given_up-IsShown page id _ s h)
complete-IsShown page id (write_socks4 q) done s s' new h e = ends-IsShown page id s s' _ new e h
complete-IsShown page id (write_socks4 q) (got b) s s' new h e = cc
complete-IsShown page id (write_socks4 q) (resolved es) s s' new h e = cc
complete-IsShown page id read_socks4 (failed x) s s' new h e =
    ends-IsShown page id _ s' _ new e (given_up-IsShown page id _ s h)
complete-IsShown page id read_socks4 (got b) s s' new h e =
    elim (Bool-cases (reply_accepts (b ++ 0 ∷ 0 ∷ []))) [
      | inl p ↦ ends-IsShown page id s s' (read ∷ []) new (ground (arith, p, e)) h
      | inr p ↦
          ends-IsShown page id (record s { is_open = false }) s' [] new (ground (arith, p, e))
            (record { same_id = h.same_id; shows = h.shows })
    ]
complete-IsShown page id read_socks4 done s s' new h e = cc
complete-IsShown page id read_socks4 (resolved es) s s' new h e = cc
complete-IsShown page id read a s s' new h e = on_read-IsShown page id a s s' new h e
complete-IsShown page id (write sent text) a s s' new h e =
    on_write-IsShown page id text a s s' new h e

pub record IsSound (page : Bytes) (id : ℕ) (r : Running) : Type 0 where
  pub one_at_most : fits r.session.exit r.pending ≡ true
  pub closed : r.session.exit && r.session.is_open ≡ false
  pub shown : IsShown page id r.session

-- An operation that is started, where there is at most one, is the only one.
only_one :
    (b : Bool) (front back pending : List Op) (op : Op)
    → pending ≡ front ++ op ∷ back
    → fits b pending ≡ true
    → (front ≡ []) × (back ≡ []) × (b ≡ false) × (is_calm op ≡ true)
only_one b [] [] pending op e f = ground (arith, e, f)
only_one b [] (x ∷ back) pending op e f = ground (arith, e, f)
only_one b (x ∷ []) back pending op e f = ground (arith, e, f)
only_one b (x ∷ y ∷ front) back pending op e f = ground (arith, e, f)

Step-IsSound :
    (page : Bytes) (id : ℕ) (r r' : Running) → Step r r' → IsSound page id r → IsSound page id r'
Step-IsSound page id r r' (completed front back new op a _ _ e o run e') v =
    let (ef, eb, n, c) = only_one r.session.exit front back r.pending op e v.one_at_most in
    let (f, k) = complete-fits op a r.session r'.session new c o n run in
    record {
      one_at_most = rw e' (rw (ef, eb, append-nil new) f);
      closed = k;
      shown = complete-IsShown page id op a r.session r'.session new v.shown run;
    }

first-IsShown : (s : ConsoleSession) → s.command_response_arr ≡ [] → IsShown s.page s.id s
first-IsShown s e = record {
  same_id = refl;
  shows = sym (ap (λ x. s.page ++ pages s.id x) e ∙ append-nil s.page);
}

start-IsSound :
    (script : Option Bytes) (s s0 : ConsoleSession) (ops : List Op)
    → s.command_response_arr ≡ []
    → start script s ≡ some (s0, ops)
    → IsSound s.page s.id (record { session = s0; pending = ops })
unfolding start exit_session
start-IsSound none s s0 ops e run =
    subst
      (λ (x : ConsoleSession × List Op).
        IsSound s.page s.id (record { session = x.0; pending = x.1 }))
      (eq_of_some run)
      (record {
        one_at_most = refl;
        closed = refl;
        shown =
            given_up-IsShown s.page s.id _ (record s { exit = false })
              (let h = first-IsShown s e in record { same_id = h.same_id; shows = h.shows });
      })
start-IsSound (some x) s s0 ops e run =
    subst
      (λ (y : ConsoleSession × List Op).
        IsSound s.page s.id (record { session = y.0; pending = y.1 }))
      (eq_of_some run)
      (record {
        one_at_most = refl;
        closed = refl;
        shown = let h = first-IsShown s e in record { same_id = h.same_id; shows = h.shows };
      })

-- A session that is started with an empty record, the resolver giving one endpoint, whatever else the
-- system answers and in whatever order: at any time at most one operation is started, and none once the
-- session has ended; a session that has ended has its socket closed; and the page has, behind what it
-- had, each output of the record, in order.
pub Reach-IsSound :
    (script : Option Bytes) (s s0 : ConsoleSession) (ops : List Op) (r : Running)
    → s.command_response_arr ≡ []
    → start script s ≡ some (s0, ops)
    → Reach (record { session = s0; pending = ops }) r
    → IsSound s.page s.id r
Reach-IsSound script s s0 ops r e run (there r1 _ reached step) =
    Step-IsSound s.page s.id r1 r step (Reach-IsSound script s s0 ops r1 e run reached)
Reach-IsSound script s s0 ops r e run here = start-IsSound script s s0 ops e run
