-- ===== src/Shell/Pipes/Between.antt =====
-- What the FIFOs between users keep: one pipe for each sender and receiver, read once, and none left
-- of a user who is gone.
use nycu_csic30091_netw.Prelude.{
  ℕ, true, false, not, ◌&&◌, ◌||◌, ◌≡◌, refl, arith, ap, ◌∙◌, sym, ==_iff,
}
use nycu_csic30091_netw.Prelude.{
  Option, some, eq_of_some, List, [], ◌∷◌, ◌==◌, Bool-cases, inl, inr, length-append,
}
use nycu_csic30091_netw.Prelude.Bytes.{Bytes, str_eq, str_eq_iff, str_eq_self}
use nycu_csic30091_netw.Cxx.Decimal.{
  to_string, to_string-Free, is_digit, read_number, read_number-to_string,
}
use nycu_csic30091_netw.Cxx.Stream.{before, before-append, after-append}
use nycu_csic30091_netw.Shell.Messages.Model.{behind_underscore}
use nycu_csic30091_netw.Shell.Pipes.Fifos.{UserPipes, fifo_name, has_fifo, unlink, add_user_pipe}
use nycu_csic30091_netw.Shell.Pipes.Fifos.{load_user_pipe, names_user, close_user_pipe}

has_fifo-unlink : (n : Bytes) (d : List Bytes) → has_fifo n (unlink n d) ≡ false
unfolding has_fifo unlink
has_fifo-unlink n [] = refl
has_fifo-unlink n (e ∷ d) = ground (arith, has_fifo-unlink n d)

-- Once a pipe that was not there is made, it cannot be made again: a second attempt fails and
-- changes nothing.
pub add_user_pipe_again :
    (a b : ℕ) (dummy fd dummy' fd' : Option ℕ) (s : UserPipes)
    → has_fifo (fifo_name a b) s.directory ≡ false
    → let s' = (add_user_pipe dummy fd a b s).1 in add_user_pipe dummy' fd' a b s' ≡ (false, s')
unfolding add_user_pipe has_fifo
add_user_pipe_again a b dummy fd dummy' fd' s h = ground (arith, str_eq_self (fifo_name a b))

-- A pipe that was not there, once its sender made it, can be loaded exactly once: the first load
-- succeeds and sets the descriptor, the second fails, and then the pipe can be made again.
pub load_user_pipe_once :
    (a b fd' : ℕ) (dummy fd : ℕ) (s : UserPipes)
    → has_fifo (fifo_name a b) s.directory ≡ false
    → let s1 = (add_user_pipe (some dummy) (some fd) a b s).1 in
      let (ok, s2) = load_user_pipe fd' a b s1 in
      (ok ≡ true)
      × (s2.manager.current_user_pipe ≡ some fd')
      × ((load_user_pipe fd' a b s2).0 ≡ false)
      × ((add_user_pipe (some dummy) (some fd) a b s2).0 ≡ true)
unfolding add_user_pipe load_user_pipe has_fifo
load_user_pipe_once a b fd' dummy fd s h = ground (
  arith,
  str_eq_self (fifo_name a b),
  has_fifo-unlink (fifo_name a b) (fifo_name a b ∷ s.directory),
)

to_string-inj : (a b : ℕ) → to_string a ≡ to_string b → a ≡ b
to_string-inj a b e =
    eq_of_some (sym (read_number-to_string a) ∙ ap read_number e ∙ read_number-to_string b)

str_eq-to_string : (a b : ℕ) → str_eq (to_string a) (to_string b) ≡ (a == b)
str_eq-to_string a b = elim (Bool-cases (a == b)) [
  | inl e ↦
      let same : a ≡ b = (==_iff a b).0 e in
      rw e ((str_eq_iff (to_string a) (to_string b)).1 (ap to_string same))
  | inr e ↦ rw e (elim (Bool-cases (str_eq (to_string a) (to_string b))) [
    | inr f ↦ f
    | inl f ↦
        let same : a ≡ b = to_string-inj a b ((str_eq_iff (to_string a) (to_string b)).0 f) in
        absurd (ground arith)
  ])
]

behind_underscore-fifo_name : (a b : ℕ) → behind_underscore (fifo_name a b) ≡ to_string b
unfolding behind_underscore fifo_name
behind_underscore-fifo_name a b =
    let free = to_string-Free b'_' a (unfold is_digit in refl) in
    rw (before-append b'_' (to_string a) (to_string b) free) (
      rw (after-append b'_' (to_string a) (to_string b) free)
        (ground (arith, length-append (to_string a) (b'_' ∷ to_string b))))

before-fifo_name : (a b : ℕ) → before b'_' (fifo_name a b) ≡ to_string a
unfolding fifo_name
before-fifo_name a b =
    before-append b'_' (to_string a) (to_string b) (to_string-Free b'_' a (unfold is_digit in refl))

names_user-fifo_name : (id a b : ℕ) → names_user id (fifo_name a b) ≡ (a == id || b == id)
unfolding names_user
names_user-fifo_name id a b =
    rw (behind_underscore-fifo_name a b)
      (rw (before-fifo_name a b) (rw (str_eq-to_string a id) (rw (str_eq-to_string b id) refl)))

has_fifo-close_user_pipe :
    (pid id : ℕ) (n : Bytes) (d : List Bytes)
    → has_fifo n (close_user_pipe pid id d).1 ≡ (has_fifo n d && not (names_user id n))
unfolding has_fifo close_user_pipe
has_fifo-close_user_pipe pid id n [] = refl
has_fifo-close_user_pipe pid id n (e ∷ d) =
    let same = λ (h : str_eq n e ≡ true). ap (names_user id) ((str_eq_iff n e).0 h) in
    let ih = has_fifo-close_user_pipe pid id n d in
    elim (Bool-cases (str_eq n e)) [
      | inl h ↦ ground (arith, same h, ih)
      | inr h ↦ ground (arith, ih)
    ]

-- When a user goes, exactly the FIFOs from it and to it are removed: the pipe from `a` to `b` is
-- left if and only if it was there and neither of its ends is the user.
pub close_user_pipe_lem :
    (pid id a b : ℕ) (d : List Bytes)
    → has_fifo (fifo_name a b) (close_user_pipe pid id d).1
      ≡ (has_fifo (fifo_name a b) d && not (a == id || b == id))
close_user_pipe_lem pid id a b d =
    has_fifo-close_user_pipe pid id (fifo_name a b) d
    ∙ ap (λ x. has_fifo (fifo_name a b) d && not x) (names_user-fifo_name id a b)
