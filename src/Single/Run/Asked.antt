-- ===== src/Single/Run/Asked.antt =====
-- What the parser gives is what the branches of np_single_proc's NPShell::execute need of a command.
use nycu_csic30091_netw.Prelude.{
  ℕ, zero, suc, ◌≤◌, Bool, true, false, Option, none, some, List, [], ◌∷◌, ◌≡◌, refl, arith, length,
}
use nycu_csic30091_netw.Prelude.Bytes.{Bytes, codes, str_eq}
use nycu_csic30091_netw.Cxx.Decimal.{is_digit, read_number, digits_value}
use nycu_csic30091_netw.Shell.Parser.Model.{Command}
use nycu_csic30091_netw.Shell.Parser.Operators.{
  is_mark, IsOperator, AreOperators, next, file, numbered,
}
use nycu_csic30091_netw.Shell.Parser.Shape.{IsParsed}
use nycu_csic30091_netw.Shell.Builtin.Model.{
  Builtin, builtin_of, exit, printenv, setenv, who, yell, name, tell, stoi,
}
use nycu_csic30091_netw.Shell.Run.Model.{operator_at, first_byte, number_of}
use nycu_csic30091_netw.Single.Run.Sound.{is_some}
use nycu_csic30091_netw.Single.Run.Obeying.{has_args}

-- What a parsed line may still lack: `name` has an argument, and `tell` a number.
unfoldable pub asks : Option Builtin → List Bytes → Bool
asks (some name) [] = false
asks (some tell) (target ∷ _) = is_some (stoi target)
asks _ _ = true

called :
    (o : Option Builtin) (args : List Bytes)
    → (o ≡ some yell → 1 ≤ length args)
    → (o ≡ some tell → 2 ≤ length args)
    → asks o args ≡ true
    → has_args o args ≡ true
unfolding asks has_args
called none args y t h = refl
called (some exit) args y t h = refl
called (some printenv) args y t h = refl
called (some setenv) args y t h = refl
called (some who) args y t h = refl
called (some yell) [] y t h = absurd (omega (arith, y refl))
called (some yell) (x ∷ xs) y t h = refl
called (some name) [] y t h = h
called (some name) (x ∷ xs) y t h = refl
called (some tell) [] y t h = absurd (omega (arith, t refl))
called (some tell) (x ∷ []) y t h = absurd (omega (arith, t refl))
called (some tell) (x ∷ x' ∷ xs) y t h = h

is_yell : (c : Bytes) → builtin_of c ≡ some yell → str_eq c (codes "yell") ≡ true
unfolding builtin_of
is_yell c e = ground arith

is_tell : (c : Bytes) → builtin_of c ≡ some tell → str_eq c (codes "tell") ≡ true
unfolding builtin_of
is_tell c e = ground arith

pub parsed-has_args :
    (c : Command)
    → IsParsed c
    → asks (builtin_of c.command) c.args ≡ true
    → has_args (builtin_of c.command) c.args ≡ true
parsed-has_args c p h =
    called (builtin_of c.command) c.args (λ e. p.yell_args (is_yell c.command e))
      (λ e. p.tell_args (is_tell c.command e)) h

-- A text that starts with a mark, and is not | or > alone, has a number.
abbrev pub IsNumbered : Bytes → Type 0
IsNumbered op =
    is_mark (first_byte op) ≡ true
    → str_eq op (codes "|") ≡ false
    → str_eq op (codes ">") ≡ false
    → (n : ℕ) × (number_of op ≡ some n)

pub operator-IsNumbered : (op : Bytes) → IsOperator op → IsNumbered op
unfolding first_byte number_of read_number is_digit str_eq
operator-IsNumbered _ next m e f = cc
operator-IsNumbered _ file m e f = cc
operator-IsNumbered _ (numbered c d s o lo hi a) m e f = (digits_value 0 (d ∷ s), ground arith)

pub operator_at-IsNumbered :
    (i : ℕ) (os : List Bytes) → AreOperators os → IsNumbered (operator_at i os)
unfolding operator_at first_byte
operator_at-IsNumbered i [] a = λ m e f. cc
operator_at-IsNumbered zero (o ∷ os) a = operator-IsNumbered o a.0
operator_at-IsNumbered (suc i) (o ∷ os) a = operator_at-IsNumbered i os a.1
