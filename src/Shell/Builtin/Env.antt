-- ===== src/Shell/Builtin/Env.antt =====
-- NPShell::setEnv, getEnv, loadEnv and resetEnv: a shell's variables are put into the environment of
-- the process before a line is executed, and the old values after it.
use nycu_csic30091_netw.Prelude.{
  Option, none, some, List, [], ◌∷◌, if◌then◌else◌, ◌≡◌, refl, Bool-cases, inl, inr, ap, sym, ◌∙◌,
}
use nycu_csic30091_netw.Prelude.Bytes.{Bytes, str_eq, str_eq_iff}
use nycu_csic30091_netw.Cxx.TextMap.{TextMap, find_text, set_text, find_text-set_text}

-- An entry of envMap: the value outside and the value for the shell.
pub record Kept : Type 0 where
  pub name : Bytes
  pub original : Bytes
  pub value : Bytes

unfoldable pub find_kept : Bytes → List Kept → Option Kept
find_kept n [] = none
find_kept n (k ∷ ks) = if str_eq k.name n then some k else find_kept n ks

unfoldable pub change_value : Bytes → Bytes → List Kept → List Kept
change_value n v [] = []
change_value n v (k ∷ ks) =
    let rest = change_value n v ks in
    if str_eq k.name n then record k { value = v } ∷ ks else k ∷ rest

abbrev pub or_empty : Option Bytes → Bytes
or_empty none = []
or_empty (some v) = v

-- The first argument is the environment of the process, which `getenv` reads.
unfoldable pub set_env : TextMap → Bytes → Bytes → List Kept → List Kept
set_env vars n v ks = elim (find_kept n ks) [
  | none ↦ record { name = n; original = or_empty (find_text n vars); value = v } ∷ ks
  | some k ↦ change_value n v ks
]

unfoldable pub get_env : TextMap → Bytes → List Kept → Bytes × List Kept
get_env vars n ks =
    let raw = or_empty (find_text n vars) in
    elim (find_kept n ks) [
      | none ↦ (raw, record { name = n; original = raw; value = raw } ∷ ks)
      | some k ↦ (k.value, ks)
    ]

unfoldable pub load_env : List Kept → TextMap → TextMap
load_env [] vars = vars
load_env (k ∷ ks) vars = load_env ks (set_text k.name k.value vars)

unfoldable pub reset_env : List Kept → TextMap → TextMap
reset_env [] vars = vars
reset_env (k ∷ ks) vars = reset_env ks (set_text k.name k.original vars)

-- No name stands twice.
abbrev pub Distinct : List Kept → Type 0
Distinct [] = Unit {0}
Distinct (k ∷ ks) = (find_kept k.name ks ≡ none) × Distinct ks

-- A variable after the loop: the value of its entry, or what it was.
abbrev pub chosen : (Kept → Bytes) → Option Kept → Option Bytes → Option Bytes
chosen f none old = old
chosen f (some k) old = some (f k)

pub find_text-load_env :
    (n : Bytes) (ks : List Kept) (vars : TextMap)
    → Distinct ks
    → find_text n (load_env ks vars) ≡ chosen (λ k. k.value) (find_kept n ks) (find_text n vars)
unfolding load_env find_kept
find_text-load_env n [] vars d = refl
find_text-load_env n (k ∷ ks) vars d = elim (Bool-cases (str_eq k.name n)) [
  | inl e ↦
      let same : k.name ≡ n = (str_eq_iff k.name n).0 e in
      let gone : find_kept n ks ≡ none = ap (λ x. find_kept x ks) (sym same) ∙ d.0 in
      find_text-load_env n ks (set_text k.name k.value vars) d.1
      ∙ rw gone (rw e (find_text-set_text k.name n k.value vars ∙ rw e refl))
  | inr e ↦
      find_text-load_env n ks (set_text k.name k.value vars) d.1
      ∙ rw (find_text-set_text k.name n k.value vars) (rw e refl)
]

pub find_text-reset_env :
    (n : Bytes) (ks : List Kept) (vars : TextMap)
    → Distinct ks
    → find_text n (reset_env ks vars) ≡ chosen (λ k. k.original) (find_kept n ks) (find_text n vars)
unfolding reset_env find_kept
find_text-reset_env n [] vars d = refl
find_text-reset_env n (k ∷ ks) vars d = elim (Bool-cases (str_eq k.name n)) [
  | inl e ↦
      let same : k.name ≡ n = (str_eq_iff k.name n).0 e in
      let gone : find_kept n ks ≡ none = ap (λ x. find_kept x ks) (sym same) ∙ d.0 in
      find_text-reset_env n ks (set_text k.name k.original vars) d.1
      ∙ rw gone (rw e (find_text-set_text k.name n k.original vars ∙ rw e refl))
  | inr e ↦
      find_text-reset_env n ks (set_text k.name k.original vars) d.1
      ∙ rw (find_text-set_text k.name n k.original vars) (rw e refl)
]

-- Between loadEnv and resetEnv a variable has the shell's value if the shell has an entry for it,
-- and else its old one; after resetEnv it has the value of the entry outside the shell, and else its
-- old one. No name may have two entries.
pub environment_lem :
    (n : Bytes) (ks : List Kept) (vars : TextMap)
    → Distinct ks
    → (find_text n (load_env ks vars) ≡ chosen (λ k. k.value) (find_kept n ks) (find_text n vars))
      × (find_text n (reset_env ks (load_env ks vars))
          ≡ chosen (λ k. k.original) (find_kept n ks) (find_text n vars))
environment_lem n ks vars d = (
  find_text-load_env n ks vars d,
  find_text-reset_env n ks (load_env ks vars) d
      ∙ rw (find_text-load_env n ks vars d) (twice (find_kept n ks) (find_text n vars)),
)
  where
    twice :
        (o : Option Kept) (old : Option Bytes)
        → chosen (λ k. k.original) o (chosen (λ k. k.value) o old) ≡ chosen (λ k. k.original) o old
    twice none old = refl
    twice (some k) old = refl
