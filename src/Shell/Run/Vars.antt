-- ===== src/Shell/Run/Vars.antt =====
-- Entries of envMap (NPShell::setEnv, getEnv): the values outside of the shell.
use nycu_csic30091_netw.Prelude.{
  Option, none, some, List, [], ◌∷◌, ◌≡◌, refl, arith, sym, ◌∙◌, inl, inr, Bool-cases, Option-cases,
  ap,
}
use nycu_csic30091_netw.Prelude.Bytes.{Bytes, str_eq, str_eq_iff}
use nycu_csic30091_netw.Cxx.TextMap.{TextMap, find_text}
use nycu_csic30091_netw.Shell.Builtin.Env.{
  Kept, Distinct, find_kept, change_value, set_env, get_env, or_empty,
}

abbrev pub original_of : Bytes → Option Kept → Bytes
original_of v none = v
original_of v (some k) = k.original

-- The value of a variable outside of the shell, while the shell's variables are loaded.
abbrev pub outside : Bytes → TextMap → List Kept → Bytes
outside n vars ks = original_of (or_empty (find_text n vars)) (find_kept n ks)

-- Entries may be added and changed, but each name keeps its value outside, and names stay distinct.
pub record IsKeeping (vars : TextMap) (ks ks' : List Kept) : Type 0 where
  pub distinct : Distinct ks'
  pub same : (n : Bytes) → outside n vars ks' ≡ outside n vars ks

find_kept-change_value :
    (n v j : Bytes) (ks : List Kept)
    → find_kept j ks ≡ none
    → find_kept j (change_value n v ks) ≡ none
unfolding find_kept change_value
find_kept-change_value n v j [] e = refl
find_kept-change_value n v j (k ∷ ks) e = ground (arith, find_kept-change_value n v j ks)

change_value-Distinct :
    (n v : Bytes) (ks : List Kept) → Distinct ks → Distinct (change_value n v ks)
unfolding change_value
change_value-Distinct n v [] d = tt
change_value-Distinct n v (k ∷ ks) d = elim (Bool-cases (str_eq k.name n)) [
  | inl h ↦ rw h d
  | inr h ↦ rw h (find_kept-change_value n v k.name ks d.0, change_value-Distinct n v ks d.1)
]

outside-change_value :
    (n v j : Bytes) (vars : TextMap) (ks : List Kept)
    → outside j vars (change_value n v ks) ≡ outside j vars ks
unfolding change_value find_kept
outside-change_value n v j vars [] = refl
outside-change_value n v j vars (k ∷ ks) = ground (arith, outside-change_value n v j vars ks)

added-IsKeeping :
    (n v : Bytes) (vars : TextMap) (ks : List Kept)
    → Distinct ks
    → find_kept n ks ≡ none
    → IsKeeping vars ks
        (record { name = n; original = or_empty (find_text n vars); value = v } ∷ ks)
unfolding find_kept
added-IsKeeping n v vars ks d e = record {
  distinct = (e, d);
  same = λ j. elim (Bool-cases (str_eq n j)) [
    | inl h ↦ rw h (
        ap (λ x. original_of (or_empty (find_text n vars)) x) (sym e)
        ∙ ap (λ x. outside x vars ks) ((str_eq_iff n j).0 h))
    | inr h ↦ rw h refl
  ];
}

pub set_env-IsKeeping :
    (vars : TextMap) (n v : Bytes) (ks : List Kept)
    → Distinct ks
    → IsKeeping vars ks (set_env vars n v ks)
unfolding set_env
set_env-IsKeeping vars n v ks d = elim (Option-cases (find_kept n ks)) [
  | inl e ↦ rw (e, set_env) (added-IsKeeping n v vars ks d e)
  | inr (k, e) ↦
      rw (e, set_env)
        (record {
          distinct = change_value-Distinct n v ks d;
          same = λ j. outside-change_value n v j vars ks;
        })
]

pub get_env-IsKeeping :
    (vars : TextMap) (n : Bytes) (ks : List Kept)
    → Distinct ks
    → IsKeeping vars ks (get_env vars n ks).1
unfolding get_env
get_env-IsKeeping vars n ks d = elim (Option-cases (find_kept n ks)) [
  | inl e ↦ rw (e, get_env) (added-IsKeeping n (or_empty (find_text n vars)) vars ks d e)
  | inr (k, e) ↦ rw (e, get_env) (record { distinct = d; same = λ j. refl })
]
