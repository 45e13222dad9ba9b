-- ===== src/Single/Run/Buffer.antt =====
-- The line that np_single_proc's server takes out of the buffer.
use nycu_csic30091_netw.Prelude.{
  ℕ, Bool, some, suc, [], ◌∷◌, ◌++◌, ◌≡◌, refl, ap, arith, length, take, take-append,
}
use nycu_csic30091_netw.Prelude.Bytes.{Bytes, Free}
use nycu_csic30091_netw.Single.Run.Loop.{State, c_string, without_cr, in_str, on_ready}
use nycu_csic30091_netw.Single.Run.World.{Answers}

c_string-append : (s rest : Bytes) → Free 0 s → c_string (s ++ 0 ∷ rest) ≡ some s
unfolding c_string
c_string-append [] rest f = refl
c_string-append (c ∷ s) rest f = ground (arith, c_string-append s rest f.1, f.0)

take-all : (s : Bytes) → take (length s) s ≡ s
take-all [] = refl
take-all (c ∷ s) = ap (◌∷◌ c) (take-all s)

c_string-line : (s rest : Bytes) → Free 0 s → c_string (s ++ 10 ∷ 0 ∷ rest) ≡ some (s ++ 10 ∷ [])
unfolding c_string
c_string-line [] rest f = refl
c_string-line (c ∷ s) rest f = ground (arith, c_string-line s rest f.1, f.0)

-- A line that ends in a line feed: a carriage return before it is taken off.
in_str-line :
    (s rest : Bytes) → Free 0 s → in_str (suc (length s)) (s ++ 10 ∷ 0 ∷ rest) ≡ some (without_cr s)
unfolding in_str
in_str-line s rest f = rw (c_string-line s rest f, take-append s (10 ∷ [])) refl

-- `read` gives 0 for a client that has closed its connection. The server serves it as if the client had
-- sent what stands in the buffer up to a NUL, and one byte behind it.
pub end_of_input_serves_buffer :
    (fd : ℕ) (s rest : Bytes) (os : ℕ → Answers) (kept : Bool) (st : State)
    → Free 0 s
    → on_ready
        (record { fd = fd; read_size = 0; memory = s ++ 0 ∷ rest; answers = os; kept = kept })
        st
      ≡ on_ready
          (record {
            fd = fd;
            read_size = suc (length s);
            memory = s ++ 0 ∷ rest;
            answers = os;
            kept = kept;
          })
          st
unfolding on_ready in_str
end_of_input_serves_buffer fd s rest os kept st f = rw (c_string-append s rest f, take-all s) refl
