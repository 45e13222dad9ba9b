-- ===== src/Console/Told.antt =====
-- A session with more outputs than another one.
use nycu_csic30091_netw.Prelude.{
  ℕ, List, [], ◌∷◌, ◌++◌, ◌≡◌, refl, ◌∙◌, sym, ap, append_assoc, append-nil,
}
use nycu_csic30091_netw.Prelude.Bytes.{Bytes}
use nycu_csic30091_netw.Console.Render.{Output, OutputType, command, response, render_output}
use nycu_csic30091_netw.Console.Session.{ConsoleSession, add_output}
use nycu_csic30091_netw.Console.Script.{Line, command_of}

abbrev pub pages : ℕ → List Output → Bytes
pages id [] = []
pages id (o ∷ os) = render_output id o ++ pages id os

-- A session with more outputs.
abbrev pub told : List Output → ConsoleSession → ConsoleSession
told os s = record s {
  command_response_arr = s.command_response_arr ++ os;
  page = s.page ++ pages s.id os;
}

abbrev pub answered : Bytes → Output
answered p = record { value = p; kind = response }

abbrev pub sent_line : Line → Output
sent_line l = record { value = command_of l; kind = command }

pub pages-append : (id : ℕ) (a b : List Output) → pages id (a ++ b) ≡ pages id a ++ pages id b
pages-append id [] b = refl
pages-append id (o ∷ a) b =
    ap (λ x. render_output id o ++ x) (pages-append id a b)
    ∙ sym (append_assoc (render_output id o) (pages id a) (pages id b))

pub told-told : (a b : List Output) (s : ConsoleSession) → told b (told a s) ≡ told (a ++ b) s
told-told a b s =
    rw
      (
        append_assoc s.command_response_arr a b,
        append_assoc s.page (pages s.id a) (pages s.id b),
        pages-append s.id a b,
      )
      refl

pub told-nil : (s : ConsoleSession) → told [] s ≡ s
told-nil s = rw (append-nil s.command_response_arr, append-nil s.page) refl

pub add_output-told :
    (v : Bytes) (k : OutputType) (s : ConsoleSession)
    → add_output v k s ≡ told (record { value = v; kind = k } ∷ []) s
unfolding add_output
add_output-told v k s = rw (append-nil (render_output s.id (record { value = v; kind = k }))) refl
