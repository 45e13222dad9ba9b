-- ===== src/Console/Page.antt =====
-- What the page shows of an output that renderOutput writes.
use nycu_csic30091_netw.Prelude.{
  ℕ, true, false, none, some, map, [], ◌∷◌, ◌++◌, ◌==◌, if◌then◌else◌, ◌≡◌, refl, ◌∙◌, ap,
  append_assoc, append-nil,
}
use nycu_csic30091_netw.Prelude.Bytes.{Bytes, codes, Free}
use nycu_csic30091_netw.Console.Render.{
  OutputType, command, response, errormsg, Output, escape, styled, script_head, script_tail,
  render_output,
}
use nycu_csic30091_netw.Console.Literal.{
  entity, markup, read_literal, pushed, read_literal-escape, read_literal-plain, pushed-append,
  untagged, untagged-escape, plain, escape-append, escape-one,
}
use nycu_csic30091_netw.Console.Shows.{Shows, point_of, Shows-markup}

-- Plain text around an output.
read_literal-around :
    (h t v s : Bytes)
    → plain h ≡ true
    → plain t ≡ true
    → Free 13 v
    → read_literal false (h ++ (escape v ++ t) ++ s)
      ≡ pushed (h ++ (markup v ++ t)) (read_literal false s)
read_literal-around h t v s p q f =
    ap (read_literal false)
      (append_assoc h (escape v ++ t) s ∙ ap (λ x. h ++ x) (append_assoc (escape v) t s))
    ∙ (read_literal-plain h (escape v ++ (t ++ s)) p
        ∙ rw
            (
              read_literal-escape v (t ++ s) f,
              read_literal-plain t s q,
              pushed-append (markup v) t (read_literal false s),
            )
            (pushed-append h (markup v ++ t) (read_literal false s)))

read_literal-styled :
    (k : OutputType) (v s : Bytes)
    → Free 13 v
    → read_literal false (styled k (escape v) ++ s)
      ≡ pushed (styled k (markup v)) (read_literal false s)
unfolding styled
read_literal-styled command v s f = read_literal-around (codes "<b>") (codes "</b>") v s refl refl f
read_literal-styled response v s f = read_literal-escape v s f
read_literal-styled errormsg v s f =
    read_literal-around (codes "<b class=\"error\">") (codes "</b>") v s refl refl f

ends_here : (s : Bytes) → read_literal false (39 ∷ s) ≡ some ([], s)
unfolding read_literal
ends_here s = refl

read_literal-return : (s : Bytes) → read_literal false (13 ∷ s) ≡ none
unfolding read_literal
read_literal-return s = refl

-- An output with no carriage return, in what renderOutput writes: behind the head of the script stands a
-- literal that ends at its closing quote, with the end of the script behind it; the value of the literal
-- is the markup of the output in the tags of its kind; the escaped output has no `<`, so no tag and not
-- the end of the script; and the markup shows the text of the output, a space as one that does not break
-- the line and a hyphen as a dash.
pub render_output-Shows :
    (id : ℕ) (o : Output)
    → Free 13 o.value
    → (body : Bytes) × (render_output id o ≡ script_head id ++ body)
      × (read_literal false body ≡ some (styled o.kind (markup o.value), script_tail))
      × (untagged (escape o.value) ≡ true)
      × Shows (markup o.value) (map point_of o.value)
unfolding render_output
render_output-Shows id o f = (
  styled o.kind (escape o.value) ++ 39 ∷ script_tail,
  refl,
  rw
      (
        read_literal-styled o.kind o.value (39 ∷ script_tail) f,
        ends_here script_tail,
        append-nil (styled o.kind (markup o.value)),
      )
      refl,
  untagged-escape o.value,
  Shows-markup o.value,
)

entity_return : (if 13 == 92 then 92 ∷ 92 ∷ [] else entity 13) ≡ 13 ∷ []
unfolding entity
entity_return = refl

read_literal-broken :
    (a b s : Bytes) → Free 13 a → read_literal false (escape (a ++ 13 ∷ b) ++ s) ≡ none
read_literal-broken a b s f =
    ap (λ x. read_literal false (x ++ s))
      (escape-append a (13 ∷ b)
        ∙ ap (λ x. escape a ++ x)
            (escape-append (13 ∷ []) b ∙ ap (λ x. x ++ escape b) (escape-one 13 ∙ entity_return)))
    ∙ (ap (read_literal false) (append_assoc (escape a) (13 ∷ escape b) s)
        ∙ (read_literal-escape a (13 ∷ (escape b ++ s)) f
            ∙ rw (read_literal-return (escape b ++ s)) refl))

styled-broken :
    (k : OutputType) (a b s : Bytes)
    → Free 13 a
    → read_literal false (styled k (escape (a ++ 13 ∷ b)) ++ s) ≡ none
unfolding styled
styled-broken command a b s f =
    let t = escape (a ++ 13 ∷ b) in
    read_literal-plain (codes "<b>") ((t ++ codes "</b>") ++ s) refl
    ∙ rw (append_assoc t (codes "</b>") s, read_literal-broken a b (codes "</b>" ++ s) f) refl
styled-broken response a b s f = read_literal-broken a b s f
styled-broken errormsg a b s f =
    let t = escape (a ++ 13 ∷ b) in
    read_literal-plain (codes "<b class=\"error\">") ((t ++ codes "</b>") ++ s) refl
    ∙ rw (append_assoc t (codes "</b>") s, read_literal-broken a b (codes "</b>" ++ s) f) refl

-- A carriage return in an output: what stands behind the head of the script is no literal.
pub render_output_breaks :
    (id : ℕ) (o : Output) (a b : Bytes)
    → Free 13 a
    → o.value ≡ a ++ 13 ∷ b
    → (body : Bytes) × (render_output id o ≡ script_head id ++ body)
      × (read_literal false body ≡ none)
unfolding render_output
render_output_breaks id o a b f e = (
  styled o.kind (escape o.value) ++ 39 ∷ script_tail,
  refl,
  rw e (styled-broken o.kind a b (39 ∷ script_tail) f),
)
