-- ===== src/Console/Render.antt =====
-- Console::renderOutput (project4/src/consoleCgi/src/Console.cpp): an output is escaped and written into
-- a script that adds it to the page.
use nycu_csic30091_netw.Prelude.{ℕ, List, [], ◌∷◌, ◌++◌, ◌==◌, if◌then◌else◌}
use nycu_csic30091_netw.Prelude.Bytes.{Bytes, codes}
use nycu_csic30091_netw.Cxx.Decimal.{to_string}

pub data OutputType : Type 0 where
  command response errormsg : OutputType

pub record Output : Type 0 where
  pub value : Bytes
  pub kind : OutputType

-- `regex_replace` by a pattern that stands for one byte.
unfoldable pub replace_byte : ℕ → Bytes → Bytes → Bytes
replace_byte c t [] = []
replace_byte c t (x ∷ s) = let rest = replace_byte c t s in if x == c then t ++ rest else x ∷ rest

-- htmlEscapeMap in the order of its keys, each with the byte that it stands for as a pattern: the keys
-- of two characters are `\\` and `\|`.
abbrev pub html_escape_map : List (ℕ × Bytes)
html_escape_map =
    (10, codes "&NewLine;")
    ∷ (32, codes "&nbsp;")
    ∷ (b'"', codes "&quot;")
    ∷ (39, codes "&apos;")
    ∷ (b'-', codes "&ndash;")
    ∷ (b'<', codes "&lt;")
    ∷ (b'>', codes "&gt;")
    ∷ (92, 92 ∷ 92 ∷ [])
    ∷ (b'|', codes "&#124;")
    ∷ []

unfoldable pub escape_from : List (ℕ × Bytes) → Bytes → Bytes
escape_from [] v = v
escape_from ((c, t) ∷ m) v = escape_from m (replace_byte c t v)

unfoldable pub escape : Bytes → Bytes
unfolding escape_from
escape v = escape_from html_escape_map (replace_byte b'&' (codes "&amp;") v)

unfoldable pub styled : OutputType → Bytes → Bytes
styled command v = codes "<b>" ++ (v ++ codes "</b>")
styled response v = v
styled errormsg v = codes "<b class=\"error\">" ++ (v ++ codes "</b>")

-- The text in front of the literal, and behind it.
abbrev pub script_head : ℕ → Bytes
script_head id =
    codes "<script>document.getElementById('s" ++ (to_string id ++ codes "').innerHTML += '")

abbrev pub script_tail : Bytes
script_tail = codes ";</script>"

unfoldable pub render_output : ℕ → Output → Bytes
render_output id o = script_head id ++ (styled o.kind (escape o.value) ++ 39 ∷ script_tail)
