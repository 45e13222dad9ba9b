-- ===== src/Socks/Firewall/Defs.antt =====
-- Firewall::loadConfigFile of project4/src/socksServer/src/Firewall.cpp: a filter becomes a pattern.
use nycu_csic30091_netw.Prelude.{◌==◌, if◌then◌else◌, [], ◌∷◌}
use nycu_csic30091_netw.Prelude.Bytes.{Bytes}

-- regex_replace of `\.` by `\.`, a backslash before each dot.
unfoldable pub escape_dots : Bytes → Bytes
escape_dots [] = []
escape_dots (c ∷ s) = let rest = escape_dots s in if c == b'.' then 92 ∷ b'.' ∷ rest else c ∷ rest

-- regex_replace of `\*` by `.*`.
unfoldable pub expand_stars : Bytes → Bytes
expand_stars [] = []
expand_stars (c ∷ s) =
    let rest = expand_stars s in if c == b'*' then b'.' ∷ b'*' ∷ rest else c ∷ rest

unfoldable pub filter_regex : Bytes → Bytes
unfolding escape_dots expand_stars
filter_regex s = expand_stars (escape_dots s)
