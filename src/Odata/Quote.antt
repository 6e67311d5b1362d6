-- ===== src/Odata/Quote.antt =====
-- How a value is written between quotes: the inverse of `readStringLiteral` (internal/odata/parse.go).
use ileap_go.Common.{[], ◌∷◌, ◌==◌, if◌then◌else◌, Bytes}

-- Every quote doubled.
abbrev pub escape : Bytes → Bytes
escape [] = []
escape (c ∷ cs) = if c == b'\'' then b'\'' ∷ b'\'' ∷ escape cs else c ∷ escape cs
