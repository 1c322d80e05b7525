-- ===== src/Controller/Names.antt =====
-- The name of an MCP client in RegisterMCP of internal/lifecycle/controller.go.
use agent_shell.Base.{
  Text, ltb, leb, if◌then◌else◌, lit, is_empty, trim_space, ℕ, zero, suc, ◌+◌, ◌-◌, [], ◌∷◌,
}

-- The bytes of a rune in UTF-8.
abbrev pub byte_width : ℕ → ℕ
byte_width c = if ltb c 128 then 1 else if ltb c 2048 then 2 else if ltb c 65536 then 3 else 4

abbrev pub byte_length : Text → ℕ
byte_length [] = 0
byte_length (c ∷ s) = byte_width c + byte_length s

abbrev pub broken_bytes : ℕ → Text
broken_bytes zero = []
broken_bytes (suc n) = 0xFFFD ∷ broken_bytes n

-- `s[:n]`: a rune that is cut leaves bytes that are read as U+FFFD each.
abbrev pub cut_bytes : ℕ → Text → Text
cut_bytes n [] = []
cut_bytes n (c ∷ s) =
    if leb (byte_width c) n then c ∷ cut_bytes (n - byte_width c) s else broken_bytes n

abbrev pub client_name : Text → Text
client_name s =
    let trimmed = trim_space s in
    let named = if is_empty trimmed then lit "MCP Bridge" else trimmed in
    if ltb 120 (byte_length named) then cut_bytes 120 named else named
