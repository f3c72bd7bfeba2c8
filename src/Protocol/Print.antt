-- ===== src/Protocol/Print.antt =====
-- The printing half of airdcpp/protocol/AdcCommand.cpp: the headers, the parameters, `toString`.
use airdcpp_core.Base.{ℕ, Bool, false, List, [], ◌∷◌, ◌++◌, ◌==◌, if◌then◌else◌, Bytes, codes}
use airdcpp_core.Protocol.Command.{AdcCommand, type_feature, has_from, has_to, from_sid, cmd_chars}
use airdcpp_core.Protocol.Escape.{escape}

-- `getHeaderString(sid, nmdc)`.
unfoldable pub header_string : AdcCommand → ℕ → Bool → Bytes
header_string c sid nmdc =
    (if nmdc then codes "$ADC" else c.kind ∷ [])
    ++ cmd_chars c
    ++ (if has_from c.kind then b' ' ∷ from_sid sid else [])
    ++ (if has_to c.kind then b' ' ∷ from_sid c.to else [])
    ++ (if c.kind == type_feature then b' ' ∷ c.features else [])

-- The loop of `getParamString`.
unfoldable pub param_loop : Bool → List Bytes → Bytes → Bytes
param_loop nmdc [] tmp = tmp
param_loop nmdc (p ∷ ps) tmp = param_loop nmdc ps (tmp ++ b' ' ∷ escape p nmdc)

unfoldable pub param_string : AdcCommand → Bool → Bytes
unfolding param_loop
param_string c nmdc = param_loop nmdc c.parameters [] ++ (if nmdc then b'|' else 10) ∷ []

-- `toString(sid, nmdc)`.
unfoldable pub to_string : AdcCommand → ℕ → Bool → Bytes
unfolding header_string param_string
to_string c sid nmdc = header_string c sid nmdc ++ param_string c nmdc

-- `toString(cid)`, with the base32 text of the CID, and `toString()`: the two forms for UDP.
unfoldable pub to_string_cid : AdcCommand → Bytes → Bytes
unfolding param_string cmd_chars
to_string_cid c cid = (c.kind ∷ cmd_chars c ++ b' ' ∷ cid) ++ param_string c false

unfoldable pub to_string_udp : AdcCommand → Bytes
unfolding param_string cmd_chars
to_string_udp c = (c.kind ∷ cmd_chars c) ++ param_string c false
