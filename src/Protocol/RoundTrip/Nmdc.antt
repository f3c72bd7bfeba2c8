-- ===== src/Protocol/RoundTrip/Nmdc.antt =====
-- The same over the NMDC framing, "$ADCxxx ...|", with the old escaping.
use airdcpp_core.Base.{
  ℕ, ◌≡◌, refl, true, false, List, [], ◌∷◌, ◌++◌, append-nil, append_assoc, Bytes, codes, drop, All,
  inl, ◌∙◌,
}
use airdcpp_core.Protocol.Command.{
  AdcCommand, ok, ◌>>=◌, type_client, is_valid_type, cmd_chars, empty_command,
}
use airdcpp_core.Protocol.Parse.{Words, scan, last_word, check_words, parse_body, of_line}
use airdcpp_core.Protocol.Print.{to_string}
use airdcpp_core.Protocol.RoundTrip.Words.{
  IsReadable, spaced, param_loop-spaced, close, feed_ready, kept, scan-escape_text, scan-spaced,
}
use airdcpp_core.Protocol.RoundTrip.Line.{HasName, cmd_chars_name}
use airdcpp_core.Protocol.RoundTrip.Adc.{run_steps, word_of_name}

abbrev pub IsNmdcReadable : Bytes → Type 0
IsNmdcReadable = All (IsReadable true)

unfoldable pub nmdc_line : AdcCommand → Bytes
nmdc_line c = codes "$ADC" ++ cmd_chars c ++ spaced true c.parameters

pub to_string-nmdc_line :
    (c : AdcCommand) (sid : ℕ)
    → c.kind ≡ type_client
    → to_string c sid true ≡ nmdc_line c ++ b'|' ∷ []
unfolding to_string nmdc_line
to_string-nmdc_line c sid h =
    rw (h, param_loop-spaced true c.parameters []) (simp (append_assoc, append-nil))

-- The sender counts as read from the start.
abbrev nmdc_start : Words
nmdc_start = record {
  from_set = true;
  to_set = false;
  feature_set = false;
  from = 0;
  to = 0;
  parameters = [];
}

scan_nmdc_body :
    (vs : List Bytes)
    → All IsNmdcReadable vs
    → (scan type_client true (drop 1 (spaced true vs)) false [] nmdc_start >>= close type_client)
      ≡ ok (record nmdc_start { parameters = kept vs })
unfolding spaced
scan_nmdc_body [] h = unfold scan last_word in refl
scan_nmdc_body (v ∷ vs) (hv, h) =
    rw (scan-escape_text type_client true v (spaced true vs) [] nmdc_start hv) (
      scan-spaced type_client true vs v nmdc_start h
      ∙ feed_ready type_client (v ∷ vs) nmdc_start (inl refl, inl refl, inl refl))

abbrev pub nmdc_read_back : AdcCommand → AdcCommand
nmdc_read_back c = record {
  parameters = kept c.parameters;
  features = [];
  cmd_int = c.cmd_int;
  from = 0;
  to = 0;
  kind = type_client;
}

of_line-nmdc_line :
    (c : AdcCommand)
    → HasName c
    → All IsNmdcReadable c.parameters
    → of_line (nmdc_line c) true ≡ ok (nmdc_read_back c)
unfolding of_line nmdc_line parse_body empty_command is_valid_type
of_line-nmdc_line c n h =
    rw (cmd_chars_name c n, word_of_name c n)
      (run_steps type_client
        (scan type_client true (drop 1 (spaced true c.parameters)) false [] nmdc_start) _
        (record nmdc_start { parameters = kept c.parameters })
        (rw (scan_nmdc_body c.parameters h) (unfold check_words in refl)))

-- Over the NMDC framing, a command of the client type whose name is three bytes other than NUL and
-- the newline, and whose parameters hold no newline, is written as a line and a bar, and the line
-- is read back as a command of that type with the same name and parameters, but for one empty
-- parameter at the end, and without identifiers and features.
pub of_line-to_string_nmdc :
    (c : AdcCommand) (sid : ℕ)
    → c.kind ≡ type_client
    → HasName c
    → All IsNmdcReadable c.parameters
    → (line : Bytes) × (to_string c sid true ≡ line ++ b'|' ∷ [])
      × (of_line line true ≡ ok (nmdc_read_back c))
of_line-to_string_nmdc c sid k n h =
    (nmdc_line c, to_string-nmdc_line c sid k, of_line-nmdc_line c n h)
