-- ===== src/Protocol/RoundTrip/Line.antt =====
-- The text of a command as its words: what `toString` puts on the wire.
use airdcpp_core.Base.{
  ℕ, ◌/◌, ◌%◌, ◌^◌, ◌<◌, ◌≡◌, ◌≢◌, refl, Bool, true, false, List, [], ◌∷◌, ◌++◌, append-nil,
  append_assoc, arith, ◌==◌, if◌then◌else◌, Bytes, All, All-append,
}
use airdcpp_core.Protocol.Command.{
  AdcCommand, type_feature, is_valid_type, has_from, has_to, from_sid, cmd_chars,
}
use airdcpp_core.Protocol.Escape.{is_special, hide, hide_byte, escape_text}
use airdcpp_core.Protocol.Print.{to_string}
use airdcpp_core.Protocol.RoundTrip.Words.{spaced, spaced-append, param_loop-spaced}
use airdcpp_core.Protocol.RoundTrip.Header.{HasHeader, header_words}

abbrev pub IsPlain : Bytes → Type 0
IsPlain = All (λ c. is_special c ≡ false)

-- The three command bytes are text: no NUL, no line end.
abbrev pub IsNameByte : ℕ → Type 0
IsNameByte b = (b ≢ 0) × (b ≢ 10)

abbrev pub HasName : AdcCommand → Type 0
HasName c =
    (c.cmd_int < 2 ^ 24)
    × IsNameByte (c.cmd_int % 256)
    × IsNameByte (c.cmd_int / 256 % 256)
    × IsNameByte (c.cmd_int / 65536 % 256)

-- The SIDs and the feature list need no escaping, and the header is printed as it is.
pub record IsSendable (c : AdcCommand) (sid : ℕ) : Type 0 where
  pub type_valid : is_valid_type c.kind ≡ true
  pub name : HasName c
  pub header : HasHeader c sid
  pub sid_plain : IsPlain (from_sid sid)
  pub to_plain : IsPlain (from_sid c.to)
  pub features_plain : IsPlain c.features

-- The line, without the byte that ends it.
unfoldable pub line_of : AdcCommand → ℕ → Bytes
line_of c sid = c.kind ∷ cmd_chars c ++ spaced false (header_words c sid ++ c.parameters)

escape_text_plain : (v : Bytes) → IsPlain v → escape_text false v ≡ v
unfolding escape_text
escape_text_plain [] h = refl
escape_text_plain (c ∷ v) (hc, h) = rw (hc, escape_text_plain v h)

spaced_word :
    (b : Bool) (v : Bytes)
    → IsPlain v
    → (if b then b' ' ∷ v else []) ≡ spaced false (if b then v ∷ [] else [])
unfolding spaced
spaced_word true v h = rw (escape_text_plain v h, append-nil)
spaced_word false v h = refl

-- `toString` writes the line and a newline.
pub to_string-line_of :
    (c : AdcCommand) (sid : ℕ) → IsSendable c sid → to_string c sid false ≡ line_of c sid ++ 10 ∷ []
unfolding to_string line_of
to_string-line_of c sid h =
    rw
      (
        param_loop-spaced false c.parameters [],
        spaced_word (has_from c.kind) (from_sid sid) h.sid_plain,
        spaced_word (has_to c.kind) (from_sid c.to) h.to_plain,
        spaced_word (c.kind == type_feature) c.features h.features_plain,
      )
      (simp (spaced-append, append_assoc))

abbrev pub HasNoNewline : Bytes → Type 0
HasNoNewline = All (λ c. c ≢ 10)

hide_byte_no_newline : (c : ℕ) → HasNoNewline (hide_byte false c)
unfolding hide
hide_byte_no_newline c = ground arith

escape_text_no_newline : (v : Bytes) → HasNoNewline (escape_text false v)
unfolding escape_text
escape_text_no_newline [] = tt
escape_text_no_newline (c ∷ v) =
    All-append _ (hide_byte false c) _ (hide_byte_no_newline c) (escape_text_no_newline v)

spaced_no_newline : (vs : List Bytes) → HasNoNewline (spaced false vs)
unfolding spaced
spaced_no_newline [] = tt
spaced_no_newline (v ∷ vs) = (
  omega arith,
  All-append _ (escape_text false v) _ (escape_text_no_newline v) (spaced_no_newline vs),
)

-- The three bytes of the name.
pub cmd_chars_name :
    (c : AdcCommand)
    → HasName c
    → cmd_chars c ≡ (c.cmd_int % 256) ∷ (c.cmd_int / 256 % 256) ∷ (c.cmd_int / 65536 % 256) ∷ []
unfolding cmd_chars
cmd_chars_name c h = ground arith

line_of_no_newline : (c : AdcCommand) (sid : ℕ) → IsSendable c sid → HasNoNewline (line_of c sid)
unfolding line_of is_valid_type
line_of_no_newline c sid h = rw (cmd_chars_name c h.name) (
  ground arith,
  (h.name.1.1, (h.name.2.1, (h.name.3.1, spaced_no_newline (header_words c sid ++ c.parameters)))),
)

-- Over the ADC framing, a command of a valid type whose name is three bytes other than NUL and the
-- newline, whose two identifiers fit 32 bits and, like its features, hold no byte to be escaped,
-- and whose features come in fives and are there where its type asks for them, is written as
-- exactly one line: text without a newline and one newline behind it, whatever bytes the parameters
-- hold.
pub to_string_one_line :
    (c : AdcCommand) (sid : ℕ)
    → IsSendable c sid
    → (line : Bytes) × (to_string c sid false ≡ line ++ 10 ∷ []) × HasNoNewline line
to_string_one_line c sid h = (line_of c sid, to_string-line_of c sid h, line_of_no_newline c sid h)
