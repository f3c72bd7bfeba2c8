-- ===== src/Protocol/RoundTrip/Adc.antt =====
-- The round trip between `AdcCommand::toString` and the constructor from a line.
use airdcpp_core.Base.{
  ℕ, ◌/◌, ◌%◌, ◌≡◌, refl, sym, ◌∙◌, ap, false, List, [], ◌∷◌, ◌++◌, arith, ◌==◌, if◌then◌else◌,
  Bytes, drop, All, inl,
}
use airdcpp_core.Protocol.Command.{
  AdcCommand, Result, ok, err, ◌>>=◌, type_info, hub_sid, has_from, has_to, empty_command, word_of,
}
use airdcpp_core.Protocol.Parse.{Words, scan, last_word, check_words, parse_body, of_line}
use airdcpp_core.Protocol.Print.{to_string}
use airdcpp_core.Protocol.RoundTrip.Words.{
  IsReadable, spaced, close, feed, kept, scan-escape_text, scan-spaced,
}
use airdcpp_core.Protocol.RoundTrip.Header.{header_words, fresh, feed_header}
use airdcpp_core.Protocol.RoundTrip.Line.{
  IsSendable, HasName, line_of, to_string-line_of, cmd_chars_name,
}

adc-IsReadable : (v : Bytes) → All (IsReadable false) v
adc-IsReadable [] = tt
adc-IsReadable (c ∷ v) = (inl refl, adc-IsReadable v)

adc_words-IsReadable : (vs : List Bytes) → All (All (IsReadable false)) vs
adc_words-IsReadable [] = tt
adc_words-IsReadable (v ∷ vs) = (adc-IsReadable v, adc_words-IsReadable vs)

-- The loop over a whole body, whose first word has no space before it.
scan_body :
    (t : ℕ) (vs : List Bytes) (w : Words)
    → (scan t false (drop 1 (spaced false vs)) false [] w >>= close t) ≡ feed t vs w
unfolding spaced
scan_body t [] w = unfold scan last_word feed in refl
scan_body t (v ∷ vs) w =
    rw (scan-escape_text t false v (spaced false vs) [] w (adc-IsReadable v))
      (scan-spaced t false vs v w (adc_words-IsReadable vs))

>>=_assoc {ℓ κ υ} :
    {A : Type ℓ} {B : Type κ} {C : Type υ} (m : Result A) (f : A → Result B) (g : B → Result C)
    → (m >>= f >>= g) ≡ (m >>= λ a. f a >>= g)
>>=_assoc (ok a) f g = refl
>>=_assoc (err e) f g = refl

-- The three steps behind the loop, run from what the loop and the last word leave.
pub run_steps {ℓ} :
    {A : Type ℓ} (t : ℕ) (m : Result (Bytes × Words)) (k : Words → Result A) (w : Words)
    → (m >>= close t >>= check_words t) ≡ ok w
    → (m >>= λ p. last_word t p.0 p.1 >>= λ w'. check_words t w' >>= k) ≡ k w
run_steps t (err e) k w h = cc
run_steps t (ok (cur, v)) k w h =
    sym (>>=_assoc (last_word t cur v) (check_words t) k) ∙ ap (λ r. r >>= k) h

-- What comes back: the fields of the line, with one empty last parameter lost.
abbrev pub read_back : AdcCommand → ℕ → AdcCommand
read_back c sid = record {
  parameters = kept c.parameters;
  features = [];
  cmd_int = c.cmd_int;
  from = if has_from c.kind then sid else if c.kind == type_info then hub_sid else 0;
  to = if has_to c.kind then c.to else 0;
  kind = c.kind;
}

parse_body_words :
    (c : AdcCommand) (sid : ℕ)
    → IsSendable c sid
    → parse_body empty_command c.kind c.cmd_int false
        (drop 1 (spaced false (header_words c sid ++ c.parameters)))
      ≡ ok (read_back c sid)
unfolding parse_body empty_command
parse_body_words c sid h =
    let from : ℕ = if c.kind == type_info then hub_sid else 0 in
    let ws : List Bytes = header_words c sid ++ c.parameters in
    rw h.type_valid (
      run_steps c.kind (scan c.kind false (drop 1 (spaced false ws)) false [] (fresh from 0)) _ _ (
        ap (λ r. r >>= check_words c.kind) (scan_body c.kind ws (fresh from 0))
        ∙ feed_header c sid from 0 h.header))

pub word_of_name :
    (c : AdcCommand)
    → HasName c
    → word_of (c.cmd_int % 256) (c.cmd_int / 256 % 256) (c.cmd_int / 65536 % 256) 0 ≡ c.cmd_int
word_of_name c h = omega arith

parse-line_of :
    (c : AdcCommand) (sid : ℕ)
    → IsSendable c sid
    → of_line (line_of c sid) false ≡ ok (read_back c sid)
unfolding of_line line_of
parse-line_of c sid h =
    rw (cmd_chars_name c h.name, word_of_name c h.name) (parse_body_words c sid h)

-- A command whose header fields are printable is written by toString as a line and a newline, and
-- the constructor from that line gives the command back: its name, type, sender, receiver and
-- parameters, but for one empty parameter at the end.
pub of_line-to_string :
    (c : AdcCommand) (sid : ℕ)
    → IsSendable c sid
    → (line : Bytes) × (to_string c sid false ≡ line ++ 10 ∷ [])
      × (of_line line false ≡ ok (read_back c sid))
of_line-to_string c sid h = (line_of c sid, to_string-line_of c sid h, parse-line_of c sid h)
