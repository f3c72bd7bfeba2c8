-- ===== src/Protocol/Parse.antt =====
-- `AdcCommand::parse` and the constructor from a line.
use airdcpp_core.Base.{
  ℕ, ◌/◌, ◌%◌, Bool, true, false, not, ◌&&◌, List, [], ◌∷◌, ◌++◌, ◌==◌, if◌then◌else◌, Bytes, drop,
  length,
}
use airdcpp_core.Protocol.Command.{
  AdcCommand, too_short, invalid_type, escape_at_eol, unknown_escape, invalid_sid_length,
  invalid_feature_length, missing_from_sid, missing_feature, missing_to_sid, Result, ok, err, ◌>>=◌,
  type_client, type_feature, type_info, hub_sid, is_valid_type, has_from, has_to, to_sid,
  empty_command, word_of,
}

-- What the loop of `parse` changes, beside `cur`: the flags, and the fields that it fills.
pub record Words : Type 0 where
  pub from_set : Bool
  pub to_set : Bool
  pub feature_set : Bool
  pub from : ℕ
  pub to : ℕ
  pub parameters : List Bytes

-- The end of a word, at a space and at the end of the line.
unfoldable pub add_word : ℕ → Bytes → Words → Result Words
add_word t cur w =
    if has_from t && not w.from_set
    then if length cur == 4
      then ok (record w { from = to_sid cur; from_set = true })
      else err invalid_sid_length
    else if has_to t && not w.to_set
    then if length cur == 4
      then ok (record w { to = to_sid cur; to_set = true })
      else err invalid_sid_length
    else if t == type_feature && not w.feature_set
    then if length cur % 5 == 0
      then ok (record w { feature_set = true })
      else err invalid_feature_length
    else ok (record w { parameters = w.parameters ++ cur ∷ [] })

-- The byte that an escape stands for.
unfoldable pub unescape : Bool → ℕ → Result ℕ
unescape nmdc c =
    if c == b's'
    then ok b' '
    else if c == b'n'
    then ok 10
    else if c == b'\\'
    then ok b'\\'
    else if c == b' ' && nmdc
    then ok b' '
    else err unknown_escape

-- The loop. `escaped` holds right after a backslash.
unfoldable pub scan : ℕ → Bool → Bytes → Bool → Bytes → Words → Result (Bytes × Words)
scan t nmdc [] true cur w = err escape_at_eol
scan t nmdc [] false cur w = ok (cur, w)
scan t nmdc (c ∷ s) true cur w = do d ← unescape nmdc c; scan t nmdc s false (cur ++ d ∷ []) w
scan t nmdc (c ∷ s) false cur w =
    let escape = scan t nmdc s true cur w in
    let space = (add_word t cur w >>= λ w'. scan t nmdc s false [] w') in
    let plain = scan t nmdc s false (cur ++ c ∷ []) w in
    if c == b'\\' then escape else if c == b' ' then space else plain

-- The last word, which counts only if it is not empty.
unfoldable pub last_word : ℕ → Bytes → Words → Result Words
last_word t [] w = ok w
last_word t (c ∷ cur) w = add_word t (c ∷ cur) w

-- The checks behind the loop.
unfoldable pub check_words : ℕ → Words → Result Words
check_words t w =
    if has_from t && not w.from_set
    then err missing_from_sid
    else if t == type_feature && not w.feature_set
    then err missing_feature
    else if has_to t && not w.to_set
    then err missing_to_sid
    else ok w

-- The part of `parse` behind the command name: `t` is the type and `body` the line from `i` on.
unfoldable pub parse_body : AdcCommand → ℕ → ℕ → Bool → Bytes → Result AdcCommand
parse_body c t name nmdc body = if not (is_valid_type t) then err invalid_type else do
  let from = if t == type_info then hub_sid else c.from
  let start : Words = record {
    from_set = nmdc;
    to_set = false;
    feature_set = false;
    from = from;
    to = c.to;
    parameters = c.parameters;
  }
  (cur, w) ← scan t nmdc body false [] start
  w' ← last_word t cur w
  w'' ← check_words t w'
  ok (record c {
    cmd_int = name;
    kind = t;
    from = w''.from;
    to = w''.to;
    parameters = w''.parameters;
  })

-- "yxxx ...": the fifth byte is skipped unread. The fourth byte of the union stays as it was.
unfoldable pub parse_adc : AdcCommand → Bytes → Result AdcCommand
parse_adc c (y ∷ a ∷ b ∷ d ∷ rest) =
    parse_body c y (word_of a b d (c.cmd_int / 16777216)) false (drop 1 rest)
parse_adc c _ = err too_short

-- "$ADCxxx ...": the first four bytes are not read.
unfoldable pub parse_nmdc : AdcCommand → Bytes → Result AdcCommand
parse_nmdc c (_ ∷ _ ∷ _ ∷ _ ∷ a ∷ b ∷ d ∷ rest) =
    parse_body c type_client (word_of a b d (c.cmd_int / 16777216)) true (drop 1 rest)
parse_nmdc c _ = err too_short

unfoldable pub parse : AdcCommand → Bytes → Bool → Result AdcCommand
unfolding parse_adc parse_nmdc parse_body scan add_word unescape last_word check_words
parse c line true = parse_nmdc c line
parse c line false = parse_adc c line

-- The constructor from a line.
unfoldable pub of_line : Bytes → Bool → Result AdcCommand
unfolding parse empty_command is_valid_type to_sid
of_line line nmdc = parse empty_command line nmdc
