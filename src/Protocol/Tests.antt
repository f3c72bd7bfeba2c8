-- ===== src/Protocol/Tests.antt =====
-- Tests of the protocol modules at concrete commands, and the theorems at inputs that meet their
-- hypotheses.
use airdcpp_core.Base.{◌≡◌, refl, true, false, [], ◌∷◌, ◌++◌, arith, Bytes, codes}
use airdcpp_core.Protocol.Command.{AdcCommand, ok, err, escape_at_eol, is_valid_type, from_sid}
use airdcpp_core.Protocol.Escape.{escape}
use airdcpp_core.Protocol.Parse.{of_line}
use airdcpp_core.Protocol.Print.{to_string}
use airdcpp_core.Protocol.Rejects.{escapes_known, is_err, of_line-escapes_known}
use airdcpp_core.Protocol.RoundTrip.Line.{IsSendable, HasNoNewline, to_string_one_line}
use airdcpp_core.Protocol.RoundTrip.Adc.{read_back, of_line-to_string}
use airdcpp_core.Protocol.RoundTrip.Nmdc.{nmdc_read_back, of_line-to_string_nmdc}

spaces : escape (codes "a b\\c d") false ≡ codes "a\\sb\\\\c\\sd"
unfolding escape
spaces = refl

broadcast_line :
    of_line (codes "BMSG AAAA a\\sb c ") false
    ≡ ok (record {
      parameters = codes "a b" ∷ codes "c" ∷ [];
      features = [];
      cmd_int = 4674381;
      from = 1094795585;
      to = 0;
      kind = b'B';
    })
unfolding of_line
broadcast_line = refl

escape_at_end : of_line (codes "HMSG a\\") false ≡ err escape_at_eol
unfolding of_line
escape_at_end = refl

-- A direct message with two parameters, the first of which needs escaping.
abbrev direct_message : AdcCommand
direct_message = record {
  parameters = codes "hi there" ∷ codes "x\\y" ∷ [];
  features = [];
  cmd_int = 4674381;
  from = 0;
  to = 1094795585;
  kind = b'D';
}

direct_message-IsSendable : IsSendable direct_message 1111638594
unfolding is_valid_type from_sid
direct_message-IsSendable = record {
  type_valid = refl;
  name = omega arith;
  header = record {
    sid_fits = omega arith;
    to_fits = omega arith;
    features_fit = refl;
    features_given = λ h. cc;
  };
  sid_plain = (refl, (refl, (refl, (refl, tt))));
  to_plain = (refl, (refl, (refl, (refl, tt))));
  features_plain = tt;
}

to_string_one_line_example :
    (line : Bytes) × (to_string direct_message 1111638594 false ≡ line ++ 10 ∷ [])
    × HasNoNewline line
to_string_one_line_example = to_string_one_line direct_message 1111638594 direct_message-IsSendable

of_line-to_string_example :
    (line : Bytes) × (to_string direct_message 1111638594 false ≡ line ++ 10 ∷ [])
    × (of_line line false ≡ ok (read_back direct_message 1111638594))
of_line-to_string_example = of_line-to_string direct_message 1111638594 direct_message-IsSendable

abbrev get_command : AdcCommand
get_command = record {
  parameters = codes "file" ∷ codes "a b" ∷ codes "0" ∷ [];
  features = [];
  cmd_int = 5522759;
  from = 0;
  to = 0;
  kind = b'C';
}

of_line-to_string_nmdc_example :
    (line : Bytes) × (to_string get_command 0 true ≡ line ++ b'|' ∷ [])
    × (of_line line true ≡ ok (nmdc_read_back get_command))
of_line-to_string_nmdc_example =
    of_line-to_string_nmdc get_command 0 refl (omega arith) (ground arith)

-- A tab after a backslash.
of_line-escapes_known_example :
    is_err (of_line ([] ++ (b'B' ∷ b'M' ∷ b'S' ∷ b'G' ∷ b' ' ∷ codes "AAAA a\\tb")) false) ≡ true
unfolding escapes_known
of_line-escapes_known_example =
    of_line-escapes_known b'B' b'M' b'S' b'G' b' ' [] (codes "AAAA a\\tb") false refl refl
