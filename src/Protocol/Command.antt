-- ===== src/Protocol/Command.antt =====
-- The command object of airdcpp/protocol/AdcCommand.h: its fields, the command codes and the SIDs.
use airdcpp_core.Base.{
  ℕ, ◌+◌, ◌*◌, ◌/◌, ◌%◌, ◌^◌, ◌<◌, ◌≡◌, Bool, ◌||◌, List, [], ◌∷◌, arith, ◌==◌, if◌then◌else◌,
  Bytes,
}

-- `cmdInt` is the union of the four command bytes; `type` is `kind`. A SID is a uint32_t.
pub record AdcCommand : Type 0 where
  pub parameters : List Bytes
  pub features : Bytes
  pub cmd_int : ℕ
  pub from : ℕ
  pub to : ℕ
  pub kind : ℕ

pub data ParseError : Type 0 where
  too_short invalid_type escape_at_eol unknown_escape : ParseError
  invalid_sid_length invalid_feature_length : ParseError
  missing_from_sid missing_feature missing_to_sid : ParseError

pub data Result {ℓ} (A : Type ℓ) : Type ℓ where
  ok : A → Result A
  err : ParseError → Result A

infixl 5 ◌>>=◌
abbrev pub ◌>>=◌ {ℓ κ} : {A : Type ℓ} {B : Type κ} → Result A → (A → Result B) → Result B
ok a >>= f = f a
err e >>= f = err e

abbrev pub type_broadcast : ℕ
type_broadcast = b'B'

abbrev pub type_client : ℕ
type_client = b'C'

abbrev pub type_direct : ℕ
type_direct = b'D'

abbrev pub type_echo : ℕ
type_echo = b'E'

abbrev pub type_feature : ℕ
type_feature = b'F'

abbrev pub type_info : ℕ
type_info = b'I'

abbrev pub type_hub : ℕ
type_hub = b'H'

abbrev pub type_udp : ℕ
type_udp = b'U'

-- No client has this SID.
abbrev pub hub_sid : ℕ
hub_sid = 0xffffffff

-- `isValidType`.
unfoldable pub is_valid_type : ℕ → Bool
is_valid_type t =
    t == type_broadcast
    || t == type_client
    || t == type_direct
    || t == type_echo
    || t == type_feature
    || t == type_info
    || t == type_hub
    || t == type_udp

-- The test that `parse` and `getHeaderString` repeat: does a command of this type name its sender?
abbrev pub has_from : ℕ → Bool
has_from t = t == type_broadcast || t == type_direct || t == type_echo || t == type_feature

-- ... and its receiver?
abbrev pub has_to : ℕ → Bool
has_to t = t == type_direct || t == type_echo

-- A uint32_t from its bytes in memory, the lowest first.
abbrev pub word_of : ℕ → ℕ → ℕ → ℕ → ℕ
word_of a b c d = a + 256 * (b + 256 * (c + 256 * d))

-- `toSID` reads four bytes; `parse` calls it on words of length 4 only.
unfoldable pub to_sid : Bytes → ℕ
to_sid (a ∷ b ∷ c ∷ d ∷ rest) = word_of a b c d
to_sid _ = 0

unfoldable pub from_sid : ℕ → Bytes
from_sid x = (x % 256) ∷ (x / 256 % 256) ∷ (x / 65536 % 256) ∷ (x / 16777216 % 256) ∷ []

-- `toCommand`, on a text of three bytes.
unfoldable pub to_command : Bytes → ℕ
to_command (a ∷ b ∷ c ∷ rest) = word_of a b c 0
to_command _ = 0

unfoldable pub from_command : ℕ → Bytes
from_command x = (x % 256) ∷ (x / 256 % 256) ∷ (x / 65536 % 256) ∷ []

-- The bytes of a C string up to its NUL.
abbrev pub c_str : Bytes → Bytes
c_str [] = []
c_str (c ∷ s) = if c == 0 then [] else c ∷ c_str s

-- What `tmp += cmdChar` appends.
unfoldable pub cmd_chars : AdcCommand → Bytes
unfolding from_sid
cmd_chars c = c_str (from_sid c.cmd_int)

-- A command that the constructor starts from.
unfoldable pub empty_command : AdcCommand
empty_command = record {
  parameters = [];
  features = [];
  cmd_int = 0;
  from = 0;
  to = 0;
  kind = type_client;
}

-- A SID is read back from its four bytes.
pub to_sid-from_sid : (x : ℕ) → x < 2 ^ 32 → to_sid (from_sid x) ≡ x
unfolding to_sid from_sid
to_sid-from_sid x h = omega arith

-- Four bytes are the text of the SID that they spell.
pub from_sid-word_of :
    (a b c d : ℕ)
    → a < 256
    → b < 256
    → c < 256
    → d < 256
    → from_sid (word_of a b c d) ≡ a ∷ b ∷ c ∷ d ∷ []
unfolding from_sid
from_sid-word_of a b c d ha hb hc hd = ground arith

-- `toCommand` undoes `fromCommand` below 2^24, and the other way on every three bytes.
to_command-from_command : (x : ℕ) → x < 2 ^ 24 → to_command (from_command x) ≡ x
unfolding to_command from_command
to_command-from_command x h = omega arith
