-- ===== src/Protocol/Rejects.antt =====
-- The lines that the constructor of AdcCommand rejects for their escapes.
use airdcpp_core.Base.{
  ℕ, ◌/◌, ◌≡◌, refl, ap, ◌∙◌, inl, inr, Bool, true, false, not, ◌&&◌, ◌||◌, [], ◌∷◌, ◌++◌, arith,
  ◌==◌, if◌then◌else◌, Bool-cases, length, if_both, if_cases, Bytes,
}
use airdcpp_core.Protocol.Command.{
  AdcCommand, Result, ok, err, ◌>>=◌, is_valid_type, empty_command, unknown_escape, type_client,
  word_of,
}
use airdcpp_core.Protocol.Parse.{
  Words, add_word, unescape, scan, parse_body, parse_adc, parse_nmdc, parse, of_line,
}

-- A backslash stands in front of an s, an n or a backslash, over NMDC also of a space.
abbrev pub is_escape : Bool → ℕ → Bool
is_escape nmdc c = (c == b's') || ((c == b'n') || ((c == b'\\') || ((c == b' ') && nmdc)))

-- All escapes of a text are such ones; `escaped` holds right after a backslash.
unfoldable pub escapes_known : (nmdc escaped : Bool) → Bytes → Bool
escapes_known nmdc escaped [] = not escaped
escapes_known nmdc true (c ∷ s) = is_escape nmdc c && escapes_known nmdc false s
escapes_known nmdc false (c ∷ s) = escapes_known nmdc (c == b'\\') s

unfoldable pub is_err : {A : Type 0} → Result A → Bool
is_err (ok a) = false
is_err (err e) = true

is_err-bind_left :
    {A B : Type 0} → (x : Result A) (f : A → Result B) → is_err x ≡ true → is_err (x >>= f) ≡ true
unfolding is_err
is_err-bind_left (ok a) f h = absurd (ground arith)
is_err-bind_left (err e) f h = refl

is_err-bind :
    {A B : Type 0}
    → (x : Result A) (f : A → Result B) → ((a : A) → is_err (f a) ≡ true)
    → is_err (x >>= f) ≡ true
unfolding is_err
is_err-bind (ok a) f h = h a
is_err-bind (err e) f h = refl

is_err-unescape : (nmdc : Bool) (c : ℕ) → is_err (unescape nmdc c) ≡ not (is_escape nmdc c)
unfolding is_err unescape
is_err-unescape nmdc c = by_tests (c == b's') (c == b'n') (c == b'\\') ((c == b' ') && nmdc)
  where
    by_tests :
        (p q r v : Bool)
        → is_err {A = ℕ} (
            if p
            then ok b' '
            else if q
            then ok 10
            else if r
            then ok b'\\'
            else if v
            then ok b' '
            else err unknown_escape)
          ≡ not (p || (q || (r || v)))
    by_tests true q r v = refl
    by_tests false true r v = refl
    by_tests false false true v = refl
    by_tests false false false true = refl
    by_tests false false false false = refl

is_err-scan :
    (t : ℕ) (nmdc : Bool) (s : Bytes) (escaped : Bool) (cur : Bytes) (w : Words)
    → escapes_known nmdc escaped s ≡ false
    → is_err (scan t nmdc s escaped cur w) ≡ true
unfolding escapes_known scan is_err
is_err-scan t nmdc [] true cur w h = refl
is_err-scan t nmdc [] false cur w h = absurd (ground arith)
is_err-scan t nmdc (c ∷ s) true cur w h = elim (Bool-cases (is_escape nmdc c)) [
  | inl e ↦
      is_err-bind (unescape nmdc c) _
        (λ d. is_err-scan t nmdc s false (cur ++ d ∷ []) w (rw e at h))
  | inr e ↦ is_err-bind_left (unescape nmdc c) _ (is_err-unescape nmdc c ∙ ap (λ b. not b) e)
]
is_err-scan t nmdc (c ∷ s) false cur w h =
    if_cases {A = Result (Bytes × Words)} (λ x. is_err x ≡ true) (c == b'\\') _ _
      (λ e. is_err-scan t nmdc s true cur w (rw e at h))
      (λ e.
        if_both {A = Result (Bytes × Words)} (λ x. is_err x ≡ true) (c == b' ') _ _
          (is_err-bind (add_word t cur w) _ (λ v. is_err-scan t nmdc s false [] v (rw e at h)))
          (is_err-scan t nmdc s false (cur ++ c ∷ []) w (rw e at h)))

is_err-parse_body :
    (c : AdcCommand) (t name : ℕ) (nmdc : Bool) (body : Bytes)
    → escapes_known nmdc false body ≡ false
    → is_err (parse_body c t name nmdc body) ≡ true
unfolding parse_body is_err
is_err-parse_body c t name nmdc body h =
    if_both {A = Result AdcCommand} (λ r. is_err r ≡ true) (not (is_valid_type t)) _ _ refl
      (is_err-bind_left (scan t nmdc body false [] _) _ (is_err-scan t nmdc body false [] _ h))

-- A line whose body, the part behind the command name and the byte after it, holds an escape that
-- is not known, or ends behind a backslash, is rejected with an error, whatever its type and fields
-- are: over ADC the escapes are those of a space, a newline and a backslash, over NMDC also a
-- backslash in front of a space.
pub of_line-escapes_known :
    (y a b d x : ℕ) (front body : Bytes) (nmdc : Bool)
    → length front ≡ (if nmdc then 3 else 0)
    → escapes_known nmdc false body ≡ false
    → is_err (of_line (front ++ (y ∷ a ∷ b ∷ d ∷ x ∷ body)) nmdc) ≡ true
unfolding of_line parse parse_adc parse_nmdc
of_line-escapes_known y a b d x [] body false l h =
    is_err-parse_body empty_command y (word_of a b d (empty_command.cmd_int / 16777216)) false body
      h
of_line-escapes_known y a b d x (f ∷ front) body false l h = absurd (omega (arith, l))
of_line-escapes_known y a b d x (f ∷ g ∷ i ∷ []) body true l h =
    is_err-parse_body empty_command type_client (word_of a b d (empty_command.cmd_int / 16777216))
      true body h
of_line-escapes_known y a b d x [] body true l h = absurd (omega (arith, l))
of_line-escapes_known y a b d x (f ∷ []) body true l h = absurd (omega (arith, l))
of_line-escapes_known y a b d x (f ∷ g ∷ []) body true l h = absurd (omega (arith, l))
of_line-escapes_known y a b d x (f ∷ g ∷ i ∷ j ∷ front) body true l h = absurd (omega (arith, l))
