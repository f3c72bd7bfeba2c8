-- ===== src/Protocol/RoundTrip/Header.antt =====
-- The header words of each kind of command, read back one by one.
use airdcpp_core.Base.{
  ℕ, ◌%◌, ◌^◌, ◌<◌, ◌≡◌, ◌≢◌, refl, ap, inl, inr, true, false, List, [], ◌∷◌, ◌++◌, arith, ◌==◌,
  if◌then◌else◌, Bytes, Bool-cases, length,
}
use airdcpp_core.Protocol.Command.{
  AdcCommand, Result, ok, err, ◌>>=◌, type_feature, has_from, has_to, from_sid, to_sid-from_sid,
}
use airdcpp_core.Protocol.Parse.{Words, add_word, last_word, check_words}
use airdcpp_core.Protocol.RoundTrip.Words.{feed, feed_ready, kept, IsReady}

-- The words between the command name and the parameters.
abbrev pub header_words : AdcCommand → ℕ → List Bytes
header_words c sid =
    (if has_from c.kind then from_sid sid ∷ [] else [])
    ++ (if has_to c.kind then from_sid c.to ∷ [] else [])
    ++ (if c.kind == type_feature then c.features ∷ [] else [])

-- A nonempty word is added wherever it stands.
feed_cons :
    (t b : ℕ) (v : Bytes) (vs : List Bytes) (w : Words)
    → feed t ((b ∷ v) ∷ vs) w ≡ (add_word t (b ∷ v) w >>= feed t vs)
unfolding feed last_word
feed_cons t b v [] w = go (add_word t (b ∷ v) w)
  where
    go : (r : Result Words) → r ≡ (r >>= ok)
    go (ok w') = refl
    go (err e) = refl
feed_cons t b v (u ∷ us) w = refl

add_from :
    (t sid : ℕ) (w : Words)
    → sid < 2 ^ 32
    → has_from t ≡ true
    → w.from_set ≡ false
    → add_word t (from_sid sid) w ≡ ok (record w { from = sid; from_set = true })
unfolding add_word from_sid
add_from t sid w h b e =
    rw (b, e) (ap (λ x. ok (record w { from = x; from_set = true })) (to_sid-from_sid sid h))

add_to :
    (t sid : ℕ) (w : Words)
    → sid < 2 ^ 32
    → has_to t ≡ true
    → w.from_set ≡ true
    → w.to_set ≡ false
    → add_word t (from_sid sid) w ≡ ok (record w { to = sid; to_set = true })
unfolding add_word from_sid
add_to t sid w h b f e = ground (arith, to_sid-from_sid sid h)

add_feature :
    (t : ℕ) (v : Bytes) (w : Words)
    → length v % 5 ≡ 0
    → (t == type_feature) ≡ true
    → w.from_set ≡ true
    → w.feature_set ≡ false
    → add_word t v w ≡ ok (record w { feature_set = true })
unfolding add_word
add_feature t v w h b f e = ground arith

-- A start with no flag set.
abbrev pub fresh : ℕ → ℕ → Words
fresh from to = record {
  from_set = false;
  to_set = false;
  feature_set = false;
  from = from;
  to = to;
  parameters = [];
}

-- The fields that a command must have for its header to be readable.
pub record HasHeader (c : AdcCommand) (sid : ℕ) : Type 0 where
  pub sid_fits : sid < 2 ^ 32
  pub to_fits : c.to < 2 ^ 32
  pub features_fit : length c.features % 5 ≡ 0
  pub features_given : (c.kind == type_feature) ≡ true → c.features ≢ []

abbrev read_words : AdcCommand → ℕ → ℕ → Words
read_words c from to = record {
  from_set = has_from c.kind;
  to_set = has_to c.kind;
  feature_set = c.kind == type_feature;
  from = from;
  to = to;
  parameters = kept c.parameters;
}

-- With the header read, the rest of the words are parameters and the checks pass.
finish :
    (t : ℕ) (ps : List Bytes) (w : Words)
    → IsReady t w
    → (feed t ps w >>= check_words t) ≡ ok (record w { parameters = w.parameters ++ kept ps })
unfolding check_words
finish t ps w (a, b, c) = rw (feed_ready t ps w (a, b, c)) (ground arith)

abbrev HeaderRead : AdcCommand → ℕ → ℕ → ℕ → Type 0
HeaderRead c sid from to =
    (feed c.kind (header_words c sid ++ c.parameters) (fresh from to) >>= check_words c.kind)
    ≡ ok (read_words c (if has_from c.kind then sid else from) (if has_to c.kind then c.to else to))

feed_no_header :
    (c : AdcCommand) (sid from to : ℕ) → has_from c.kind ≡ false → HeaderRead c sid from to
feed_no_header c sid from to e =
    let no_to : has_to c.kind ≡ false = ground arith in
    let no_feature : (c.kind == type_feature) ≡ false = ground arith in
    rw (e, no_to, no_feature)
      (finish c.kind c.parameters (fresh from to) (inl e, inl no_to, inl no_feature))

feed_from :
    (c : AdcCommand) (sid from to : ℕ)
    → HasHeader c sid
    → has_from c.kind ≡ true
    → has_to c.kind ≡ false
    → (c.kind == type_feature) ≡ false
    → HeaderRead c sid from to
unfolding from_sid
feed_from c sid from to h e no_to no_feature =
    rw
      (
        e,
        no_to,
        no_feature,
        feed_cons c.kind _ _ c.parameters (fresh from to),
        add_from c.kind sid (fresh from to) h.sid_fits e refl,
      )
      (finish c.kind c.parameters _ (inr refl, inl no_to, inl no_feature))

feed_to :
    (c : AdcCommand) (sid from to : ℕ)
    → HasHeader c sid
    → has_from c.kind ≡ true
    → has_to c.kind ≡ true
    → HeaderRead c sid from to
unfolding from_sid
feed_to c sid from to h e e' =
    let no_feature : (c.kind == type_feature) ≡ false = ground arith in
    rw
      (
        e,
        e',
        no_feature,
        feed_cons c.kind _ _ (from_sid c.to ∷ c.parameters) (fresh from to),
        add_from c.kind sid (fresh from to) h.sid_fits e refl,
        feed_cons c.kind _ _ c.parameters (record (fresh sid to) { from_set = true }),
        add_to c.kind c.to (record (fresh sid to) { from_set = true }) h.to_fits e' refl refl,
      )
      (finish c.kind c.parameters _ (inr refl, inr refl, inl no_feature))

-- The feature word, which is not empty.
feed_feature_word :
    (t : ℕ) (v : Bytes) (ps : List Bytes) (w : Words)
    → length v % 5 ≡ 0
    → v ≢ []
    → (t == type_feature) ≡ true
    → w.from_set ≡ true
    → w.feature_set ≡ false
    → feed t (v ∷ ps) w ≡ feed t ps (record w { feature_set = true })
feed_feature_word t [] ps w h given b f e = absurd (given refl)
feed_feature_word t (x ∷ v) ps w h given b f e =
    rw (feed_cons t x v ps w, add_feature t (x ∷ v) w h b f e)

feed_feature :
    (c : AdcCommand) (sid from to : ℕ)
    → HasHeader c sid
    → has_from c.kind ≡ true
    → (c.kind == type_feature) ≡ true
    → HeaderRead c sid from to
unfolding from_sid
feed_feature c sid from to h e e' =
    let no_to : has_to c.kind ≡ false = ground arith in
    rw
      (
        e,
        no_to,
        e',
        feed_cons c.kind _ _ (c.features ∷ c.parameters) (fresh from to),
        add_from c.kind sid (fresh from to) h.sid_fits e refl,
        feed_feature_word c.kind c.features c.parameters (record (fresh sid to) { from_set = true })
            h.features_fit (h.features_given e') e' refl refl,
      )
      (finish c.kind c.parameters _ (inr refl, inl no_to, inr refl))

-- The words of a header are read back, whatever its type.
pub feed_header : (c : AdcCommand) (sid from to : ℕ) → HasHeader c sid → HeaderRead c sid from to
feed_header c sid from to h = elim (Bool-cases (has_from c.kind)) [
  | inl e ↦ elim (Bool-cases (has_to c.kind)) [
    | inl e' ↦ feed_to c sid from to h e e'
    | inr e' ↦ elim (Bool-cases (c.kind == type_feature)) [
      | inl e'' ↦ feed_feature c sid from to h e e''
      | inr e'' ↦ feed_from c sid from to h e e' e''
    ]
  ]
  | inr e ↦ feed_no_header c sid from to e
]
