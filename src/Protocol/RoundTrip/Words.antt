-- ===== src/Protocol/RoundTrip/Words.antt =====
-- A line as the list of its words, and what the loop of `parse` makes of such a line.
use airdcpp_core.Base.{
  ℕ, ◌≡◌, ◌≢◌, refl, sym, ◌∙◌, ◌⊎◌, Bool, true, false, List, [], ◌∷◌, ◌++◌, append-nil,
  append_assoc, arith, ◌==◌, Bytes, All,
}
use airdcpp_core.Protocol.Command.{Result, ok, err, ◌>>=◌, type_feature, has_from, has_to}
use airdcpp_core.Protocol.Escape.{hide, hide_byte, escape_text, escape-escape_text}
use airdcpp_core.Protocol.Parse.{Words, add_word, unescape, scan, last_word}
use airdcpp_core.Protocol.Print.{param_loop}

-- The words of a line, each behind a space.
unfoldable pub spaced : Bool → List Bytes → Bytes
spaced nmdc [] = []
spaced nmdc (v ∷ vs) = b' ' ∷ (escape_text nmdc v ++ spaced nmdc vs)

pub spaced-append :
    (nmdc : Bool) (vs us : List Bytes) → spaced nmdc (vs ++ us) ≡ spaced nmdc vs ++ spaced nmdc us
unfolding spaced
spaced-append nmdc [] us = refl
spaced-append nmdc (v ∷ vs) us = simp (spaced-append nmdc vs us, append_assoc)

pub param_loop-spaced :
    (nmdc : Bool) (ps : List Bytes) (tmp : Bytes) → param_loop nmdc ps tmp ≡ tmp ++ spaced nmdc ps
unfolding param_loop spaced
param_loop-spaced nmdc [] tmp = sym (append-nil tmp)
param_loop-spaced nmdc (p ∷ ps) tmp =
    simp (param_loop-spaced nmdc ps, escape-escape_text, append_assoc)

-- The bytes that the parser reads back: the old escaping loses a newline.
abbrev pub IsReadable : Bool → ℕ → Type 0
IsReadable nmdc c = (nmdc ≡ false) ⊎ (c ≢ 10)

scan-hide_byte :
    (t : ℕ) (nmdc : Bool) (c : ℕ) (rest cur : Bytes) (w : Words)
    → IsReadable nmdc c
    → scan t nmdc (hide_byte nmdc c ++ rest) false cur w ≡ scan t nmdc rest false (cur ++ c ∷ []) w
unfolding scan unescape hide
scan-hide_byte t true c rest cur w h = ground arith
scan-hide_byte t false c rest cur w h = ground arith

-- The loop reads an escaped word into `cur`.
pub scan-escape_text :
    (t : ℕ) (nmdc : Bool) (v rest cur : Bytes) (w : Words)
    → All (IsReadable nmdc) v
    → scan t nmdc (escape_text nmdc v ++ rest) false cur w ≡ scan t nmdc rest false (cur ++ v) w
unfolding escape_text
scan-escape_text t nmdc [] rest cur w h = rw append-nil
scan-escape_text t nmdc (c ∷ v) rest cur w (hc, h) = rw (
  append_assoc (hide_byte nmdc c) (escape_text nmdc v) rest,
  scan-hide_byte t nmdc c _ cur w hc,
  scan-escape_text t nmdc v rest _ w h,
  append_assoc,
)

-- The words added in turn. An empty last word does not count.
unfoldable pub feed : ℕ → List Bytes → Words → Result Words
feed t [] w = ok w
feed t (v ∷ []) w = last_word t v w
feed t (v ∷ u ∷ us) w = add_word t v w >>= feed t (u ∷ us)

abbrev pub close : ℕ → Bytes × Words → Result Words
close t (cur, w) = last_word t cur w

scan_space :
    (t : ℕ) (nmdc : Bool) (s cur : Bytes) (w : Words)
    → scan t nmdc (b' ' ∷ s) false cur w ≡ (add_word t cur w >>= λ w'. scan t nmdc s false [] w')
unfolding scan
scan_space t nmdc s cur w = refl

pub scan-spaced :
    (t : ℕ) (nmdc : Bool) (vs : List Bytes) (cur : Bytes) (w : Words)
    → All (All (IsReadable nmdc)) vs
    → (scan t nmdc (spaced nmdc vs) false cur w >>= close t) ≡ feed t (cur ∷ vs) w
unfolding spaced feed
scan-spaced t nmdc [] cur w h = unfold scan in refl
scan-spaced t nmdc (v ∷ vs) cur w (hv, h) =
    rw scan_space (go (add_word t cur w) (λ w'. scan-spaced t nmdc vs v w' h))
  where
    go :
        (r : Result Words)
        → ((w' : Words)
            → (scan t nmdc (spaced nmdc vs) false v w' >>= close t) ≡ feed t (v ∷ vs) w')
        → ((r >>= λ w'. scan t nmdc (escape_text nmdc v ++ spaced nmdc vs) false [] w') >>= close t)
          ≡ (r >>= feed t (v ∷ vs))
    go (err e) rest = refl
    go (ok w') rest = rw (scan-escape_text t nmdc v (spaced nmdc vs) [] w' hv) (rest w')

-- The parameters that the reader keeps: all, but for one empty parameter at the end.
abbrev pub kept : List Bytes → List Bytes
kept [] = []
kept ([] ∷ []) = []
kept ((c ∷ v) ∷ []) = (c ∷ v) ∷ []
kept (v ∷ u ∷ us) = v ∷ kept (u ∷ us)

-- The header words of the type have all been read.
abbrev pub IsReady : ℕ → Words → Type 0
IsReady t w =
    ((has_from t ≡ false) ⊎ (w.from_set ≡ true))
    × ((has_to t ≡ false) ⊎ (w.to_set ≡ true))
    × (((t == type_feature) ≡ false) ⊎ (w.feature_set ≡ true))

add_word_ready :
    (t : ℕ) (v : Bytes) (w : Words)
    → IsReady t w
    → add_word t v w ≡ ok (record w { parameters = w.parameters ++ v ∷ [] })
unfolding add_word
add_word_ready t v w (a, b, c) = ground arith

pub feed_ready :
    (t : ℕ) (vs : List Bytes) (w : Words)
    → IsReady t w
    → feed t vs w ≡ ok (record w { parameters = w.parameters ++ kept vs })
unfolding feed last_word
feed_ready t [] w h = rw append-nil
feed_ready t ([] ∷ []) w h = rw append-nil
feed_ready t ((c ∷ v) ∷ []) w h = add_word_ready t (c ∷ v) w h
feed_ready t (v ∷ u ∷ us) w h =
    rw (add_word_ready t v w h) (feed_ready t (u ∷ us) _ h ∙ simp append_assoc)
