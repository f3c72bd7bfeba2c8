-- ===== src/Message/Highlights.antt =====
-- The map of highlights that `MessageCache` of airdcpp/message/MessageCache.cpp keeps.
use airdcpp_core.Base.{
  subst, ℕ, ◌≡◌, refl, false, List, [], ◌∷◌, ◌++◌, arith, length, Bool-cases, inl, inr, ltb, ◌==◌,
  ==_refl, append-nil, append_assoc, All, ap, ◌∙◌, sym,
}
use airdcpp_core.Message.{
  Message, MessageCache, Highlight, add, pop_oldest, emplace_all, erase_all, get_highlights,
  try_emplace, erase,
}

-- No highlight of the list has the token.
abbrev pub IsNew : Highlight → List Highlight → Type 0
IsNew h hs = All (λ x. (x.token == h.token) ≡ false) hs

abbrev pub IsDistinct : List Highlight → Type 0
IsDistinct [] = Unit
IsDistinct (h ∷ hs) = IsNew h hs × IsDistinct hs

-- The highlights of the messages, in order.
abbrev pub all_highlights : List Message → List Highlight
all_highlights [] = []
all_highlights (m ∷ ms) = get_highlights m ++ all_highlights ms

try_emplace-IsNew :
    (h : Highlight) (hs : List Highlight) → IsNew h hs → try_emplace h hs ≡ hs ++ h ∷ []
unfolding try_emplace
try_emplace-IsNew h [] n = refl
try_emplace-IsNew h (x ∷ hs) (e, n) = rw (e) (ap (λ r. x ∷ r) (try_emplace-IsNew h hs n))

middle_differs :
    (x h : Highlight) (map hs : List Highlight)
    → IsNew x (map ++ h ∷ hs)
    → (x.token == h.token) ≡ false
middle_differs x h [] hs (e, n) = ground (arith, e)
middle_differs x h (y ∷ map) hs (e, n) = middle_differs x h map hs n

IsDistinct-IsNew :
    (h : Highlight) (map hs : List Highlight) → IsDistinct (map ++ h ∷ hs) → IsNew h map
IsDistinct-IsNew h [] hs d = tt
IsDistinct-IsNew h (x ∷ map) hs (n, d) = (middle_differs x h map hs n, IsDistinct-IsNew h map hs d)

emplace_all-append :
    (hs map : List Highlight) → IsDistinct (map ++ hs) → emplace_all hs map ≡ map ++ hs
emplace_all-append [] map d = sym (append-nil map)
emplace_all-append (h ∷ hs) map d =
    ap (emplace_all hs) (try_emplace-IsNew h map (IsDistinct-IsNew h map hs d))
    ∙ emplace_all-append hs (map ++ h ∷ [])
        (subst IsDistinct (sym (append_assoc map (h ∷ []) hs)) d)
    ∙ append_assoc map (h ∷ []) hs

erase_all-append : (hs map : List Highlight) → erase_all hs (hs ++ map) ≡ map
unfolding erase
erase_all-append [] map = refl
erase_all-append (h ∷ hs) map = rw (==_refl h.token) (erase_all-append hs map)

all_highlights-append :
    (ms : List Message) (m : Message)
    → all_highlights (ms ++ m ∷ []) ≡ all_highlights ms ++ get_highlights m
all_highlights-append [] m = append-nil (get_highlights m)
all_highlights-append (x ∷ ms) m =
    ap (λ r. get_highlights x ++ r) (all_highlights-append ms m)
    ∙ sym (append_assoc (get_highlights x) (all_highlights ms) (get_highlights m))

pop_oldest_highlights :
    (limit : ℕ) (ms : List Message)
    → (pop_oldest limit ms (all_highlights ms)).highlights
      ≡ all_highlights (pop_oldest limit ms (all_highlights ms)).messages
pop_oldest_highlights limit [] = refl
pop_oldest_highlights limit (m ∷ ms) = elim (Bool-cases (ltb limit (length (m ∷ ms)))) [
  | inl e ↦ rw (e) (erase_all-append (get_highlights m) (all_highlights ms))
  | inr e ↦ rw (e) refl
]

-- Where the map holds the highlights of the messages and the tokens of all highlights differ,
-- adding a message keeps the map the highlights of the messages that are kept.
pub add_highlights :
    (limit : ℕ) (m : Message) (c : MessageCache)
    → c.highlights ≡ all_highlights c.messages
    → IsDistinct (all_highlights c.messages ++ get_highlights m)
    → (add limit m c).highlights ≡ all_highlights (add limit m c).messages
unfolding add
add_highlights limit m c e d =
    subst
      (λ map.
        (pop_oldest limit (c.messages ++ m ∷ []) map).highlights
        ≡ all_highlights (pop_oldest limit (c.messages ++ m ∷ []) map).messages)
      (sym (
        ap (emplace_all (get_highlights m)) e
        ∙ emplace_all-append (get_highlights m) (all_highlights c.messages) d
        ∙ sym (all_highlights-append c.messages m)))
      (pop_oldest_highlights limit (c.messages ++ m ∷ []))
