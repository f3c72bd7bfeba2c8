-- ===== src/Connection/Manager/Owned.antt =====
-- Every token of an item is registered, and no two items have one token.
use airdcpp_core.Base.{
  ℕ, ◌+◌, ◌-◌, ◌≤◌, ◌<◌, ◌≡◌, refl, ap, subst, ◌∙◌, inl, inr, Bool, true, false, Option, none, some,
  List, [], ◌∷◌, ◌++◌, arith, ◌==◌, if◌then◌else◌, Bool-cases,
}
use airdcpp_core.Connection.Types.{ConnectionType, download, upload, pm, Item}
use airdcpp_core.Connection.Tokens.{Tokens, find_token, is_registered, create_token, remove_token}
use airdcpp_core.Connection.Item.{new_item}
use airdcpp_core.Connection.Manager.{
  Manager, erase_item, push_item, get_cqi, get_new_cqi, after_token, erase_from, put_cqi,
}

-- How many of the items have the token.
unfoldable pub count_token : ℕ → List Item → ℕ
count_token t [] = 0
count_token t (c ∷ cs) = (if c.token == t then 1 else 0) + count_token t cs

unfoldable pub held : ℕ → Manager → ℕ
unfolding count_token
held t m = count_token t m.downloads + count_token t m.uploads + count_token t m.pms

unfoldable pub IsOwned : Manager → Type 0
IsOwned m = (t : ℕ) → held t m ≤ (if is_registered t m.tokens then 1 else 0)

-- What holds of the manager that is left, where one is.
pub KeepsItem : (Manager → Type 0) → Option (Item × Manager) → Type 0
KeepsItem P none = Unit
KeepsItem P (some r) = P r.1

==→eq : (a b : ℕ) → (a == b) ≡ true → a ≡ b
==→eq a b h = ground arith

count_token-append :
    (t : ℕ) (cs : List Item) (c : Item)
    → count_token t (cs ++ (c ∷ [])) ≡ count_token t cs + (if c.token == t then 1 else 0)
unfolding count_token
count_token-append t [] c = omega arith
count_token-append t (d ∷ cs) c = omega (arith, count_token-append t cs c)

count_token-erase_item :
    (t u : ℕ) (cs : List Item)
    → count_token t (erase_item u cs) ≤ (if u == t then 0 else count_token t cs)
unfolding count_token erase_item
count_token-erase_item t u [] = ground arith
count_token-erase_item t u (c ∷ cs) = ground (arith, count_token-erase_item t u cs)

is_registered_cons :
    (t u : ℕ) (p : ConnectionType) (ts : Tokens)
    → is_registered t (record { key = u; purpose = p } ∷ ts)
      ≡ (if u == t then true else is_registered t ts)
unfolding is_registered find_token
is_registered_cons t u p ts = ground arith

-- Taking a token away leaves the others.
is_registered-remove_token :
    (t u : ℕ) (ts : Tokens)
    → (u == t) ≡ false
    → is_registered t (remove_token u ts) ≡ is_registered t ts
unfolding is_registered find_token remove_token
is_registered-remove_token t u [] h = refl
is_registered-remove_token t u (e ∷ es) h = ground (arith, is_registered-remove_token t u es)

unfoldable pub IsFresh : Tokens → ConnectionType → Option (ℕ × Tokens) → Type 0
IsFresh ts p none = Unit
IsFresh ts p (some r) =
    (is_registered r.0 ts ≡ false) × (r.1 ≡ record { key = r.0; purpose = p } ∷ ts)

pub create_token-IsFresh :
    (draws : List ℕ) (p : ConnectionType) (ts : Tokens) → IsFresh ts p (create_token draws p ts)
unfolding create_token IsFresh
create_token-IsFresh [] p ts = tt
create_token-IsFresh (r ∷ draws) p ts = elim (Bool-cases (is_registered r ts)) [
  | inl e ↦ rw e (create_token-IsFresh draws p ts)
  | inr e ↦ rw e (e, refl)
]

held-push_item :
    (t : ℕ) (c : Item) (p : ConnectionType) (m : Manager)
    → held t (push_item c p m) ≡ held t m + (if c.token == t then 1 else 0)
unfolding held push_item
held-push_item t c download m = omega (arith, count_token-append t m.downloads c)
held-push_item t c upload m = omega (arith, count_token-append t m.uploads c)
held-push_item t c pm m = omega (arith, count_token-append t m.pms c)

push_item_tokens :
    (c : Item) (p : ConnectionType) (m : Manager) → (push_item c p m).tokens ≡ m.tokens
unfolding push_item
push_item_tokens c download m = refl
push_item_tokens c upload m = refl
push_item_tokens c pm m = refl

-- A new item of a new token.
push_item-IsOwned :
    (c : Item) (p : ConnectionType) (ts : Tokens) (m : Manager)
    → IsOwned m
    → is_registered c.token m.tokens ≡ false
    → ts ≡ record { key = c.token; purpose = p } ∷ m.tokens
    → IsOwned (push_item c p (record m { tokens = ts }))
unfolding IsOwned held
push_item-IsOwned c p ts m h f e t =
    owned (held t m) (held t (push_item c p (record m { tokens = ts }))) (c.token == t)
      (is_registered t m.tokens) (is_registered t (push_item c p (record m { tokens = ts })).tokens)
      (held-push_item t c p (record m { tokens = ts }))
      (ap (λ us. is_registered t us) (push_item_tokens c p (record m { tokens = ts }) ∙ e)
        ∙ is_registered_cons t c.token p m.tokens)
      (h t) (λ k. none_held (==→eq c.token t k))
  where
    none_held : c.token ≡ t → held t m ≤ 0
    none_held k = subst (λ u. held u m ≤ 0) k (rw f at (h c.token))

    owned :
        (n n' : ℕ) (same before after : Bool)
        → n' ≡ n + (if same then 1 else 0)
        → after ≡ (if same then true else before)
        → n ≤ (if before then 1 else 0)
        → (same ≡ true → n ≤ 0)
        → n' ≤ (if after then 1 else 0)
    owned n n' same before after a b c d = ground arith

new_cqi-IsOwned :
    (o : Option (ℕ × Tokens)) (user hub_url : ℕ) (p : ConnectionType) (m : Manager)
    → IsOwned m
    → IsFresh m.tokens p o
    → KeepsItem IsOwned (after_token o user hub_url p m)
unfolding after_token KeepsItem IsFresh get_cqi new_item
new_cqi-IsOwned none user hub_url p m h f = tt
new_cqi-IsOwned (some r) user hub_url p m h f =
    push_item-IsOwned (new_item user hub_url p r.0) p r.1 m h f.0 f.1

-- An item that is made with a token that was drawn keeps every token of an item registered and of
-- one item only.
pub get_new_cqi-IsOwned :
    (draws : List ℕ) (user hub_url : ℕ) (p : ConnectionType) (m : Manager)
    → IsOwned m
    → KeepsItem IsOwned (get_new_cqi draws user hub_url p m)
unfolding get_new_cqi
get_new_cqi-IsOwned draws user hub_url p m h =
    new_cqi-IsOwned (create_token draws p m.tokens) user hub_url p m h
      (create_token-IsFresh draws p m.tokens)

-- The list that an item stands in.
abbrev pub items_of : ConnectionType → Manager → List Item
items_of download m = m.downloads
items_of upload m = m.uploads
items_of pm m = m.pms

held-erase_from :
    (t tick : ℕ) (c : Item) (p : ConnectionType) (m : Manager)
    → held t (erase_from c p tick m)
      ≤ held t m - (if c.token == t then count_token t (items_of p m) else 0)
unfolding held erase_from
held-erase_from t tick c download m = ground (arith, count_token-erase_item t c.token m.downloads)
held-erase_from t tick c upload m = ground (arith, count_token-erase_item t c.token m.uploads)
held-erase_from t tick c pm m = ground (arith, count_token-erase_item t c.token m.pms)

erase_from_tokens :
    (tick : ℕ) (c : Item) (p : ConnectionType) (m : Manager)
    → (erase_from c p tick m).tokens ≡ m.tokens
unfolding erase_from
erase_from_tokens tick c download m = ground arith
erase_from_tokens tick c upload m = refl
erase_from_tokens tick c pm m = refl

-- Removing an item that stands in its list keeps every token of an item registered and of one item
-- only.
pub put_cqi-IsOwned :
    (tick : ℕ) (c : Item) (m : Manager)
    → IsOwned m
    → 0 < count_token c.token (items_of c.conn_type m)
    → IsOwned (put_cqi tick c m)
unfolding put_cqi IsOwned held
put_cqi-IsOwned tick c m h k t =
    owned (held t m) (held t (erase_from c c.conn_type tick m))
      (count_token t (items_of c.conn_type m)) (c.token == t) (is_registered t m.tokens)
      (is_registered t (remove_token c.token (erase_from c c.conn_type tick m).tokens))
      (held-erase_from t tick c c.conn_type m) (h t)
      (λ e. subst (λ u. 0 < count_token u (items_of c.conn_type m)) (==→eq c.token t e) k)
      (λ e.
        is_registered-remove_token t c.token (erase_from c c.conn_type tick m).tokens e
        ∙ ap (λ us. is_registered t us) (erase_from_tokens tick c c.conn_type m))
  where
    owned :
        (n n' w : ℕ) (same before after : Bool)
        → n' ≤ n - (if same then w else 0)
        → n ≤ (if before then 1 else 0)
        → (same ≡ true → 0 < w)
        → (same ≡ false → after ≡ before)
        → n' ≤ (if after then 1 else 0)
    owned n n' w true before after a b c d = ground (arith, c refl)
    owned n n' w false before after a b c d = ground (arith, d refl)
