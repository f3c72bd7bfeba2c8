-- ===== src/Connection/Manager.antt =====
-- The state of ConnectionManager, and the items it holds.
pub mod Owned
use airdcpp_core.Base.{
  ℕ, ◌+◌, ◌*◌, Bool, false, ◌&&◌, ◌||◌, Option, none, some, List, ◌∷◌, ◌++◌, ltb, ◌==◌,
  if◌then◌else◌, [],
}
use airdcpp_core.Connection.Types.{
  ConnectionType, download, upload, pm, Item, UserConnection, State, QueueDownloadType, mcn_normal,
  small,
}
use airdcpp_core.Connection.Tokens.{Tokens, create_token, remove_token}
use airdcpp_core.Connection.Item.{new_item, is_active}

-- `removed` are the tokens of downloads that were removed before their handshake, with the time.
pub record Removed : Type 0 where
  pub removed_token : ℕ
  pub since : ℕ

pub record Expected : Type 0 where
  pub expected_key : ℕ
  pub my_nick : ℕ
  pub expected_hub : ℕ

pub record Manager : Type 0 where
  pub downloads : List Item
  pub uploads : List Item
  pub pms : List Item
  pub tokens : Tokens
  pub removed : List Removed
  pub connections : List UserConnection
  pub expected : List Expected
  pub shutting_down : Bool

unfoldable pub find_item : ℕ → List Item → Option Item
find_item t [] = none
find_item t (c ∷ cs) = let rest = find_item t cs in if c.token == t then some c else rest

unfoldable pub find_user_item : ℕ → List Item → Option Item
find_user_item u [] = none
find_user_item u (c ∷ cs) = let rest = find_user_item u cs in if c.user == u then some c else rest

-- An item is known by its token: a pointer to it is modelled by that.
unfoldable pub erase_item : ℕ → List Item → List Item
erase_item t [] = []
erase_item t (c ∷ cs) = let rest = erase_item t cs in if c.token == t then rest else c ∷ rest

-- A change of an item through its pointer.
unfoldable pub update_item : (Item → Item) → ℕ → List Item → List Item
update_item f t [] = []
update_item f t (c ∷ cs) =
    let rest = update_item f t cs in if c.token == t then f c ∷ cs else c ∷ rest

unfoldable pub push_item : Item → ConnectionType → Manager → Manager
push_item c download m = record m { downloads = m.downloads ++ (c ∷ []) }
push_item c upload m = record m { uploads = m.uploads ++ (c ∷ []) }
push_item c pm m = record m { pms = m.pms ++ (c ∷ []) }

-- getCQIUnsafe with a token, and without one, where a token is made from the numbers drawn.
unfoldable pub get_cqi :
    (user hub_url : ℕ) → ConnectionType → (token : ℕ) → Manager → Item × Manager
unfolding new_item push_item
get_cqi user hub_url type token m =
    let c = new_item user hub_url type token in (c, push_item c type m)

unfoldable pub after_token :
    Option (ℕ × Tokens) → (user hub_url : ℕ) → ConnectionType → Manager → Option (Item × Manager)
unfolding get_cqi
after_token none user hub_url type m = none
after_token (some r) user hub_url type m =
    some (get_cqi user hub_url type r.0 (record m { tokens = r.1 }))

unfoldable pub get_new_cqi :
    (draws : List ℕ) (user hub_url : ℕ) → ConnectionType → Manager → Option (Item × Manager)
unfolding create_token after_token
get_new_cqi draws user hub_url type m =
    after_token (create_token draws type m.tokens) user hub_url type m

-- removedDownloadTokens[token] = tick
unfoldable pub note_removed : (token tick : ℕ) → List Removed → List Removed
note_removed t tick [] = record { removed_token = t; since = tick } ∷ []
note_removed t tick (r ∷ rs) =
    let rest = note_removed t tick rs in
    if r.removed_token == t then record r { since = tick } ∷ rs else r ∷ rest

unfoldable pub erase_from : Item → ConnectionType → (tick : ℕ) → Manager → Manager
unfolding erase_item note_removed
erase_from c download tick m =
    let less = record m { downloads = erase_item c.token m.downloads } in
    if is_active c then less else record less { removed = note_removed c.token tick m.removed }
erase_from c upload tick m = record m { uploads = erase_item c.token m.uploads }
erase_from c pm tick m = record m { pms = erase_item c.token m.pms }

unfoldable pub put_cqi : (tick : ℕ) → Item → Manager → Manager
unfolding erase_from remove_token
put_cqi tick c m =
    let less = erase_from c c.conn_type tick m in
    record less { tokens = remove_token c.token less.tokens }

-- getConnection and putConnection, of the list of connections.
unfoldable pub erase_connection : ℕ → List UserConnection → List UserConnection
erase_connection i [] = []
erase_connection i (u ∷ us) =
    let rest = erase_connection i us in if u.id == i then rest else u ∷ rest

unfoldable pub put_connection : UserConnection → Manager → Manager
unfolding erase_connection
put_connection u m = record m { connections = erase_connection u.id m.connections }

-- findUserConnection by the token of a connect request.
unfoldable pub has_connection : ℕ → List UserConnection → Bool
has_connection t [] = false
has_connection t (u ∷ us) = (u.connect_token == t) || has_connection t us

unfoldable pub is_mcn_user : ℕ → List UserConnection → Bool
is_mcn_user v [] = false
is_mcn_user v (u ∷ us) =
    (elim u.uc_user [ none ↦ false | some w ↦ (w == v) && u.supports_mcn ]) || is_mcn_user v us

-- ExpectedMap::add and ExpectedMap::remove; a pair of empty strings where nothing is expected.
unfoldable pub add_expected : (key my_nick hub : ℕ) → List Expected → List Expected
add_expected k n h [] = record { expected_key = k; my_nick = n; expected_hub = h } ∷ []
add_expected k n h (e ∷ es) =
    let rest = add_expected k n h es in if e.expected_key == k then e ∷ es else e ∷ rest

unfoldable pub remove_expected : (key : ℕ) → List Expected → (ℕ × ℕ) × List Expected
remove_expected k [] = ((0, 0), [])
remove_expected k (e ∷ es) =
    let rest = remove_expected k es in
    if e.expected_key == k then ((e.my_nick, e.expected_hub), es) else (rest.0, e ∷ rest.1)

-- The loop of the minute timer over the removed downloads.
unfoldable pub expire_removed : (tick : ℕ) → List Removed → List Removed
expire_removed tick [] = []
expire_removed tick (r ∷ rs) =
    let rest = expire_removed tick rs in if ltb (r.since + 90 * 1000) tick then rest else r ∷ rest
