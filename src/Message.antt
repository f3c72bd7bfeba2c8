-- ===== src/Message.antt =====
-- `MessageCache` of airdcpp/message/MessageCache.cpp, with the parts of airdcpp/message/Message.h that it
-- reads. The limit of the settings is an argument of `add`.
use airdcpp_core.Base.{
  ℕ, zero, suc, ◌+◌, Bool, true, false, List, [], ◌∷◌, ◌++◌, ltb, ◌==◌, if◌then◌else◌, Option, none,
  some, length, Bytes,
}
mod Tests
pub mod Counts
pub mod Highlights

pub record Highlight : Type 0 where
  pub token : ℕ
  pub text : Bytes

pub data Severity : Type 0 where
  sev_notify sev_verbose sev_info sev_warning sev_error sev_last : Severity

pub record ChatMessage : Type 0 where
  pub chat_read : Bool
  pub chat_highlights : List Highlight

pub record LogMessage : Type 0 where
  pub log_read : Bool
  pub severity : Severity
  pub log_highlights : List Highlight

pub data Message : Type 0 where
  chat : ChatMessage → Message
  log : LogMessage → Message

abbrev pub get_highlights : Message → List Highlight
get_highlights (chat m) = m.chat_highlights
get_highlights (log m) = m.log_highlights

-- `highlights` is a map by token: a list with one entry for each key.
pub record MessageCache : Type 0 where
  pub messages : List Message
  pub highlights : List Highlight

pub record MessageCount : Type 0 where
  pub log_messages : ℕ
  pub chat_messages : ℕ

-- A message marked as read, and what that adds to the counts.
abbrev pub read_message : Message → Message
read_message (chat m) = chat (record m { chat_read = true })
read_message (log m) = log (record m { log_read = true })

abbrev pub count_read : Message → MessageCount → MessageCount
count_read (chat m) c = if m.chat_read then c else record c { chat_messages = c.chat_messages + 1 }
count_read (log m) c = if m.log_read then c else record c { log_messages = c.log_messages + 1 }

-- The loop of `setRead`.
unfoldable pub read_all : List Message → MessageCount → List Message × MessageCount
read_all [] c = ([], c)
read_all (m ∷ ms) c = let (ms', c') = read_all ms (count_read m c) in (read_message m ∷ ms', c')

unfoldable pub set_read : MessageCache → MessageCache × MessageCount
unfolding read_all
set_read c =
    let (ms, count) = read_all c.messages (record { log_messages = 0; chat_messages = 0 }) in
    (record c { messages = ms }, count)

-- A map's lookup, `try_emplace` and `erase`.
unfoldable pub find_highlight : ℕ → List Highlight → Option Highlight
find_highlight token [] = none
find_highlight token (h ∷ hs) = if h.token == token then some h else find_highlight token hs

unfoldable pub try_emplace : Highlight → List Highlight → List Highlight
try_emplace h [] = h ∷ []
try_emplace h (x ∷ hs) = if x.token == h.token then x ∷ hs else x ∷ try_emplace h hs

unfoldable pub erase : ℕ → List Highlight → List Highlight
erase token [] = []
erase token (h ∷ hs) = if h.token == token then hs else h ∷ erase token hs

unfoldable pub find_message_highlight : ℕ → MessageCache → Option Highlight
unfolding find_highlight
find_message_highlight token c = find_highlight token c.highlights

unfoldable pub clear : MessageCache → MessageCache × ℕ
clear c = (record { messages = []; highlights = [] }, length c.messages)

-- With no filter the test is always true.
unfoldable pub count_unread_chat_messages : (ChatMessage → Bool) → List Message → ℕ
count_unread_chat_messages filter [] = 0
count_unread_chat_messages filter (log m ∷ ms) = count_unread_chat_messages filter ms
count_unread_chat_messages filter (chat m ∷ ms) =
    let rest = count_unread_chat_messages filter ms in
    if filter m then if m.chat_read then rest else suc rest else rest

abbrev pub same_severity : Severity → Severity → Bool
same_severity sev_notify sev_notify = true
same_severity sev_verbose sev_verbose = true
same_severity sev_info sev_info = true
same_severity sev_warning sev_warning = true
same_severity sev_error sev_error = true
same_severity sev_last sev_last = true
same_severity _ _ = false

-- `SEV_LAST` asks for all severities but the verbose one.
abbrev pub counts_severity : Severity → Severity → Bool
counts_severity sev_last sev_verbose = false
counts_severity sev_last _ = true
counts_severity asked s = same_severity s asked

unfoldable pub count_unread_log_messages : Severity → List Message → ℕ
count_unread_log_messages asked [] = 0
count_unread_log_messages asked (chat m ∷ ms) = count_unread_log_messages asked ms
count_unread_log_messages asked (log m ∷ ms) =
    let rest = count_unread_log_messages asked ms in
    if counts_severity asked m.severity then if m.log_read then rest else suc rest else rest

abbrev pub emplace_all : List Highlight → List Highlight → List Highlight
emplace_all [] map = map
emplace_all (h ∷ hs) map = emplace_all hs (try_emplace h map)

abbrev pub erase_all : List Highlight → List Highlight → List Highlight
erase_all [] map = map
erase_all (h ∷ hs) map = erase_all hs (erase h.token map)

-- The second half of `add`: the oldest message goes where there are more than the limit.
abbrev pub pop_oldest : ℕ → List Message → List Highlight → MessageCache
pop_oldest limit [] map = record { messages = []; highlights = map }
pop_oldest limit (m ∷ ms) map =
    if ltb limit (length (m ∷ ms))
    then record { messages = ms; highlights = erase_all (get_highlights m) map }
    else record { messages = m ∷ ms; highlights = map }

unfoldable pub add : ℕ → Message → MessageCache → MessageCache
unfolding try_emplace erase
add limit m c =
    pop_oldest limit (c.messages ++ m ∷ []) (emplace_all (get_highlights m) c.highlights)
