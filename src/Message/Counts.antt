-- ===== src/Message/Counts.antt =====
-- The unread messages that `MessageCache` of airdcpp/message/MessageCache.cpp counts, and its size.
use airdcpp_core.Base.{
  ℕ, suc, ◌+◌, ◌≡◌, refl, true, List, [], ◌∷◌, ◌++◌, arith, length, length-append, Bool-cases, inl,
  inr, ltb, if◌then◌else◌,
}
use airdcpp_core.Message.{
  counts_severity, Message, chat, log, MessageCache, MessageCount, Severity, sev_last, sev_verbose,
  count_unread_log_messages, count_unread_chat_messages, read_all, set_read, add, pop_oldest,
  emplace_all, get_highlights,
}

read_all_twice : (ms : List Message) (c c' : MessageCount) → (read_all (read_all ms c).0 c').1 ≡ c'
unfolding read_all
read_all_twice [] c c' = refl
read_all_twice (chat m ∷ ms) c c' = read_all_twice ms _ c'
read_all_twice (log m ∷ ms) c c' = read_all_twice ms _ c'

read_all_counts :
    (ms : List Message) (c : MessageCount)
    → ((read_all ms c).1.chat_messages
        ≡ c.chat_messages + count_unread_chat_messages (λ m. true) ms)
      × ((read_all ms c).1.log_messages
          ≡ c.log_messages
            + (count_unread_log_messages sev_last ms + count_unread_log_messages sev_verbose ms))
unfolding read_all count_unread_chat_messages count_unread_log_messages
read_all_counts [] c = (omega arith, omega arith)
read_all_counts (chat m ∷ ms) c = elim (Bool-cases m.chat_read) [
  | inl e ↦ rw (e) omega (arith, read_all_counts ms c)
  | inr e ↦
      rw (e) omega (arith, read_all_counts ms (record c { chat_messages = c.chat_messages + 1 }))
]
read_all_counts (log m ∷ ms) c = elim (Bool-cases m.log_read) [
  | inl e ↦ rw (e) omega (arith, read_all_counts ms c, read_adds m.severity)
  | inr e ↦ rw (e) omega (
    arith,
    read_all_counts ms (record c { log_messages = c.log_messages + 1 }),
    unread_adds m.severity,
  )
]
  where
    a : ℕ
    a = count_unread_log_messages sev_last ms

    b : ℕ
    b = count_unread_log_messages sev_verbose ms

    unread_adds :
        (s : Severity)
        → (if counts_severity sev_last s then suc a else a)
            + (if counts_severity sev_verbose s then suc b else b)
          ≡ suc (a + b)
    unread_adds s = ground arith

    read_adds :
        (s : Severity)
        → (if counts_severity sev_last s then a else a)
            + (if counts_severity sev_verbose s then b else b)
          ≡ a + b
    read_adds s = ground arith

-- setRead reports the unread chat messages and the unread log messages of all severities, the
-- verbose ones too, and leaves none to report.
pub set_read_counts :
    (c : MessageCache)
    → ((set_read c).1.chat_messages ≡ count_unread_chat_messages (λ m. true) c.messages)
      × (((set_read c).1.log_messages
            ≡ count_unread_log_messages sev_last c.messages
              + count_unread_log_messages sev_verbose c.messages)
          × ((set_read (set_read c).0).1 ≡ record { log_messages = 0; chat_messages = 0 }))
unfolding set_read
set_read_counts c =
    let zeros : MessageCount = record { log_messages = 0; chat_messages = 0 } in
    let (x, y) = read_all_counts c.messages zeros in
    (omega (arith, x), (omega (arith, y), read_all_twice c.messages zeros zeros))

-- A message added makes the cache one longer, or leaves its length if that would be above the
-- limit.
pub add_size :
    (limit : ℕ) (m : Message) (c : MessageCache)
    → length (add limit m c).messages
      ≡ (if ltb limit (length c.messages + 1) then length c.messages else length c.messages + 1)
unfolding add
add_size limit m c = go (c.messages ++ m ∷ []) (length-append c.messages (m ∷ []))
  where
    go :
        (ms : List Message)
        → length ms ≡ length c.messages + 1
        → length (pop_oldest limit ms (emplace_all (get_highlights m) c.highlights)).messages
          ≡ (if ltb limit (length c.messages + 1) then length c.messages else length c.messages + 1)
    go [] e = omega (arith, e)
    go (x ∷ ms) e = ground (arith, e)
