-- ===== src/Message/Tests.antt =====
-- The theorems of the message cache at inputs that meet their hypotheses.
use airdcpp_core.Base.{ℕ, ◌+◌, ◌≡◌, refl, true, false, [], ◌∷◌}
use airdcpp_core.Message.{
  Highlight, Message, chat, log, sev_verbose, sev_last, MessageCache, add, set_read,
  count_unread_chat_messages, count_unread_log_messages,
}
use airdcpp_core.Message.Counts.{set_read_counts}
use airdcpp_core.Message.Highlights.{all_highlights, add_highlights}

abbrev link : ℕ → Highlight
link n = record { token = n; text = [] }

abbrev spoken : Message
spoken = chat (record { chat_read = false; chat_highlights = link 1 ∷ link 2 ∷ [] })

abbrev logged : Message
logged = log (record { log_read = false; severity = sev_verbose; log_highlights = link 3 ∷ [] })

abbrev cache : MessageCache
cache = record { messages = spoken ∷ logged ∷ []; highlights = link 1 ∷ link 2 ∷ link 3 ∷ [] }

-- A verbose message is reported as read, but is not among the unread ones of all severities.
verbose_uncounted : count_unread_log_messages sev_last cache.messages ≡ 0
unfolding count_unread_log_messages
verbose_uncounted = refl

set_read_counts_example :
    ((set_read cache).1.chat_messages ≡ count_unread_chat_messages (λ m. true) cache.messages)
    × (((set_read cache).1.log_messages
          ≡ count_unread_log_messages sev_last cache.messages
            + count_unread_log_messages sev_verbose cache.messages)
        × ((set_read (set_read cache).0).1 ≡ record { log_messages = 0; chat_messages = 0 }))
set_read_counts_example = set_read_counts cache

add_highlights_example :
    (add 2 (chat (record { chat_read = true; chat_highlights = link 4 ∷ [] })) cache).highlights
    ≡ all_highlights
        (add 2 (chat (record { chat_read = true; chat_highlights = link 4 ∷ [] })) cache).messages
add_highlights_example =
    add_highlights 2 (chat (record { chat_read = true; chat_highlights = link 4 ∷ [] })) cache refl
      ((refl, (refl, (refl, tt))), ((refl, (refl, tt)), ((refl, tt), (tt, tt))))
