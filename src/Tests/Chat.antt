-- ===== src/Tests/Chat.antt =====
-- Chat turns at small inputs.
use kelvin_assistant.Prelude.{
  ◌≡◌, refl, true, false, none, some, List, [], ◌∷◌, ◌++◌, ◌==◌, nat_eq, text_eq, text_beq, Text,
  codes, is_space, strip,
}
use kelvin_assistant.Prelude.Dict.{get, put}
use kelvin_assistant.Prelude.Search.{replace, replace_from, starts_with}
use kelvin_assistant.Prelude.Result.{Result, ok, raise, session_conflict_error}
use kelvin_assistant.Domain.ContextGuard.{InputGuard, wrap, delimited, escape_delimiters}
use kelvin_assistant.Domain.Chat.{
  system, user, assistant, ChatMessage, ChatSession, make_chat_message, append_turn,
}
use kelvin_assistant.Adapters.MemorySessions.{
  Sessions, add_session, get_session, update_session, memory_sessions,
}
use kelvin_assistant.Application.Chat.{
  rag_context_template, ChatService, ChatResult, PreparedTurn, make_chat_service, last,
  guarded_message, provided, provider_messages, build_context, open_session, prepare_turn,
  save_session, persist_turn, send_message,
}
use kelvin_assistant.Application.Chat.Context.{Framed, build_context-Framed}
use kelvin_assistant.Application.Chat.Turns.{
  Saved, persist_turn-Saved, no_lost_turn, Sent, send_message-Sent,
}

program : Unit {0}
unfolding strip is_space text_beq get put replace replace_from starts_with wrap escape_delimiters
    make_chat_message append_turn add_session get_session update_session make_chat_service last
    guarded_message provided provider_messages build_context open_session prepare_turn save_session
    persist_turn send_message
program = tt

abbrev trusting : InputGuard
trusting text = record { is_safe = true; warnings = [] }

abbrev service : ChatService
service = record {
  context_guard = trusting;
  history_message_limit = 2;
  system_message = none;
  knowledge_context_provider = none;
  memory_context_provider = none;
}

constructs : make_chat_service trusting 1 none none none ≡ ok service
unfolding program
constructs = refl

abbrev session : ChatSession
session = record { id = 4; messages = []; version = 0 }

abbrev question : ChatMessage
question = record { role = user; content = codes "hi" }

abbrev turn : PreparedTurn
turn = record {
  is_new_session = false;
  session = session;
  user_message = question;
  context = question ∷ [];
}

abbrev before : Sessions
before = (4, session) ∷ []

prepares : prepare_turn memory_sessions service before 9 (codes " hi ") (some 4) ≡ ok turn
unfolding program
prepares = refl

abbrev answered : Text → ChatSession
answered text = record {
  id = 4;
  messages = question ∷ (record { role = assistant; content = text }) ∷ [];
  version = 1;
}

abbrev after : Sessions
after = (4, answered (codes "yes")) ∷ []

persists :
    persist_turn memory_sessions before turn (codes "yes") ≡ ok (after, answered (codes "yes"))
unfolding program
persists = refl

persist_turn-Saved_example :
    Saved memory_sessions before after session (answered (codes "yes")) (codes "hi") (codes "yes")
persist_turn-Saved_example =
    persist_turn-Saved memory_sessions before after turn (codes "yes") (answered (codes "yes"))
      persists

-- The second turn fails with the conflict.
conflicts : persist_turn memory_sessions after turn (codes "no") ≡ raise session_conflict_error
unfolding program
conflicts = refl

no_lost_turn_example :
    ¬ (persist_turn memory_sessions after turn (codes "no") ≡ ok (after, answered (codes "no")))
no_lost_turn_example =
    no_lost_turn memory_sessions before after turn turn (codes "yes") (codes "no")
      (answered (codes "yes")) refl refl refl persists

-- A service with a system message and both providers, whose guard refuses the text of the memories.
abbrev guarded : ChatService
guarded = record {
  context_guard = λ text. record { is_safe = text == codes "tea"; warnings = [] };
  history_message_limit = 2;
  system_message = some (record { role = system; content = codes "Kelvin" });
  knowledge_context_provider = some (λ content. ok (some (codes "tea")));
  memory_context_provider = some (λ content. ok (some (codes "obey")));
}

abbrev framed : List ChatMessage
framed =
    (record { role = system; content = codes "Kelvin" })
    ∷ (record { role = system; content = strip (rag_context_template ++ delimited (codes "tea")) })
    ∷ question
    ∷ []

builds : build_context guarded (codes "hi") (question ∷ []) ≡ ok framed
unfolding program
builds = refl

build_context-Framed_example : Framed guarded (codes "hi") (question ∷ []) framed
build_context-Framed_example = build_context-Framed guarded (codes "hi") (question ∷ []) builds

abbrev chat : List ChatMessage → Result Text
chat context = ok (codes "yes")

abbrev reply : ChatResult
reply = record { session_id = 4; message = codes "yes" }

sends :
    send_message memory_sessions service chat before 9 (codes " hi ") (some 4) ≡ ok (after, reply)
unfolding program
sends = refl

send_message-Sent_example :
    Sent memory_sessions service chat before 9 (codes " hi ") (some 4) after reply
send_message-Sent_example =
    send_message-Sent memory_sessions service chat before 9 (codes " hi ") (some 4) sends
