-- ===== src/Application/Chat.antt =====
-- `ChatService` of application/chat.py, over a session store with state `S`, a language model and
-- two providers of context. A turn is prepared before the model answers and persisted after it:
-- other turns may change the store between the two, so they are steps of their own.
pub mod Context
pub mod Turns
use kelvin_assistant.Prelude.{
  ℕ, ◌-◌, ◌*◌, Bool, true, false, Option, none, some, List, [], ◌∷◌, ◌++◌, Text, codes, length,
  drop, nat_beq, if◌then◌else◌,
}
use kelvin_assistant.Prelude.Search.{join}
use kelvin_assistant.Prelude.Result.{Result, ok, raise, ◌>>=◌, ◌>>◌, raise_if, value_error}
use kelvin_assistant.Domain.ContextGuard.{InputGuard, GuardedContent, wrap, line_feed}
use kelvin_assistant.Domain.Chat.{
  ChatRole, system, user, ChatMessage, make_chat_message, ChatSession, create_session, append_turn,
}
use kelvin_assistant.Ports.Sessions.{SessionStore}

-- The templates before their `{context}`, which ends them.
abbrev pub rag_context_template : Text
rag_context_template =
    codes "Use the following local knowledge base excerpts if they are relevant to "
    ++ codes "the user's question. If they are not relevant, ignore them. Do not invent "
    ++ codes "sources."
    ++ line_feed
    ++ line_feed

abbrev pub memory_context_template : Text
memory_context_template =
    codes "Use the following long-term memories to personalize the answer if they "
    ++ codes "are relevant. Do not claim that these memories are complete or exhaustive."
    ++ line_feed
    ++ line_feed

-- `KnowledgeContextProvider.get_context` and `MemoryContextProvider.get_context`
abbrev pub ContextProvider : Type 0
ContextProvider = Text → Result (Option Text)

pub record ChatService : Type 0 where
  pub context_guard : InputGuard
  pub history_message_limit : ℕ
  pub system_message : Option ChatMessage
  pub knowledge_context_provider : Option ContextProvider
  pub memory_context_provider : Option ContextProvider

abbrev pub system_message_of : Option Text → Result (Option ChatMessage)
system_message_of none = ok none
system_message_of (some prompt) = make_chat_message system prompt >>= λ m. ok (some m)

-- `__init__`; the model and the store are arguments of the operations
unfoldable pub make_chat_service :
    InputGuard
    → (history_turn_limit : ℕ) → (system_prompt : Option Text)
    → (knowledge memory : Option ContextProvider) → Result ChatService
make_chat_service guard history_turn_limit system_prompt knowledge memory = do
  raise_if (nat_beq history_turn_limit 0) value_error
  system_message ← system_message_of system_prompt
  ok (record {
    context_guard = guard;
    history_message_limit = history_turn_limit * 2;
    system_message = system_message;
    knowledge_context_provider = knowledge;
    memory_context_provider = memory;
  })

pub record ChatResult : Type 0 where
  pub session_id : ℕ
  pub message : Text

-- `messages[-limit:]`, for a limit that is not zero
unfoldable pub last : ℕ → List ChatMessage → List ChatMessage
last limit messages = drop (length messages - limit) messages

-- The message for a guarded text, if it is safe.
unfoldable pub guarded_message : (template : Text) → GuardedContent → Result (List ChatMessage)
guarded_message template guarded =
    if guarded.is_safe
    then (make_chat_message system (template ++ guarded.text) >>= λ m. ok (m ∷ []))
    else ok []

-- The messages of one provider; the two blocks of `_build_context` differ in the template and the
-- source.
unfoldable pub provided :
    InputGuard → (template source : Text) → Option Text → Result (List ChatMessage)
provided guard template source none = ok []
provided guard template source (some context) = guarded_message template (wrap guard context source)

unfoldable pub provider_messages :
    InputGuard
    → (template source : Text) → Option ContextProvider
    → Text
    → Result (List ChatMessage)
provider_messages guard template source none user_content = ok []
provider_messages guard template source (some get_context) user_content =
    get_context user_content >>= provided guard template source

abbrev pub option_list {ℓ} : {A : Type ℓ} → Option A → List A
option_list none = []
option_list (some a) = a ∷ []

-- `_build_context`
unfoldable pub build_context : ChatService → Text → List ChatMessage → Result (List ChatMessage)
build_context service user_content conversation_context = do
  knowledge ←
      provider_messages service.context_guard rag_context_template (codes "knowledge")
        service.knowledge_context_provider user_content
  memory ←
      provider_messages service.context_guard memory_context_template (codes "memory")
        service.memory_context_provider user_content
  ok (option_list service.system_message ++ knowledge ++ memory ++ conversation_context)

-- What a turn holds while the model answers.
pub record PreparedTurn : Type 0 where
  pub is_new_session : Bool
  pub session : ChatSession
  pub user_message : ChatMessage
  pub context : List ChatMessage

-- `updated_session.messages[-1].content`
abbrev pub last_content : List ChatMessage → Text
last_content [] = []
last_content (m ∷ []) = m.content
last_content (m ∷ n ∷ ms) = last_content (n ∷ ms)

module _ {S : Type 0} (store : SessionStore S) where
  -- `is_new_session` and `session`; `fresh` is the new identifier
  unfoldable pub open_session : S → (fresh : ℕ) → Option ℕ → Result (Bool × ChatSession)
  open_session s fresh none = ok (true, create_session fresh)
  open_session s fresh (some session_id) = store.get s session_id >>= λ session. ok (false, session)

  -- `if is_new_session: add, else: update`
  unfoldable pub save_session : S → Bool → ChatSession → (expected_version : ℕ) → Result S
  save_session s true updated expected_version = store.add s updated
  save_session s false updated expected_version = store.update s updated expected_version

  -- `send_message` and the end of `stream_message` after the model answered
  unfoldable pub persist_turn : S → PreparedTurn → Text → Result (S × ChatSession)
  persist_turn s turn assistant_content = do
    updated ← append_turn turn.session turn.user_message.content assistant_content
    s' ← save_session s turn.is_new_session updated turn.session.version
    ok (s', updated)

module _ {S : Type 0} (store : SessionStore S) (service : ChatService) where
  -- `send_message` and `stream_message` before the model answers
  unfoldable pub prepare_turn : S → (fresh : ℕ) → Text → Option ℕ → Result PreparedTurn
  prepare_turn s fresh message session_id = do
    user_message ← make_chat_message user message
    opened ← open_session store s fresh session_id
    context ←
        build_context service user_message.content
          (last service.history_message_limit opened.1.messages ++ (user_message ∷ []))
    ok (record {
      is_new_session = opened.0;
      session = opened.1;
      user_message = user_message;
      context = context;
    })

  -- The whole of `send_message`, when no other turn runs beside it.
  unfoldable pub send_message :
      (chat : List ChatMessage → Result Text)
      → S
      → (fresh : ℕ) → Text
      → Option ℕ
      → Result (S × ChatResult)
  send_message chat s fresh message session_id = do
    turn ← prepare_turn s fresh message session_id
    assistant_content ← chat turn.context
    done ← persist_turn store s turn assistant_content
    ok (done.0, record { session_id = done.1.id; message = last_content done.1.messages })

  -- `stream_message` with its chunks consumed to the end
  unfoldable pub stream_message :
      (stream_chat : List ChatMessage → Result (List Text))
      → S
      → (fresh : ℕ) → Text
      → Option ℕ
      → Result (S × ℕ × List Text)
  stream_message stream_chat s fresh message session_id = do
    turn ← prepare_turn s fresh message session_id
    chunks ← stream_chat turn.context
    done ← persist_turn store s turn (join [] chunks)
    ok (done.0, turn.session.id, chunks)
