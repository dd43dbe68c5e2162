-- ===== src/Application/Chat/Context.antt =====
-- The context that the model gets: the system messages before the conversation, and the end of the
-- history in it.
use kelvin_assistant.Prelude.{
  ℕ, ◌-◌, ◌≤◌, ◌≡◌, ◌⊎◌, inl, inr, refl, sym, ap, ◌∙◌, true, false, Bool-cases, Option, none, some,
  List, [], ◌∷◌, ◌++◌, Text, codes, strip, is_empty, ltb, leb, length, take, length-drop,
  take-append-drop, append_assoc, arith,
}
use kelvin_assistant.Prelude.Result.{
  ok, >>=-eq-ok, raise_if-eq-ok, returned, invalid_chat_message_error,
}
use kelvin_assistant.Domain.ContextGuard.{InputGuard, wrap, delimited}
use kelvin_assistant.Domain.Chat.{system, ChatMessage, make_chat_message, max_message_length}
use kelvin_assistant.Application.Chat.{
  rag_context_template, memory_context_template, ContextProvider, ChatService, last,
  guarded_message, provided, provider_messages, option_list, build_context,
}

-- What is made of the text that a provider gave: a message of the system with the template and the
-- text between the delimiters of external data, if the guard calls the text safe.
abbrev pub Given : InputGuard → (template : Text) → Option Text → List ChatMessage → Type 0
Given guard template none ms = ms ≡ []
Given guard template (some text) ms =
    (((guard text).is_safe ≡ false) × (ms ≡ []))
    ⊎ (((guard text).is_safe ≡ true)
        × (ms ≡ (record { role = system; content = strip (template ++ delimited text) }) ∷ []))

-- What a provider adds to a context: nothing if it is not there, or what is made of its answer.
abbrev pub Provides :
    InputGuard → (template : Text) → Option ContextProvider → Text → List ChatMessage → Type 0
Provides guard template none content ms = ms ≡ []
Provides guard template (some provider) content ms =
    (answer : Option Text) × (provider content ≡ ok answer) × Given guard template answer ms

message_of :
    (content : Text) {m : ChatMessage}
    → make_chat_message system content ≡ ok m
    → m ≡ record { role = system; content = strip content }
unfolding make_chat_message
message_of content h =
    let (_, h₁) = raise_if-eq-ok (is_empty (strip content)) invalid_chat_message_error _ h in
    let (_, h₂) =
      raise_if-eq-ok (ltb max_message_length (length (strip content))) invalid_chat_message_error _
        h₁ in
    returned (λ (m : ChatMessage). m ≡ record { role = system; content = strip content }) h₂ refl

guarded_message-Given :
    (guard : InputGuard) (template source text : Text) {ms : List ChatMessage}
    → guarded_message template (wrap guard text source) ≡ ok ms
    → Given guard template (some text) ms
unfolding guarded_message wrap
guarded_message-Given guard template source text h = elim (Bool-cases (guard text).is_safe) [
  | inl e ↦
      let (m, made, q) =
        >>=-eq-ok (make_chat_message system (template ++ delimited text)) _ (rw e at h) in
      returned (Given guard template (some text)) q
        (inr (e, ap (λ x. x ∷ []) (message_of (template ++ delimited text) made)))
  | inr e ↦ returned (Given guard template (some text)) (rw e at h) (inl (e, refl))
]

provided-Given :
    (guard : InputGuard) (template source : Text) (o : Option Text) {ms : List ChatMessage}
    → provided guard template source o ≡ ok ms
    → Given guard template o ms
unfolding provided
provided-Given guard template source none h = returned (λ ms. ms ≡ []) h refl
provided-Given guard template source (some text) h =
    guarded_message-Given guard template source text h

provider_messages-Provides :
    (guard : InputGuard) (template source : Text) (p : Option ContextProvider) (content : Text)
    {ms : List ChatMessage}
    → provider_messages guard template source p content ≡ ok ms
    → Provides guard template p content ms
unfolding provider_messages
provider_messages-Provides guard template source none content h = returned (λ ms. ms ≡ []) h refl
provider_messages-Provides guard template source (some p) content h =
    let (o, asked, q) = >>=-eq-ok (p content) _ h in
    (o, asked, provided-Given guard template source o q)

-- A context: the system message of the service, what the provider of knowledge adds, what the
-- provider of memories adds, and the conversation.
pub record Framed (service : ChatService) (user_content : Text) (conversation : List ChatMessage)
    (context : List ChatMessage) : Type 0 where
  pub knowledge : List ChatMessage
  pub memory : List ChatMessage
  pub from_knowledge :
      Provides service.context_guard rag_context_template service.knowledge_context_provider
        user_content knowledge
  pub from_memory :
      Provides service.context_guard memory_context_template service.memory_context_provider
        user_content memory
  pub parts :
      context ≡ option_list service.system_message ++ (knowledge ++ (memory ++ conversation))

-- A context that is built for a conversation is the system message of the service, if it has one,
-- then at most one message for the knowledge and at most one for the memories, and then the
-- conversation unchanged. A provider's message is there exactly if the provider is there, answers
-- the user's content with a text, and the guard calls that text safe; it is of the system and holds
-- the stripped template with the text between the delimiters of external data.
pub build_context-Framed :
    (service : ChatService) (content : Text) (conversation : List ChatMessage)
    {context : List ChatMessage}
    → build_context service content conversation ≡ ok context
    → Framed service content conversation context
unfolding build_context
build_context-Framed service content conversation h =
    let (k, made_k, h₁) =
      >>=-eq-ok
        (provider_messages service.context_guard rag_context_template (codes "knowledge")
          service.knowledge_context_provider content)
        _ h in
    let (m, made_m, h₂) =
      >>=-eq-ok
        (provider_messages service.context_guard memory_context_template (codes "memory")
          service.memory_context_provider content)
        _ h₁ in
    returned (Framed service content conversation) h₂ (record {
      knowledge = k;
      memory = m;
      from_knowledge =
          provider_messages-Provides service.context_guard rag_context_template (codes "knowledge")
            service.knowledge_context_provider content made_k;
      from_memory =
          provider_messages-Provides service.context_guard memory_context_template (codes "memory")
            service.memory_context_provider content made_m;
      parts =
          append_assoc (option_list service.system_message ++ k) m conversation
          ∙ append_assoc (option_list service.system_message) k (m ++ conversation);
    })

-- The end of a history: the last `limit` messages of it, or all if there are fewer.
pub record IsEnd (limit : ℕ) (messages recent : List ChatMessage) : Type 0 where
  pub older : List ChatMessage
  pub split : messages ≡ older ++ recent
  pub full : (older ≡ []) ⊎ (length recent ≡ limit)
  pub few : length recent ≤ limit

pub last-IsEnd :
    (limit : ℕ) (messages : List ChatMessage) → IsEnd limit messages (last limit messages)
unfolding last
last-IsEnd limit messages = record {
  older = take (length messages - limit) messages;
  split = sym (take-append-drop (length messages - limit) messages);
  full = elim (Bool-cases (leb (length messages) limit)) [
    | inl e ↦ inl (none_taken (length messages - limit) (ground arith))
    | inr e ↦ inr (ground (arith, length-drop (length messages - limit) messages))
  ];
  few = omega (arith, length-drop (length messages - limit) messages);
}
  where
    none_taken : (n : ℕ) → n ≡ 0 → take n messages ≡ []
    none_taken n e = ap (λ k. take k messages) e
