-- ===== src/Domain/Chat.antt =====
-- domain/chat.py: messages and versioned sessions. `make_chat_message` is the constructor with its
-- `__post_init__`.
use kelvin_assistant.Prelude.{
  ℕ, ◌+◌, ◌≤◌, ◌≡◌, refl, false, List, [], ◌∷◌, ◌++◌, Text, strip, strip-strip, is_empty, length,
  ltb, ltb→le,
}
use kelvin_assistant.Prelude.Result.{
  Result, ok, ◌>>=◌, ◌>>◌, raise_if, raise_if-eq-ok, >>=-eq-ok, returned,
  invalid_chat_message_error,
}

abbrev pub max_message_length : ℕ
max_message_length = 32768

pub data ChatRole : Type 0 where
  system user assistant : ChatRole

pub record ChatMessage : Type 0 where
  pub role : ChatRole
  pub content : Text

unfoldable pub make_chat_message : ChatRole → Text → Result ChatMessage
make_chat_message role content = do
  raise_if (is_empty (strip content)) invalid_chat_message_error
  raise_if (ltb max_message_length (length (strip content))) invalid_chat_message_error
  ok (record { role = role; content = strip content })

pub record ChatSession : Type 0 where
  pub id : ℕ
  pub messages : List ChatMessage
  pub version : ℕ

-- `ChatSession.create`; `id` is the fresh identifier
abbrev pub create_session : ℕ → ChatSession
create_session id = record { id = id; messages = []; version = 0 }

unfoldable pub append_turn :
    ChatSession → (user_content assistant_content : Text) → Result ChatSession
append_turn session user_content assistant_content = do
  question ← make_chat_message user user_content
  answer ← make_chat_message assistant assistant_content
  ok (record {
    id = session.id;
    messages = session.messages ++ (question ∷ answer ∷ []);
    version = session.version + 1;
  })

-- A message as the constructor leaves it.
pub record Valid (message : ChatMessage) : Type 0 where
  pub stripped : strip message.content ≡ message.content
  pub full : is_empty message.content ≡ false
  pub short : length message.content ≤ max_message_length

pub make_chat_message-Valid :
    (role : ChatRole) (content : Text) {m : ChatMessage}
    → make_chat_message role content ≡ ok m
    → Valid m × (m.role ≡ role) × (m.content ≡ strip content)
unfolding make_chat_message
make_chat_message-Valid role content h =
    let (full, h₁) = raise_if-eq-ok (is_empty (strip content)) invalid_chat_message_error _ h in
    let (short, h₂) =
      raise_if-eq-ok (ltb max_message_length (length (strip content))) invalid_chat_message_error _
        h₁ in
    returned (λ (m : ChatMessage). Valid m × (m.role ≡ role) × (m.content ≡ strip content)) h₂
      (
        record {
          stripped = strip-strip content;
          full = full;
          short = ltb→le max_message_length (length (strip content)) short;
        },
        refl,
        refl,
      )

-- The session `next` is `session` with one turn at its end.
pub record Turn (session next : ChatSession) (user_content assistant_content : Text) : Type 0 where
  pub question : ChatMessage
  pub answer : ChatMessage
  pub asked : Valid question × (question.role ≡ user) × (question.content ≡ strip user_content)
  pub answered :
      Valid answer × (answer.role ≡ assistant) × (answer.content ≡ strip assistant_content)
  pub messages : next.messages ≡ session.messages ++ (question ∷ answer ∷ [])
  pub id : next.id ≡ session.id
  pub version : next.version ≡ session.version + 1

pub append_turn-Turn :
    (session : ChatSession) (user_content assistant_content : Text) {next : ChatSession}
    → append_turn session user_content assistant_content ≡ ok next
    → Turn session next user_content assistant_content
unfolding append_turn
append_turn-Turn session user_content assistant_content h =
    let (question, asked, h₁) = >>=-eq-ok (make_chat_message user user_content) _ h in
    let (answer, answered, h₂) = >>=-eq-ok (make_chat_message assistant assistant_content) _ h₁ in
    returned (λ next. Turn session next user_content assistant_content) h₂
      (record {
        question = question;
        answer = answer;
        asked = make_chat_message-Valid user user_content asked;
        answered = make_chat_message-Valid assistant assistant_content answered;
        messages = refl;
        id = refl;
        version = refl;
      })
