-- ===== src/Application/Chat/Turns.antt =====
-- What a turn does to the store, and two turns of one session side by side. The proofs use the
-- laws of the port only, so they hold for every store that keeps them.
use kelvin_assistant.Prelude.{
  ℕ, ◌≡◌, refl, sym, ap, subst, strip, is_empty, ltb, length, ◌∙◌, Bool, true, false, Option, none,
  some, List, [], ◌∷◌, ◌++◌, Text, nat_eq, ◌==◌, ==_refl, if◌then◌else◌, arith,
}
use kelvin_assistant.Prelude.Result.{
  Result, ok, >>=-eq-ok, raise_if-eq-ok, returned, invalid_chat_message_error,
}
use kelvin_assistant.Domain.Chat.{
  user, ChatMessage, make_chat_message, max_message_length, ChatSession, append_turn, Turn,
  append_turn-Turn,
}
use kelvin_assistant.Ports.Sessions.{SessionStore}
use kelvin_assistant.Application.Chat.{
  ChatService, ChatResult, PreparedTurn, prepare_turn, save_session, persist_turn, last_content,
  send_message, open_session, build_context, last,
}
use kelvin_assistant.Application.Chat.Context.{IsEnd, last-IsEnd, Framed, build_context-Framed}

module _ {S : Type 0} (store : SessionStore S) where
  -- The turn of a session was saved: the store now holds the session with the turn at its end, and
  -- every other session as before.
  pub record Saved (s s' : S) (session next : ChatSession) (question answer : Text) : Type 0 where
    pub turn : Turn session next question answer
    pub stored : store.get s' next.id ≡ ok next
    pub others : (id : ℕ) → (next.id == id) ≡ false → store.get s' id ≡ store.get s id

  save_session-stored :
      (s s' : S) (new : Bool) (next : ChatSession) (version : ℕ)
      → save_session store s new next version ≡ ok s'
      → (id : ℕ) → store.get s' id ≡ (if next.id == id then ok next else store.get s id)
  unfolding save_session
  save_session-stored s s' true next version h id = store.get_add s s' next id h
  save_session-stored s s' false next version h id = store.get_update s s' next version id h

  -- A prepared turn that is persisted extends its session by the question and the answer, raises
  -- its version by one, and changes no other session.
  pub persist_turn-Saved :
      (s s' : S) (turn : PreparedTurn) (content : Text) (next : ChatSession)
      → persist_turn store s turn content ≡ ok (s', next)
      → Saved s s' turn.session next turn.user_message.content content
  unfolding persist_turn
  persist_turn-Saved s s' turn content next h =
      let (next', appended, h₁) =
        >>=-eq-ok (append_turn turn.session turn.user_message.content content) _ h in
      let (s'', saved, h₂) =
        >>=-eq-ok (save_session store s turn.is_new_session next' turn.session.version) _ h₁ in
      let holds = save_session-stored s s'' turn.is_new_session next' turn.session.version saved in
      returned
        (λ (p : S × ChatSession). Saved s p.0 turn.session p.1 turn.user_message.content content) h₂
        (record {
          turn = append_turn-Turn turn.session turn.user_message.content content appended;
          stored = rw (==_refl next'.id) at (holds next'.id);
          others = λ id e. rw e at (holds id);
        })

  -- Persisting a turn of a stored session needs the version that the session was read with.
  persist_turn-expected :
      (s : S) (turn : PreparedTurn) (content : Text) {r : S × ChatSession}
      → turn.is_new_session ≡ false
      → persist_turn store s turn content ≡ ok r
      → (stored : ChatSession) × (store.get s turn.session.id ≡ ok stored)
        × (stored.version ≡ turn.session.version)
  unfolding persist_turn save_session
  persist_turn-expected s turn content old h =
      let (next, appended, h₁) =
        >>=-eq-ok (append_turn turn.session turn.user_message.content content) _ h in
      let (s', saved, h₂) =
        >>=-eq-ok (save_session store s turn.is_new_session next turn.session.version) _ h₁ in
      let t = append_turn-Turn turn.session turn.user_message.content content appended in
      let (stored, found, same) =
        store.update_expected s s' next turn.session.version (rw old at saved) in
      (stored, rw (sym t.id) found, same)

  -- Two turns of one stored session that were prepared with one version of it: after one of them
  -- was persisted, the other one is refused, whatever the model answered to either.
  pub no_lost_turn :
      (s s' : S) (one two : PreparedTurn) (content content' : Text) (next : ChatSession)
      {r : S × ChatSession}
      → two.is_new_session ≡ false
      → one.session.id ≡ two.session.id
      → one.session.version ≡ two.session.version
      → persist_turn store s one content ≡ ok (s', next)
      → ¬ (persist_turn store s' two content' ≡ ok r)
  no_lost_turn s s' one two content content' next old same_id same_version first second =
      let saved = persist_turn-Saved s s' one content next first in
      let (stored, found, same) = persist_turn-expected s' two content' old second in
      let id : next.id ≡ two.session.id = saved.turn.id ∙ same_id in
      let held : ok next ≡ ok stored = sym saved.stored ∙ rw id found in
      let v = returned (λ (x : ChatSession). x.version ≡ two.session.version) (sym held) same in
      omega (arith, saved.turn.version, v, same_version)

last_content_append :
    (ms : List ChatMessage) (m n : ChatMessage) → last_content (ms ++ (m ∷ n ∷ [])) ≡ n.content
last_content_append [] m n = refl
last_content_append (k ∷ []) m n = refl
last_content_append (k ∷ l ∷ ms) m n = last_content_append (l ∷ ms) m n

-- The session that a turn is about: a new one with the fresh identifier and no messages, or the one
-- that the store holds under the given identifier.
abbrev pub Opened :
    {S : Type 0} → SessionStore S → S → (fresh : ℕ) → (session_id : Option ℕ) → ChatSession → Type 0
Opened store s fresh none session = session ≡ record { id = fresh; messages = []; version = 0 }
Opened store s fresh (some id) session = store.get s id ≡ ok session

-- What the model is asked with, in a session: the framed end of its history and the user's message.
pub record Asked (service : ChatService) (session : ChatSession) (message : Text)
    (context : List ChatMessage) : Type 0 where
  pub recent : List ChatMessage
  pub recent_IsEnd : IsEnd service.history_message_limit session.messages recent
  pub framed :
      Framed service
        (strip message)
        (recent ++ (record { role = user; content = strip message }) ∷ [])
        context

-- A whole call of `send_message`.
pub record Sent {S : Type 0} (store : SessionStore S) (service : ChatService)
    (chat : List ChatMessage → Result Text) (s : S) (fresh : ℕ) (message : Text)
    (session_id : Option ℕ) (s' : S) (r : ChatResult) : Type 0 where
  pub session : ChatSession
  pub opened : Opened store s fresh session_id session
  pub context : List ChatMessage
  pub asked : Asked service session message context
  pub content : Text
  pub answered : chat context ≡ ok content
  pub next : ChatSession
  pub saved : Saved store s s' session next (strip message) content
  pub same_id : r.session_id ≡ next.id
  pub answer : r.message ≡ strip content

open_session-Opened :
    {S : Type 0} (store : SessionStore S) (s : S) (fresh : ℕ) (session_id : Option ℕ)
    {opened : Bool × ChatSession}
    → open_session store s fresh session_id ≡ ok opened
    → Opened store s fresh session_id opened.1
unfolding open_session
open_session-Opened store s fresh none h =
    returned (λ (o : Bool × ChatSession). Opened store s fresh none o.1) h refl
open_session-Opened store s fresh (some id) h =
    let (session, found, q) = >>=-eq-ok (store.get s id) _ h in
    returned (λ (o : Bool × ChatSession). Opened store s fresh (some id) o.1) q found

user_message_of :
    (message : Text) {m : ChatMessage}
    → make_chat_message user message ≡ ok m
    → m ≡ record { role = user; content = strip message }
unfolding make_chat_message
user_message_of message h =
    let (_, h₁) = raise_if-eq-ok (is_empty (strip message)) invalid_chat_message_error _ h in
    let (_, h₂) =
      raise_if-eq-ok (ltb max_message_length (length (strip message))) invalid_chat_message_error _
        h₁ in
    returned (λ (m : ChatMessage). m ≡ record { role = user; content = strip message }) h₂ refl

-- What a prepared turn holds.
pub record Prepared {S : Type 0} (store : SessionStore S) (service : ChatService) (s : S)
    (fresh : ℕ) (message : Text) (session_id : Option ℕ) (turn : PreparedTurn) : Type 0 where
  pub opened : Opened store s fresh session_id turn.session
  pub own : turn.user_message.content ≡ strip message
  pub asked : Asked service turn.session message turn.context

prepare_turn-Prepared :
    {S : Type 0} (store : SessionStore S) (service : ChatService) (s : S) (fresh : ℕ)
    (message : Text) (session_id : Option ℕ) {turn : PreparedTurn}
    → prepare_turn store service s fresh message session_id ≡ ok turn
    → Prepared store service s fresh message session_id turn
unfolding prepare_turn
prepare_turn-Prepared store service s fresh message session_id h =
    let (m, made, h₁) = >>=-eq-ok (make_chat_message user message) _ h in
    let (opened, found, h₂) = >>=-eq-ok (open_session store s fresh session_id) _ h₁ in
    let recent = last service.history_message_limit opened.1.messages in
    let (context, built, h₃) =
      >>=-eq-ok (build_context service m.content (recent ++ (m ∷ []))) _ h₂ in
    let is_message = user_message_of message made in
    returned (Prepared store service s fresh message session_id) h₃ (record {
      opened = open_session-Opened store s fresh session_id found;
      own = ap (λ (x : ChatMessage). x.content) is_message;
      asked = record {
        recent = recent;
        recent_IsEnd = last-IsEnd service.history_message_limit opened.1.messages;
        framed =
            subst (λ (x : ChatMessage). Framed service x.content (recent ++ (x ∷ [])) context)
              is_message (build_context-Framed service m.content (recent ++ (m ∷ [])) built);
      };
    })

-- A call of send_message that succeeds asked the model with a context that ends with the last
-- messages of the session, at most the limit of the history and all if there are fewer, and then the
-- user's stripped message; before them stand only the system message and what the providers add. The
-- session is a new one with the fresh identifier, or the one that is stored under the given one. The
-- call saved this session with the user's message and the model's answer at its end; it returns the
-- identifier of the saved session and the stripped answer.
pub send_message-Sent :
    {S : Type 0} (store : SessionStore S) (service : ChatService)
    (chat : List ChatMessage → Result Text) (s : S) (fresh : ℕ) (message : Text)
    (session_id : Option ℕ) {s' : S} {r : ChatResult}
    → send_message store service chat s fresh message session_id ≡ ok (s', r)
    → Sent store service chat s fresh message session_id s' r
unfolding send_message
send_message-Sent {S} store service chat s fresh message session_id h =
    let (turn, prepared, h₁) =
      >>=-eq-ok (prepare_turn store service s fresh message session_id) _ h in
    let (content, answered, h₂) = >>=-eq-ok (chat turn.context) _ h₁ in
    let ((s'', next), persisted, h₃) = >>=-eq-ok (persist_turn store s turn content) _ h₂ in
    let p = prepare_turn-Prepared store service s fresh message session_id prepared in
    let saved = persist_turn-Saved store s s'' turn content next persisted in
    let t = saved.turn in
    let (_, _, same) = t.answered in
    returned (λ (p : S × ChatResult). Sent store service chat s fresh message session_id p.0 p.1) h₃
      (record {
        session = turn.session;
        opened = p.opened;
        context = turn.context;
        asked = p.asked;
        content = content;
        answered = answered;
        next = next;
        saved = subst (λ x. Saved store s s'' turn.session next x content) p.own saved;
        same_id = refl;
        answer =
            ap last_content t.messages
            ∙ last_content_append turn.session.messages t.question t.answer
            ∙ same;
      })
