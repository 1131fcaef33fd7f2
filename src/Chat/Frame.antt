-- ===== src/Chat/Frame.antt =====
-- The store's operations as one type of actions, and what an action leaves alone.
use pair_admin.Base.{
  ℕ, ◌≡◌, ◌≢◌, refl, sym, ap, true, false, Option, none, some, List, [], ◌∷◌, ◌++◌, map, append-nil,
  Text, Bool, IsUnused, Distinct, Distinct-append, All, ◌==◌, eq_iff, if◌then◌else◌, modify_first,
  map-modify_first, map-append_one, Option-cases, inl, inr, Bool-cases,
}
use pair_admin.Chat.{
  ChatMessage, ChatState, messages_of, set_messages, push, has_id, append_text, finalized,
  interrupted, start_llm_request, end_llm_request, add_user_message, add_assistant_message,
  add_system_message, clear_tab, start_streaming_message, append_chunk, finalize_message,
  set_stream_error,
}

pub data Action : Type 0 where
  start_request : ℕ → Action
  end_request : Action
  add_user add_assistant add_system : (id tab text : Text) → Action
  clear : (tab : Text) → Action
  start_streaming : (id tab : Text) → Action
  append : (tab msg_id text : Text) → Action
  finalize : (tab msg_id : Text) → Option ℕ → Action
  stream_error : (id tab : Text) → Option Text → (text : Text) → Action

unfoldable pub step : Action → ChatState → ChatState
step (start_request now) = start_llm_request now
step end_request = end_llm_request
step (add_user id tab text) = add_user_message id tab text
step (add_assistant id tab text) = add_assistant_message id tab text
step (add_system id tab text) = add_system_message id tab text
step (clear tab) = clear_tab tab
step (start_streaming id tab) = start_streaming_message id tab
step (append tab msg_id text) = append_chunk tab msg_id text
step (finalize tab msg_id count) = finalize_message tab msg_id count
step (stream_error id tab msg_id text) = set_stream_error id tab msg_id text

abbrev pub tab_of : Action → Option Text
tab_of (start_request now) = none
tab_of end_request = none
tab_of (add_user id tab text) = some tab
tab_of (add_assistant id tab text) = some tab
tab_of (add_system id tab text) = some tab
tab_of (clear tab) = some tab
tab_of (start_streaming id tab) = some tab
tab_of (append tab msg_id text) = some tab
tab_of (finalize tab msg_id count) = some tab
tab_of (stream_error id tab msg_id text) = some tab

set_messages-other :
    (s : ChatState) (tab t : Text) (ms : List ChatMessage)
    → some tab ≢ some t
    → (set_messages s tab ms).messages_by_tab t ≡ s.messages_by_tab t
set_messages-other s tab t ms h = elim (Bool-cases (tab == t)) [
  | inl same ↦ absurd (h (ap some ((eq_iff tab t).0 same)))
  | inr other ↦ rw other
]

-- An action on one tab leaves the messages of every other tab as they were.
pub step-frame :
    (a : Action) (s : ChatState) (t : Text)
    → tab_of a ≢ some t
    → (step a s).messages_by_tab t ≡ s.messages_by_tab t
unfolding step start_llm_request end_llm_request add_user_message add_assistant_message
    add_system_message clear_tab start_streaming_message append_chunk finalize_message
    set_stream_error
step-frame (start_request now) s t h = refl
step-frame end_request s t h = refl
step-frame (add_user id tab text) s t h = set_messages-other s tab t _ h
step-frame (add_assistant id tab text) s t h = set_messages-other s tab t _ h
step-frame (add_system id tab text) s t h = set_messages-other s tab t _ h
step-frame (clear tab) s t h = set_messages-other s tab t _ h
step-frame (start_streaming id tab) s t h = set_messages-other s tab t _ h
step-frame (append tab msg_id text) s t h = elim (Option-cases (s.messages_by_tab tab)) [
  | inl e ↦ rw (e, append_chunk)
  | inr (ms, e) ↦ rw (e, append_chunk) (set_messages-other s tab t _ h)
]
step-frame (finalize tab msg_id count) s t h = elim (Option-cases (s.messages_by_tab tab)) [
  | inl e ↦ rw (e, finalize_message)
  | inr (ms, e) ↦ rw (e, finalize_message) (set_messages-other s tab t _ h)
]
step-frame (stream_error id tab none text) s t h = set_messages-other s tab t _ h
step-frame (stream_error id tab (some msg_id) text) s t h = set_messages-other s tab t _ h

abbrev pub ids : ChatState → Text → List Text
ids s t = map (λ m. m.id) (messages_of s t)

-- The ids of the messages that an action creates in a tab.
abbrev in_tab : Text → Text → Text → List Text
in_tab tab t id = if tab == t then id ∷ [] else []

one : (b : Bool) (id : Text) → Distinct (if b then id ∷ [] else [])
one true id = (refl, tt)
one false id = tt

abbrev pub created : Action → Text → List Text
created (add_user id tab text) t = in_tab tab t id
created (add_assistant id tab text) t = in_tab tab t id
created (add_system id tab text) t = in_tab tab t id
created (start_streaming id tab) t = in_tab tab t id
created (stream_error id tab none text) t = in_tab tab t id
created _ t = []

abbrev IsClear : Action → Type 0
IsClear (clear tab) = Unit
IsClear _ = ⊥

push-ids :
    (s : ChatState) (tab t : Text) (m : ChatMessage)
    → ids (push s tab m) t ≡ ids s t ++ in_tab tab t m.id
push-ids s tab t m = elim (Bool-cases (tab == t)) [
  | inl same ↦ rw (same, (eq_iff tab t).0 same) (map-append_one (λ (m : ChatMessage). m.id) _ m)
  | inr other ↦ rw (other, append-nil)
]

modify-ids :
    (s : ChatState) (tab t : Text) (id : Text) (f : ChatMessage → ChatMessage)
    (ms : List ChatMessage)
    → ((m : ChatMessage) → (f m).id ≡ m.id)
    → messages_of s tab ≡ ms
    → ids (set_messages s tab (modify_first (has_id id) f ms)) t ≡ ids s t ++ []
modify-ids s tab t id f ms h e = elim (Bool-cases (tab == t)) [
  | inl same ↦ rw (
    same,
    append-nil,
    map-modify_first (λ (m : ChatMessage). m.id) (has_id id) f ms h,
    ← e,
    (eq_iff tab t).0 same,
  )
  | inr other ↦ rw (other, append-nil)
]

-- Except for `clearTab`, the transcript only grows: an action appends the messages that it creates
-- to those of the tab, keeps every id that is there, and keeps their order.
step-ids :
    (a : Action) (s : ChatState) (t : Text)
    → ¬ IsClear a
    → ids (step a s) t ≡ ids s t ++ created a t
unfolding step start_llm_request end_llm_request add_user_message add_assistant_message
    add_system_message start_streaming_message append_chunk finalize_message set_stream_error
step-ids (start_request now) s t h = sym (append-nil _)
step-ids end_request s t h = sym (append-nil _)
step-ids (add_user id tab text) s t h = push-ids s tab t _
step-ids (add_assistant id tab text) s t h = push-ids s tab t _
step-ids (add_system id tab text) s t h = push-ids s tab t _
step-ids (clear tab) s t h = absurd (h tt)
step-ids (start_streaming id tab) s t h = push-ids s tab t _
step-ids (append tab msg_id text) s t h = elim (Option-cases (s.messages_by_tab tab)) [
  | inl e ↦ rw (e, append_chunk) (sym (append-nil _))
  | inr (ms, e) ↦
      rw (e, append_chunk) (modify-ids s tab t msg_id (append_text text) ms (λ m. refl) (rw e))
]
step-ids (finalize tab msg_id count) s t h = elim (Option-cases (s.messages_by_tab tab)) [
  | inl e ↦ rw (e, finalize_message) (sym (append-nil _))
  | inr (ms, e) ↦
      rw (e, finalize_message) (modify-ids s tab t msg_id (finalized count) ms (λ m. refl) (rw e))
]
step-ids (stream_error id tab none text) s t h = push-ids s tab t _
step-ids (stream_error id tab (some msg_id) text) s t h =
    modify-ids s tab t msg_id interrupted _ (λ m. refl) refl

created-Distinct : (a : Action) (t : Text) → Distinct (created a t)
created-Distinct (add_user id tab text) t = one (tab == t) id
created-Distinct (add_assistant id tab text) t = one (tab == t) id
created-Distinct (add_system id tab text) t = one (tab == t) id
created-Distinct (start_streaming id tab) t = one (tab == t) id
created-Distinct (stream_error id tab none text) t = one (tab == t) id
created-Distinct _ t = tt

clear-Distinct :
    (tab : Text) (s : ChatState) (t : Text)
    → Distinct (ids s t)
    → Distinct (ids (clear_tab tab s) t)
unfolding clear_tab
clear-Distinct tab s t d = elim (Bool-cases (tab == t)) [
  | inl same ↦ rw same tt
  | inr other ↦ rw other d
]

-- If `randomUUID` returns ids that the tab does not use, an action keeps the ids of the tab's
-- messages distinct.
pub message_ids-Distinct :
    (a : Action) (s : ChatState) (t : Text)
    → All (λ id. IsUnused id (ids s t)) (created a t)
    → Distinct (ids s t)
    → Distinct (ids (step a s) t)
message_ids-Distinct (clear tab) s t fresh d = unfold step in clear-Distinct tab s t d
message_ids-Distinct a s t fresh d =
    rw (step-ids a s t (λ h. h)) (Distinct-append _ _ d (created-Distinct a t) fresh)
