-- ===== src/Agent/Client/Conversation.antt =====
-- When a conversation is complete: the protocol that `ingest_assistant` and `add_tool_result` of
-- agent/src/lib.rs keep to.
use attenuate_agent.Prelude.{
  ℕ, ◌+◌, ◌<◌, Option, none, some, List, [], ◌∷◌, ◌++◌, map, Text, text, text_eq, text_eq→eq,
  text_eq_refl, if◌then◌else◌, Bool-cases, Option-cases, ◌≡◌, refl, ap, ◌∙◌, inl, inr, arith,
}
use attenuate_agent.Prelude.Options.{◌>>=◌}
use attenuate_agent.Agent.Chat.{RawToolCall, ChatMessage, AssistantMessage}
use attenuate_agent.Agent.Client.{replayed_calls, tool_result_message, assistant_message}

-- The ids without one occurrence of `id`, if it is there.
unfoldable pub remove_id : Text → List Text → Option (List Text)
remove_id id [] = none
remove_id id (x ∷ xs) = if text_eq x id then some xs else remove_id id xs >>= λ ys. some (x ∷ ys)

abbrev pub ids_of : List RawToolCall → List Text
ids_of raws = map (λ (raw : RawToolCall). raw.id) raws

abbrev pub asked_ids : Option (List RawToolCall) → List Text
asked_ids none = []
asked_ids (some raws) = ids_of raws

abbrev pub answer : List Text → Option Text → Option (List Text)
answer pending none = none
answer pending (some id) = remove_id id pending

abbrev pub ask_more : List Text → Option (List RawToolCall) → Option (List Text)
ask_more [] raws = some (asked_ids raws)
ask_more (id ∷ pending) raws = none

-- A tool message answers one of the pending calls; any other message comes when none is pending, and
-- its own calls are then pending.
unfoldable pub receive : List Text → ChatMessage → Option (List Text)
receive pending m =
    if text_eq m.role (text "tool")
    then answer pending m.tool_call_id
    else ask_more pending m.tool_calls

-- The calls that are pending behind the messages, if they come in such an order.
unfoldable pub outstanding : List Text → List ChatMessage → Option (List Text)
outstanding pending [] = some pending
outstanding pending (m ∷ ms) = receive pending m >>= λ rest. outstanding rest ms

-- The messages come in such an order, and every call is answered.
abbrev pub IsAnswered : List ChatMessage → Type 0
IsAnswered ms = outstanding [] ms ≡ some []

unfoldable pub count : Text → List Text → ℕ
count id [] = 0
count id (x ∷ xs) = (if text_eq x id then 1 else 0) + count id xs

-- The messages come in such an order, and the pending calls are those with the ids, in any order.
pub record Open (ms : List ChatMessage) (ids : List Text) : Type 0 where
  pub pending : List Text
  pub received : outstanding [] ms ≡ some pending
  pub counted : (id : Text) → count id pending ≡ count id ids

outstanding-append :
    (pending : List Text) (ms : List ChatMessage) (m : ChatMessage)
    → outstanding pending (ms ++ (m ∷ [])) ≡ (outstanding pending ms >>= λ rest. receive rest m)
unfolding outstanding
outstanding-append pending [] m = bind_some (receive pending m)
  where
    bind_some : (o : Option (List Text)) → (o >>= λ rest. some rest) ≡ o
    bind_some none = refl
    bind_some (some rest) = refl
outstanding-append pending (n ∷ ms) m = elim (Option-cases (receive pending n)) [
  | inl e ↦ rw e refl
  | inr (rest, e) ↦ rw e (outstanding-append rest ms m)
]

count_zero : (ids : List Text) → ((id : Text) → count id ids ≡ 0) → ids ≡ []
unfolding count
count_zero [] h = refl
count_zero (x ∷ xs) h = absurd (ground (arith, h x, text_eq_refl x))

remove_id-count :
    (id : Text) (ids : List Text)
    → 0 < count id ids
    → (rest : List Text) × (remove_id id ids ≡ some rest)
      × ((x : Text) → count x ids ≡ (if text_eq id x then 1 else 0) + count x rest)
unfolding remove_id count
remove_id-count id [] h = absurd (ground arith)
remove_id-count id (y ∷ ys) h = elim (Bool-cases (text_eq y id)) [
  | inl e ↦ (
    ys,
    ground arith,
    λ x. ap (λ z. (if text_eq z x then 1 else 0) + count x ys) (text_eq→eq y id e),
  )
  | inr e ↦
      let (rest, r, k) = remove_id-count id ys (ground arith) in
      (y ∷ rest, ground (arith, r), λ x. ground (arith, k x))
]

pub Open-IsAnswered : {ms : List ChatMessage} → Open ms [] → IsAnswered ms
unfolding count
Open-IsAnswered h = h.received ∙ ap some (count_zero h.pending h.counted)

pub IsAnswered-Open : (ms : List ChatMessage) → IsAnswered ms → Open ms []
IsAnswered-Open ms o = record { pending = []; received = o; counted = λ id. refl }

-- The order of the ids does not matter.
pub Open-count :
    {ms : List ChatMessage} {ids : List Text} (others : List Text)
    → ((id : Text) → count id ids ≡ count id others)
    → Open ms ids
    → Open ms others
Open-count others k h = record {
  pending = h.pending;
  received = h.received;
  counted = λ id. h.counted id ∙ k id;
}

pub count-middle :
    (x id : Text) (xs ys : List Text) → count x (xs ++ (id ∷ ys)) ≡ count x (id ∷ (xs ++ ys))
unfolding count
count-middle x id [] ys = refl
count-middle x id (y ∷ xs) ys = ground (arith, count-middle x id xs ys)

-- A result of a pending call answers it.
pub Open-tool_result_message :
    (ms : List ChatMessage) (id content : Text) (ids : List Text)
    → Open ms (id ∷ ids)
    → Open (ms ++ (tool_result_message id content ∷ [])) ids
unfolding receive count text text_eq
Open-tool_result_message ms id content ids h =
    let (rest, r, l) =
      remove_id-count id h.pending (ground (arith, h.counted id, text_eq_refl id)) in
    record {
      pending = rest;
      received =
          outstanding-append [] ms (tool_result_message id content)
          ∙ (ap (λ p. p >>= λ q. receive q (tool_result_message id content)) h.received ∙ r);
      counted = λ x. ground (arith, h.counted x, l x);
    }

asked-replayed : (raws : List RawToolCall) → asked_ids (replayed_calls raws) ≡ ids_of raws
unfolding replayed_calls
asked-replayed [] = refl
asked-replayed (raw ∷ raws) = refl

-- The calls of the model's turn are pending behind it.
pub Open-assistant_message :
    (ms : List ChatMessage) (a : AssistantMessage)
    → Open ms []
    → Open (ms ++ (assistant_message a ∷ [])) (ids_of a.tool_calls)
unfolding receive text text_eq
Open-assistant_message ms a h = record {
  pending = ids_of a.tool_calls;
  received =
      outstanding-append [] ms (assistant_message a)
      ∙ (ap (λ p. p >>= λ q. receive q (assistant_message a)) (Open-IsAnswered h)
          ∙ ap some (asked-replayed a.tool_calls));
  counted = λ id. refl;
}
