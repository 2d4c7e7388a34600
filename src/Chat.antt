-- ===== src/Chat.antt =====
-- src/quantum_entanglement/chat.py: `MentionRouter` and the messages that it routes.
use Prim.Native.String.{◌++◌ as ◌<>◌}
use quantum_entanglement.Prelude.{
  String, Bool, true, false, ◌&&◌, not, List, [], ◌∷◌, map, all, Option, none, some, if◌then◌else◌,
  Result, ok, err, guard, ◌>>=◌,
}
use quantum_entanglement.Prelude.Text.{Dict, get, has}
use quantum_entanglement.Protocol.Value.{
  Value, text, Members, members_of, Error, key_error, value_error, Python, array_of,
}
use quantum_entanglement.Protocol.Codec.{ActorKind, human, agent, system, tool, ActorRef, texts}
use quantum_entanglement.Protocol.Envelope.{CoordinationEnvelope, chat, create_envelope}
pub mod Laws

pub data ChatRoute : Type 0 where
  direct planner : ChatRoute

-- `route.value`
abbrev pub route_value : ChatRoute → String
route_value direct = "direct"
route_value planner = "planner"

pub record InboundChatMessage : Type 0 where
  pub provider : String
  pub external_message_id : String
  pub session_id : String
  pub thread_id : String
  pub sender : ActorRef
  pub content : String
  pub mentioned_actor_ids : List String

pub record RoutedChatMessage : Type 0 where
  pub route : ChatRoute
  pub envelope : CoordinationEnvelope
  pub direct_agents : List ActorRef

pub record MentionRouter : Type 0 where
  pub roster : Dict ActorRef
  pub planner : ActorRef

abbrev pub is_agent : ActorKind → Bool
is_agent agent = true
is_agent _ = false

abbrev pub may_plan : ActorKind → Bool
may_plan agent = true
may_plan system = true
may_plan _ = false

-- `MentionRouter.__init__`
unfoldable pub init_router : Dict ActorRef → ActorRef → Result Error MentionRouter
init_router roster planning = guard (may_plan planning.kind) value_error >>= λ _.
    ok (record { roster = roster; planner = planning })

-- `self.roster[actor_id]` for each mentioned actor that is an agent.
abbrev pub agents_of : Dict ActorRef → List String → List ActorRef
agents_of roster [] = []
agents_of roster (k ∷ ks) =
    let rest = agents_of roster ks in
    elim (get k roster) [ none ↦ rest | some a ↦ if is_agent a.kind then a ∷ rest else rest ]

-- `direct or (self.planner,)`
abbrev pub recipients_of : ActorRef → List ActorRef → List ActorRef
recipients_of planning [] = planning ∷ []
recipients_of planning (a ∷ as') = a ∷ as'

abbrev pub route_of : List ActorRef → ChatRoute
route_of [] = planner
route_of (a ∷ as') = direct

abbrev pub key_of : InboundChatMessage → String
key_of m = "chat:" <> m.provider <> ":" <> m.external_message_id

abbrev pub payload_of : InboundChatMessage → ChatRoute → Members
payload_of m route = members_of (
    ("text", text m.content)
    ∷ ("route", text (route_value route))
    ∷ ("provider", text m.provider)
    ∷ ("externalMessageId", text m.external_message_id)
    ∷ ("mentionedActorIds", texts m.mentioned_actor_ids)
    ∷ [])

module _ (py : Python) where
  -- `InboundChatMessage.__post_init__`
  unfoldable pub message_ok : InboundChatMessage → Bool
  message_ok m =
      all (λ t. not (py.blank t))
        (m.provider ∷ m.external_message_id ∷ m.session_id ∷ m.thread_id ∷ m.content ∷ [])

  -- `MentionRouter.route`, with the new message id and the time as arguments.
  unfoldable pub route_message :
      String → String → MentionRouter → InboundChatMessage → Result Error RoutedChatMessage
  route_message message_id now r m =
      guard (all (λ k. has k r.roster) m.mentioned_actor_ids) key_error >>= λ _.
      let agents = agents_of r.roster m.mentioned_actor_ids in
      let route = route_of agents in
      create_envelope py message_id now m.session_id m.thread_id m.sender
        (recipients_of r.planner agents) chat (payload_of m route) none (text m.external_message_id)
        (some (key_of m)) none
      >>= λ envelope. ok (record { route = route; envelope = envelope; direct_agents = agents })

-- `MentionRouter.dispatch` on a routed message: the handler that is called.
unfoldable pub dispatch :
    {A : Type 0} → (RoutedChatMessage → A) → (RoutedChatMessage → A) → RoutedChatMessage → A
dispatch direct_handler planner_handler routed = elim routed.route [
  | direct ↦ direct_handler routed
  | planner ↦ planner_handler routed
]
