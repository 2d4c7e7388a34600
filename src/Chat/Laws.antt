-- ===== src/Chat/Laws.antt =====
-- The routing of chat messages (src/quantum_entanglement/chat.py).
use quantum_entanglement.Prelude.{
  String, true, false, List, [], ◌∷◌, ◌==◌, all, none, some, ok, err, Bool-cases, ◌≡◌, refl, arith,
  inl, inr, ◌⊎◌,
}
use quantum_entanglement.Prelude.Text.{Dict, get, has, has-get}
use quantum_entanglement.Protocol.Value.{text, key_error, Python}
use quantum_entanglement.Protocol.Codec.{ActorKind, human, agent, system, tool, ActorRef}
use quantum_entanglement.Protocol.Envelope.{
  envelope_ok, check_envelope, new_envelope, chat, text_or,
}
use quantum_entanglement.Chat.{
  InboundChatMessage, RoutedChatMessage, MentionRouter, direct, planner, is_agent, agents_of,
  recipients_of, route_of, message_ok, key_of, payload_of, route_message,
}

-- Of the actors that a message mentions, the ones that are agents, in the order of the mentions.
pub data Picks (roster : Dict ActorRef) : List String → List ActorRef → Type 0 where
  no_mention : Picks roster [] []
  picked :
      {k : String} {ks : List String} {a : ActorRef} {agents : List ActorRef}
      → get k roster ≡ some a
      → a.kind ≡ agent
      → Picks roster ks agents
      → Picks roster (k ∷ ks) (a ∷ agents)
  passed :
      {k : String} {ks : List String} {a : ActorRef} {agents : List ActorRef}
      → get k roster ≡ some a
      → ¬ (a.kind ≡ agent)
      → Picks roster ks agents
      → Picks roster (k ∷ ks) agents

-- The envelope goes to the agents that the message mentions, in the order of the mentions, or else to the
-- planner, and is the message's own.
pub record Routed (r : MentionRouter) (m : InboundChatMessage) (out : RoutedChatMessage)
    : Type 0 where
  pub agents : Picks r.roster m.mentioned_actor_ids out.direct_agents
  pub receivers :
      (¬ (out.direct_agents ≡ [])
        × (out.envelope.recipients ≡ out.direct_agents)
        × (out.route ≡ direct))
      ⊎ ((out.direct_agents ≡ [])
          × (out.envelope.recipients ≡ r.planner ∷ [])
          × (out.route ≡ planner))
  pub kind : out.envelope.kind ≡ chat
  pub sender : out.envelope.sender ≡ m.sender
  pub session : out.envelope.session_id ≡ m.session_id
  pub thread : out.envelope.thread_id ≡ m.thread_id
  pub cause : out.envelope.causation_id ≡ text m.external_message_id

kind-cases :
    (k : ActorKind) → ((k ≡ agent) × (is_agent k ≡ true)) ⊎ (¬ (k ≡ agent) × (is_agent k ≡ false))
kind-cases agent = inl (refl, refl)
kind-cases human = inr (λ same. cc, refl)
kind-cases system = inr (λ same. cc, refl)
kind-cases tool = inr (λ same. cc, refl)

agents_of-Picks :
    (roster : Dict ActorRef) (ks : List String)
    → all (λ k. has k roster) ks ≡ true
    → Picks roster ks (agents_of roster ks)
agents_of-Picks roster [] known = no_mention
agents_of-Picks roster (k ∷ ks) known =
    let there = has-get k roster (ground (arith, known)) in
    let rest = agents_of-Picks roster ks (ground (arith, known)) in
    elim (kind-cases there.0.kind) [
      | inl h ↦ rw (there.1, h.1, agents_of) (picked there.1 h.0 rest)
      | inr h ↦ rw (there.1, h.1, agents_of) (passed there.1 h.0 rest)
    ]

receivers-cases :
    (planning : ActorRef) (agents : List ActorRef)
    → (¬ (agents ≡ []) × (recipients_of planning agents ≡ agents) × (route_of agents ≡ direct))
      ⊎ ((agents ≡ [])
          × (recipients_of planning agents ≡ planning ∷ [])
          × (route_of agents ≡ planner))
receivers-cases planning [] = inr (refl, refl, refl)
receivers-cases planning (a ∷ agents) = inl (λ none_there. cc, refl, refl)

-- The message that a route which does not raise returns.
abbrev routed_message : String → String → MentionRouter → InboundChatMessage → RoutedChatMessage
routed_message message_id now r m =
    let agents = agents_of r.roster m.mentioned_actor_ids in
    record {
      route = route_of agents;
      envelope =
          new_envelope message_id now m.session_id m.thread_id m.sender
            (recipients_of r.planner agents) chat (payload_of m (route_of agents)) none
            (text m.external_message_id) (some (key_of m)) none;
      direct_agents = agents;
    }

module _ (py : Python) (message_id now : String) (fresh : py.blank message_id ≡ false)
    (r : MentionRouter) (m : InboundChatMessage) (named : py.blank (key_of m) ≡ false)
    (valid : message_ok py m ≡ true) where
  key_given : py.blank (text_or (some (key_of m)) message_id) ≡ false
  key_given = elim (Bool-cases (key_of m == "")) [
    | inl empty ↦ rw empty fresh
    | inr given ↦ rw given named
  ]

  ids_given : (py.blank m.session_id ≡ false) × (py.blank m.thread_id ≡ false)
  unfolding message_ok
  ids_given = (ground (arith, valid), ground (arith, valid))

  -- With a new id and a chat key that are not blank, a valid message is routed unless it mentions an actor
  -- that is not in the roster, which raises: with mentioned agents it goes to exactly them, in the order of
  -- the mentions and past the planner, and otherwise to the planner alone; the chat envelope has its sender,
  -- session, thread and cause from the message.
  pub route_message_lem :
      ((all (λ k. has k r.roster) m.mentioned_actor_ids ≡ true)
        × (out : RoutedChatMessage) × (route_message py message_id now r m ≡ ok out)
        × Routed r m out)
      ⊎ ((all (λ k. has k r.roster) m.mentioned_actor_ids ≡ false)
          × (route_message py message_id now r m ≡ err key_error))
  unfolding route_message check_envelope envelope_ok
  route_message_lem = elim (Bool-cases (all (λ k. has k r.roster) m.mentioned_actor_ids)) [
    | inl known ↦ inl (
      known,
      routed_message message_id now r m,
      rw (known, fresh, ids_given.0, ids_given.1, key_given) refl,
      record {
        agents = agents_of-Picks r.roster m.mentioned_actor_ids known;
        receivers = receivers-cases r.planner (agents_of r.roster m.mentioned_actor_ids);
        kind = refl;
        sender = refl;
        session = refl;
        thread = refl;
        cause = refl;
      },
    )
    | inr unknown ↦ inr (unknown, rw unknown refl)
  ]
