-- ===== src/Conversation/Keys.antt =====
-- internal/app/conversation.go, lines 103 to 137: the keys by which a conversation is found again.
-- `hash` is the hexadecimal SHA-256 of a text. A message is its role and the text that
-- contentToString makes of its content.
use gemini_web2api_go_browse.Prelude.{
  ◌-◌, ◌≡◌, sym, ap, ◌∙◌, List, [], ◌∷◌, ◌++◌, arith, ltb, if◌then◌else◌, length, take, Text, codes,
  append_assoc, length-append, take-length-append, false,
}

pub record Message : Type 0 where
  pub role : Text
  pub content : Text

pub canonical_messages : List Message → Text
canonical_messages [] = []
canonical_messages (m ∷ ms) = m.role ++ (0x1f ∷ (m.content ++ (0x1e ∷ canonical_messages ms)))

module _ (hash : Text → Text) where
  -- The key of all messages but the last; there is none for one message.
  pub conv_parent_key : List Message → Text
  unfolding canonical_messages
  conv_parent_key ms =
      if ltb (length ms) 2 then [] else hash (canonical_messages (take (length ms - 1) ms))

  pub conv_child_key : List Message → Text → Text
  unfolding canonical_messages
  conv_child_key ms response =
      hash (canonical_messages (ms ++ record { role = codes "assistant"; content = response } ∷ []))

  parent_of :
      (ms : List Message) (m : Message)
      → ltb (length (ms ++ m ∷ [])) 2 ≡ false
      → conv_parent_key (ms ++ m ∷ []) ≡ hash (canonical_messages ms)
  unfolding conv_parent_key
  parent_of ms m two =
      let n : length (ms ++ m ∷ []) - 1 ≡ length ms = omega (arith, length-append ms (m ∷ [])) in
      rw (two, n) (ap (λ xs. hash (canonical_messages xs)) (take-length-append ms (m ∷ [])))

  -- For any hash, messages, reply and next message: when a client sends the messages, the reply and
  -- one message more, the key that it is looked up by is the key that the last turn was stored under.
  pub conv_parent_key-child :
      (first : Message) (ms : List Message) (response : Text) (new : Message)
      → let reply : Message = record { role = codes "assistant"; content = response } in
        conv_parent_key ((first ∷ ms) ++ (reply ∷ new ∷ [])) ≡ conv_child_key (first ∷ ms) response
  unfolding conv_child_key
  conv_parent_key-child first ms response new =
      let reply : Message = record { role = codes "assistant"; content = response } in
      let all = (first ∷ ms) ++ (reply ∷ []) in
      ap conv_parent_key (sym (append_assoc (first ∷ ms) (reply ∷ []) (new ∷ [])))
      ∙ parent_of all new
          (ground (arith, length-append all (new ∷ []), length-append (first ∷ ms) (reply ∷ [])))
