-- ===== src/Conversation/Examples.antt =====
-- A concrete store of conversations.
use gemini_web2api_go_browse.Prelude.{
  ◌++◌, Text, ◌≤◌, ◌≡◌, refl, false, [], ◌∷◌, arith, length, codes,
}
use gemini_web2api_go_browse.Conversation.{ConvState, Store, conv_put}
use gemini_web2api_go_browse.Conversation.Cap.{conv_put-length}
use gemini_web2api_go_browse.Conversation.Keys.{
  Message, conv_parent_key, conv_child_key, conv_parent_key-child,
}

abbrev conversation : ConvState
conversation = record {
  cid = codes "c";
  rid = codes "r";
  rcid = [];
  tok26 = [];
  turn = 1;
  cookie = [];
  sapisid = [];
  is_login = false;
  account_id = 0;
  authuser = 0;
  proxy_id = 0;
  proxy_url = [];
  updated = 5;
}

abbrev store : Store
store = (codes "k1", conversation) ∷ []

conv_put-length_example : length (conv_put 9 (codes "k2") conversation store) ≤ 4000
conv_put-length_example = conv_put-length 9 (codes "k2") conversation store (refl, tt) (omega arith)

abbrev says : Text → Text → Message
says role content = record { role = role; content = content }

-- A hash that keeps the text.
plain_hash : Text → Text
plain_hash t = t

conv_parent_key-child_example :
    conv_parent_key plain_hash (
      (says (codes "user") (codes "hi") ∷ [])
      ++ (says (codes "assistant") (codes "hello") ∷ says (codes "user") (codes "more") ∷ []))
    ≡ conv_child_key plain_hash (says (codes "user") (codes "hi") ∷ []) (codes "hello")
conv_parent_key-child_example =
    conv_parent_key-child plain_hash (says (codes "user") (codes "hi")) [] (codes "hello")
      (says (codes "user") (codes "more"))
