-- ===== src/Server/Tests.antt =====
-- Runs of the message queue server, and its theorems at concrete states.
use op_sys.Common.{
  ℕ, ◌≡◌, refl, true, false, some, [], ◌∷◌, ◌++◌, inl, arith, replicate, length, scan_int, pos,
}
use op_sys.Protocol.{Message, register, mirror, end, quit}
use op_sys.Server.{no_entry, Server, Answers, goes_on, dispatch_request, mirror_content, handle_end}
use op_sys.Server.Table.{registered, IsValid}
use op_sys.Server.Requests.{register_admits, quit_removes, Leaves}
use op_sys.Server.Lines.{IsLine}
use op_sys.Server.Replies.{mirror_replies, reply_to}
use op_sys.Server.Loop.{end_drains, run_turns, handle_all, done}

abbrev all_well : Answers
all_well = record { opens = some 9; sends = true; closes = true; pid = 100; time_text = [] }

-- Client 7 is registered with the queue 3.
abbrev one_client : Server
one_client = record {
  active = true;
  clients_data = record { pid = 7; qid = 3 } ∷ replicate 4 no_entry;
  client_count = 1;
  sent = [];
  closed = [];
}

abbrev full_house : Server
full_house = record {
  active = true;
  clients_data = replicate 5 (record { pid = 7; qid = 3 });
  client_count = 5;
  sent = [];
  closed = [];
}

one_client-IsValid : IsValid one_client
one_client-IsValid = omega arith

full_house-IsValid : IsValid full_house
full_house-IsValid = omega arith

abc-IsLine : IsLine (97 ∷ 98 ∷ 99 ∷ [])
abc-IsLine = ground arith

-- "abc\n"
abbrev request : ℕ → ℕ → Message
request kind sender = record {
  type = kind;
  sender_pid = sender;
  content = 97 ∷ 98 ∷ 99 ∷ 10 ∷ 0 ∷ 0 ∷ [];
}

mirrors_text : mirror_content (request mirror 7).content ≡ 99 ∷ 98 ∷ 97 ∷ 10 ∷ 0 ∷ 0 ∷ []
unfolding mirror_content
mirrors_text = refl

mirrors_nothing : mirror_content (0 ∷ 5 ∷ []) ≡ 0 ∷ 5 ∷ []
unfolding mirror_content
mirrors_nothing = refl

register_admits_example :
    (t : Server) × (reply : Message) × (dispatch_request all_well (request register 8) one_client
      ≡ goes_on t)
    × (registered t ≡ registered one_client ++ record { pid = 8; qid = 9 } ∷ [])
    × (t.sent ≡ (9, reply) ∷ one_client.sent)
    × (scan_int reply.content ≡ some (pos (length (registered one_client))))
register_admits_example =
    register_admits all_well (request register 8) one_client 9 one_client-IsValid refl refl refl
      (omega arith)

quit_removes_example : Leaves 7 one_client (dispatch_request all_well (request quit 7) one_client)
quit_removes_example =
    quit_removes all_well (request quit 7) one_client one_client-IsValid refl refl

mirror_replies_example :
    dispatch_request all_well (request mirror 7) one_client
    ≡ goes_on (record one_client {
      sent = (3, reply_to all_well 7 (99 ∷ 98 ∷ 97 ∷ 10 ∷ 0 ∷ 0 ∷ [])) ∷ [];
    })
mirror_replies_example =
    mirror_replies all_well (request mirror 7) one_client 3 (97 ∷ 98 ∷ 99 ∷ []) (10 ∷ 0 ∷ 0 ∷ [])
      (0 ∷ []) refl refl refl refl abc-IsLine (inl refl)

abbrev closing : Server
closing = record one_client { active = false }

end_drains_example :
    run_turns (all_well ∷ all_well ∷ []) (record { server = closing; queue = request end 7 ∷ [] })
    ≡ done closing
unfolding handle_all dispatch_request handle_end
end_drains_example =
    end_drains (all_well ∷ []) all_well (request end 7 ∷ []) closing closing refl refl refl
