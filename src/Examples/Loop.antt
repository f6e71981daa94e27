-- ===== src/Examples/Loop.antt =====
-- The loop, the sessions and the framing on concrete data.
use teams_mirror.Prelude.{
  ℕ, any_of, remove_if, update_if, find_if, ◌<◌, ◌≡◌, ◌⊎◌, ◌≢◌, refl, true, false, none, some, [],
  ◌∷◌, ◌++◌, arith, take, drop, same, same_iff, sym, ap, ◌∙◌, zero, suc, ltb, if◌then◌else◌, Bool,
}
use teams_mirror.Bytes.{Bytes, view}
use teams_mirror.Map.{find, adjust, erase, emplace}
use teams_mirror.Protocol.{cmd_users, cmd_logout, CommandId, err_bad_request}
use teams_mirror.Protocol.{command_code}
use teams_mirror.Protocol.Integers.{u16_at}
use teams_mirror.Packet.{build_packet, decode_header}
use teams_mirror.Packet.Framing.{decode-build_packet}
use teams_mirror.Clients.{get_incoming_buffer, queue_data_to_send, consume_incoming_buffer}
use teams_mirror.Commands.Lookup.{find_user_by_uuid}
use teams_mirror.Server.{Server, queue_packet, queue_status, queue_each, keys}
use teams_mirror.Server.Uuid.{
  uuid_chars, is_dash_position, generate_unique, generate_uuid, is_uuid_format_valid,
}
use teams_mirror.Server.Uuid.Format.{generate_uuid-valid}
use teams_mirror.Server.Uuid.Search.{
  candidate, among, generate_unique-unused, generate_unique-total,
}
use teams_mirror.Commands.Logout.{
  unregister_session, drop_session, broadcast_logged_out_event, handle_logout_command,
  handle_client_disconnection,
}
use teams_mirror.Dispatcher.{
  run_handler, dispatch_command, next_packet, find_handler, process_client_incoming_packets,
  consume_packet,
}
use teams_mirror.Dispatcher.Authorization.{IsRefused, run_handler-IsRefused}
use teams_mirror.Dispatcher.Queries.{Answers, query-Answers}
use teams_mirror.Dispatcher.Incoming.{dispatch-KeepsIncoming}
use teams_mirror.Dispatcher.Incoming.Handlers.{SameIncoming}
use teams_mirror.Dispatcher.Termination.{Ends, process-Ends}
use teams_mirror.Dispatcher.Stream.{next_packet-whole, next_packet-part}
use teams_mirror.Dispatcher.Table.{dispatch_command-exact}
use teams_mirror.Sessions.{count_sessions, SessionsConsistent}
use teams_mirror.Sessions.Steps.{
  process-Consistent, run_handler-Consistent, disconnection-Consistent,
}
use teams_mirror.Examples.World.{uuid_of, alice, world, env, request}

-- A packet of CMD_LOGOUT, with no payload.
abbrev logout_packet : Bytes
logout_packet = 11 ∷ 0 ∷ 0 ∷ 0 ∷ []

world-Consistent : (incoming : Bytes) → SessionsConsistent (world incoming)
unfolding count_sessions any_of view same
world-Consistent incoming = record {
  counted = (refl, (refl, tt));
  distinct = (refl, (refl, tt));
  known = (refl, (refl, tt));
}

digits : (n : ℕ) → 13 < 16
digits n = ground arith

abbrev before : Server
before = world logout_packet

abbrev after : Server
after = consume_packet 4 4 (handle_logout_command (request 4 [] 0) before)

process-Consistent_example : SessionsConsistent after
unfolding process_client_incoming_packets dispatch_command next_packet decode_header find_handler
    find_if run_handler command_code get_incoming_buffer find u16_at handle_logout_command
    unregister_session drop_session broadcast_logged_out_event queue_each queue_packet queue_status
    queue_data_to_send consume_incoming_buffer adjust erase emplace find_user_by_uuid any_of view
    same keys remove_if update_if
process-Consistent_example =
    process-Consistent env digits 2 4 before after (world-Consistent logout_packet) refl

process-Ends_example : Ends 4 (process_client_incoming_packets 5 env 4 before)
process-Ends_example = process-Ends 5 env 4 before (unfold get_incoming_buffer find in ground arith)

run_handler-Consistent_example : SessionsConsistent (handle_logout_command (request 4 [] 0) before)
unfolding run_handler
run_handler-Consistent_example =
    run_handler-Consistent env digits (request 4 [] 0) before (world-Consistent logout_packet)
      cmd_logout (handle_logout_command (request 4 [] 0) before) refl

run_handler-IsRefused_example :
    IsRefused (request 6 [] 0) before (run_handler env cmd_users (request 6 [] 0) before)
unfolding find
run_handler-IsRefused_example =
    run_handler-IsRefused env (request 6 [] 0) before refl cmd_users (ground arith)

disconnection-Consistent_example : SessionsConsistent (handle_client_disconnection 4 before)
disconnection-Consistent_example =
    disconnection-Consistent before (world-Consistent logout_packet) 4

query-Answers_example :
    (s' : Server) × (run_handler env cmd_users (request 4 [] 0) before ≡ some s')
    × Answers (request 4 [] 0) before s'
query-Answers_example = query-Answers env cmd_users (request 4 [] 0) before tt

dispatch-KeepsIncoming_example : SameIncoming before (handle_logout_command (request 4 [] 0) before)
unfolding dispatch_command find_handler find_if run_handler command_code
dispatch-KeepsIncoming_example =
    dispatch-KeepsIncoming env (request 4 [] 0) before 11
      (handle_logout_command (request 4 [] 0) before) refl

dispatch_command-exact_example :
    ((c : CommandId) × (11 ≡ command_code c)
      × (dispatch_command env 11 (request 4 [] 0) before
          ≡ run_handler env c (request 4 [] 0) before))
    ⊎ (((c : CommandId) → 11 ≢ command_code c)
        × (dispatch_command env 11 (request 4 [] 0) before
            ≡ some (queue_status (request 4 [] 0) err_bad_request before)))
dispatch_command-exact_example = dispatch_command-exact env (request 4 [] 0) before 11

next_packet-whole_example :
    next_packet (build_packet 10 (7 ∷ 8 ∷ []) ++ logout_packet) ≡ some (10, 7 ∷ 8 ∷ [], 6)
next_packet-whole_example =
    next_packet-whole 10 (7 ∷ 8 ∷ []) logout_packet (ground arith) (ground arith)

next_packet-part_example : next_packet (take 5 (build_packet 10 (7 ∷ 8 ∷ []))) ≡ none
next_packet-part_example =
    next_packet-part 10 (7 ∷ 8 ∷ []) 5 (ground arith) (ground arith) (ground arith)

decode-build_packet_example :
    (decode_header (build_packet 10 (7 ∷ 8 ∷ []) ++ logout_packet)
      ≡ record { code = 10; payload_size = 2 })
    × (take 2 (drop 4 (build_packet 10 (7 ∷ 8 ∷ []) ++ logout_packet)) ≡ 7 ∷ 8 ∷ [])
    × (drop 2 (drop 4 (build_packet 10 (7 ∷ 8 ∷ []) ++ logout_packet)) ≡ logout_packet)
decode-build_packet_example =
    decode-build_packet 10 (7 ∷ 8 ∷ []) logout_packet (ground arith) (ground arith)

generate_uuid-valid_example : is_uuid_format_valid (generate_uuid (λ n. 13) 0).0 ≡ true
generate_uuid-valid_example = generate_uuid-valid (λ n. 13) 0 digits

generate_unique-unused_example :
    (same (generate_uuid (λ n. 13) 0).0 alice ≡ false)
    × (is_uuid_format_valid (generate_uuid (λ n. 13) 0).0 ≡ true)
unfolding generate_unique generate_uuid uuid_chars same is_dash_position
generate_unique-unused_example =
    generate_unique-unused 1 (λ u. same u alice) (λ n. 13) 0 (generate_uuid (λ n. 13) 0).0 32 digits
      refl

-- The digit d for the first identifier, and e behind it.
abbrev two_digits : ℕ → ℕ
two_digits n = if ltb n 32 then 13 else 14

abbrev is_first : Bytes → Bool
is_first u = same u (uuid_of b'd')

two_digits-first : is_first (candidate two_digits 0 0) ≡ true
unfolding generate_uuid uuid_chars is_dash_position same
two_digits-first = refl

two_digits-second : is_first (candidate two_digits 0 1) ≡ false
unfolding generate_uuid uuid_chars is_dash_position same
two_digits-second = refl

two_digits_differ : (i j : ℕ) → i < j → j < 2 → candidate two_digits 0 i ≢ candidate two_digits 0 j
two_digits_differ zero zero p q e = absurd (omega arith)
two_digits_differ zero (suc zero) p q e =
    let clash = sym two_digits-first ∙ ap is_first e ∙ two_digits-second in
    absurd (ground (arith, clash))
two_digits_differ zero (suc (suc j)) p q e = absurd (omega arith)
two_digits_differ (suc i) j p q e = absurd (omega arith)

two_digits_taken :
    (i : ℕ)
    → i < 2
    → is_first (candidate two_digits 0 i) ≡ true
    → among (candidate two_digits 0 i) (uuid_of b'd' ∷ []) ≡ true
unfolding any_of
two_digits_taken i p h = ground (
  arith,
  same_iff (candidate two_digits 0 i) (uuid_of b'd'),
  same_iff (uuid_of b'd') (candidate two_digits 0 i),
)

-- The first candidate is in use, and the second is not.
generate_unique-total_example : generate_unique 2 is_first two_digits 0 ≢ none
generate_unique-total_example =
    generate_unique-total 2 is_first two_digits 0 (uuid_of b'd' ∷ []) two_digits_differ
      two_digits_taken (ground arith)
