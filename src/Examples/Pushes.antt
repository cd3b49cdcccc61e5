-- ===== src/Examples/Pushes.antt =====
-- A frame of the protocol, a push of one tag, and what became of it.
use marketplace_server.Git.Resolution.{
  completed, manual_required, PreparedReceiveBatch, classify_receive_resolution, ObservedReceiveRef,
  no_transitions,
}
use marketplace_server.Plugins.Model.{ReceiveState, ReceiveBatch}
use marketplace_server.Base.{
  [], ◌∷◌, ◌++◌, refl, none, true, arith, List, ◌≡◌, if◌then◌else◌, ok, not, ◌&&◌, all, eqb, length,
  any, ℕ, ◌+◌, ◌≤◌,
}
use marketplace_server.Git.PktLine.{
  read_pkt_line, format_pkt_line, line, read_pkt_line-format_pkt_line, read_full, parse_hex,
  hex_value, trim_newline,
}
use marketplace_server.Git.Bytes.{Bytes, ascii, same, all_zeros, is_nil, split}
use marketplace_server.Git.Commands.{
  ReceiveCommand, parse_receive_commands, parse_line, parse_fields, valid_object_id,
  valid_receive_ref_name, is_malformed, build_update_ref_transaction,
}
use marketplace_server.Receive.Classify.{classify_resolution, classify_resolution-agrees}
use marketplace_server.Receive.Writes.{Fresh}
use marketplace_server.Git.Transaction.{
  is_distinct, is_done, is_no_op, build_update_ref_transaction-parse_receive_commands,
}
use marketplace_server.Git.Settled.{is_indexable, disposition_of, classify_receive_resolution_lem}
use marketplace_server.Git.PushOptions.{
  consume_push_options, is_answered, consume_push_options-is_answered, flushed, frame_length,
  read_pkt_line-length,
}

read_pkt_line-format_pkt_line_example :
    read_pkt_line (format_pkt_line (104 ∷ 105 ∷ 10 ∷ []) ++ 48 ∷ [])
    ≡ ok (line (104 ∷ 105 ∷ 10 ∷ []), 48 ∷ [])
read_pkt_line-format_pkt_line_example =
    read_pkt_line-format_pkt_line (104 ∷ 105 ∷ 10 ∷ []) (48 ∷ []) (omega arith)

abbrev zeros : Bytes
zeros = ascii "0000000000000000000000000000000000000000"

abbrev some_object : Bytes
some_object = ascii "0123456789abcdef0123456789abcdef01234567"

abbrev tag_ref : Bytes
tag_ref = ascii "refs/tags/v1.0.0"

abbrev creation_line : Bytes
creation_line = zeros ++ 32 ∷ some_object ++ 32 ∷ tag_ref

abbrev created_tag : ReceiveCommand
created_tag = record { old_object_id = zeros; new_object_id = some_object; ref_name = tag_ref }

build_update_ref_transaction-parse_receive_commands_example :
    (all (λ c. not (is_malformed c)) (created_tag ∷ []) ≡ true)
    × (is_distinct [] (created_tag ∷ []) ≡ true)
    × (is_done (build_update_ref_transaction (created_tag ∷ []))
        ≡ not (any is_no_op (created_tag ∷ [])))
unfolding parse_receive_commands parse_line parse_fields valid_object_id valid_receive_ref_name
    split ascii
build_update_ref_transaction-parse_receive_commands_example =
    build_update_ref_transaction-parse_receive_commands 40 (creation_line ∷ []) (created_tag ∷ [])
      refl

abbrev pushed : PreparedReceiveBatch
pushed = record {
  id = ascii "b1";
  transitions =
      record {
        ref_name = tag_ref;
        expected_old_object_id = zeros;
        proposed_new_object_id = some_object;
      }
      ∷ [];
}

abbrev seen_refs : List ObservedReceiveRef
seen_refs = record { ref_name = tag_ref; object_id = some_object; exists = true } ∷ []

pushed_completed : classify_receive_resolution pushed seen_refs ≡ completed
unfolding classify_receive_resolution ascii same all_zeros
pushed_completed = refl

classify_receive_resolution_lem_example : classify_receive_resolution pushed seen_refs ≡ (
    if not (is_nil pushed.id)
      && not (no_transitions pushed.transitions)
      && eqb (length seen_refs) (length pushed.transitions)
      && is_indexable seen_refs
    then disposition_of seen_refs pushed.transitions
    else manual_required)
classify_receive_resolution_lem_example = classify_receive_resolution_lem pushed seen_refs

classify_resolution-agrees_example :
    classify_resolution pushed seen_refs ≡ classify_receive_resolution pushed seen_refs
classify_resolution-agrees_example = classify_resolution-agrees pushed seen_refs

abbrev pub batch_in : ReceiveState → ReceiveBatch
batch_in state = record {
  id = "b1";
  plugin_id = "p1";
  state = state;
  correlation_id = "c1";
  attempts = 0;
  safe_error = "";
  created_at = 1;
  updated_at = 1;
  completed_at = none;
}

abbrev pub plain_ids : Fresh
plain_ids = record {
  history = λ id. id;
  job = λ id. id;
  artifact = λ intent_id revision_id. revision_id;
  transition = λ intent_id revision_id. revision_id;
}

-- One option, a flush and a byte that is left.
abbrev option_lines : List ℕ
option_lines = 48 ∷ 48 ∷ 48 ∷ 54 ∷ 97 ∷ 10 ∷ 48 ∷ 48 ∷ 48 ∷ 48 ∷ 7 ∷ []

abbrev flush_and_byte : List ℕ
flush_and_byte = 48 ∷ 48 ∷ 48 ∷ 48 ∷ 7 ∷ []

read_pkt_line-length_example :
    (frame_length (line (97 ∷ [])) ≤ 65516)
    × (frame_length (line (97 ∷ [])) + length flush_and_byte + 4 ≤ length option_lines)
unfolding read_pkt_line read_full parse_hex hex_value trim_newline
read_pkt_line-length_example =
    read_pkt_line-length option_lines flush_and_byte (line (97 ∷ [])) refl

options_flushed : consume_push_options 12 option_lines ≡ flushed (7 ∷ [])
unfolding consume_push_options read_pkt_line read_full parse_hex hex_value trim_newline
options_flushed = refl

consume_push_options-is_answered_example : is_answered (consume_push_options 12 option_lines) ≡ true
consume_push_options-is_answered_example =
    consume_push_options-is_answered 12 option_lines (omega arith)
