-- ===== src/Tests/Credits.antt =====
-- A concrete source for the theorem on the credits of src/media.rs.
use vvmux.Prelude.{List, [], ◌∷◌, true, false, arith}
use vvmux.Media.{Source}
use vvmux.Media.Credit.{CreditOp, send_op, return_op, steps, opened, IsSound, steps-IsSound}

abbrev source : Source
source = record {
  credit_window_bytes = 1000;
  credit_window_packets = 8;
  outstanding_byte_credit = 100;
  outstanding_packet_credit = 1;
  charged_bytes = 0;
  charged_packets = 0;
}

-- A record, one without credit, a return to a source that is shown, one that was not charged.
abbrev calls : List CreditOp
calls = send_op 60 ∷ send_op 40 ∷ return_op true 60 1 ∷ return_op false 5 1 ∷ []

steps-IsSound_example : IsSound 100 1 source (steps (opened source) calls)
steps-IsSound_example =
    steps-IsSound source calls (omega arith) (omega arith) (omega arith) (omega arith)
