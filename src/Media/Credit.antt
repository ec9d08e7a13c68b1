-- ===== src/Media/Credit.antt =====
-- The credits of a source of src/media.rs over any sequence of records and deliveries.
use vvmux.Prelude.{
  ℕ, ◌+◌, ◌-◌, ◌≤◌, ◌≡◌, refl, max, Bool, false, ◌||◌, none, some, List, [], ◌∷◌, arith, ltb, ◌==◌,
  Bool-cases, inl, inr,
}
use vvmux.Prelude.Word.{u64_max, saturating_add}
use vvmux.Media.{Source, charge, refund, give_back, top_up, top_up_bytes, top_up_packets}

-- A record that the producer sends, or the end of a delivery.
pub data CreditOp : Type 0 where
  send_op : (bytes : ℕ) → CreditOp
  return_op : (projected : Bool) (bytes packets : ℕ) → CreditOp

-- The source, with what was accepted from its producer and what was granted to it.
pub record Ledger : Type 0 where
  pub source : Source
  pub sent_bytes : ℕ
  pub sent_packets : ℕ
  pub granted_bytes : ℕ
  pub granted_packets : ℕ

unfoldable pub step : Ledger → CreditOp → Ledger
step l (send_op bytes) =
    let charged = charge l.source bytes in
    elim charged.1 [
      | some error ↦ record l { source = charged.0 }
      | none ↦ record l {
        source = charged.0;
        sent_bytes = l.sent_bytes + bytes;
        sent_packets = l.sent_packets + 1;
      }
    ]
step l (return_op projected bytes packets) =
    let refunded = refund projected l.source bytes packets in
    record l {
      source = refunded.0;
      granted_bytes = l.granted_bytes + refunded.1.bytes;
      granted_packets = l.granted_packets + refunded.1.packets;
    }

unfoldable pub steps : Ledger → List CreditOp → Ledger
steps l [] = l
steps l (op ∷ ops) = steps (step l op) ops

-- A kind of credit: what is outstanding is what the producer has left of its first credit and its
-- grants, and with what is charged it stays within the greater of the first credit and the window.
pub record Balanced (first window outstanding charged sent granted : ℕ) : Type 0 where
  pub agreed : outstanding + sent ≡ first + granted
  pub within : outstanding + charged ≤ max first window

pub record IsSound (first_bytes first_packets : ℕ) (window : Source) (l : Ledger) : Type 0 where
  pub bytes_balanced :
      Balanced first_bytes window.credit_window_bytes l.source.outstanding_byte_credit
        l.source.charged_bytes l.sent_bytes l.granted_bytes
  pub packets_balanced :
      Balanced first_packets window.credit_window_packets l.source.outstanding_packet_credit
        l.source.charged_packets l.sent_packets l.granted_packets
  pub bytes_window : l.source.credit_window_bytes ≡ window.credit_window_bytes
  pub packets_window : l.source.credit_window_packets ≡ window.credit_window_packets

sent-Balanced :
    (first window outstanding charged sent granted n : ℕ)
    → n ≤ outstanding
    → Balanced first window outstanding charged sent granted
    → Balanced first window (outstanding - n) (charged + n) (sent + n) granted
sent-Balanced first window outstanding charged sent granted n h b = record {
  agreed = omega (arith, h, b.agreed);
  within = omega (arith, h, b.within);
}

given-Balanced :
    (first window outstanding charged sent granted n : ℕ)
    → first ≤ u64_max
    → window ≤ u64_max
    → n ≤ charged
    → Balanced first window outstanding charged sent granted
    → Balanced first window (saturating_add u64_max outstanding n) (charged - n) sent (granted + n)
given-Balanced first window outstanding charged sent granted n h h' k b = record {
  agreed = omega (arith, h, h', k, b.agreed, b.within);
  within = omega (arith, h, h', k, b.agreed, b.within);
}

topped-Balanced :
    (first window own_window outstanding charged sent granted n : ℕ)
    → first ≤ u64_max
    → window ≤ u64_max
    → own_window ≡ window
    → n ≤ outstanding
    → Balanced first window outstanding charged sent (granted + n)
    → Balanced first window
        (saturating_add u64_max outstanding
          (own_window - saturating_add u64_max outstanding charged))
        charged
        sent
        (granted
          + saturating_add u64_max n (own_window - saturating_add u64_max outstanding charged))
topped-Balanced first window own_window outstanding charged sent granted n h h' e k b = record {
  agreed = omega (arith, h, h', e, k, b.agreed, b.within);
  within = omega (arith, h, h', e, k, b.agreed, b.within);
}

nothing-Balanced :
    (first window outstanding charged sent granted : ℕ)
    → Balanced first window outstanding charged sent granted
    → Balanced first window outstanding charged sent (granted + 0)
nothing-Balanced first window outstanding charged sent granted b = record {
  agreed = omega (arith, b.agreed);
  within = b.within;
}

module _ (first_bytes first_packets : ℕ) (window : Source) (bytes_fit : first_bytes ≤ u64_max)
    (packets_fit : first_packets ≤ u64_max)
    (bytes_window_fits : window.credit_window_bytes ≤ u64_max)
    (packets_window_fits : window.credit_window_packets ≤ u64_max) where
  abbrev Sound : Ledger → Type 0
  Sound l = IsSound first_bytes first_packets window l

  step_send-IsSound : (l : Ledger) (bytes : ℕ) → Sound l → Sound (step l (send_op bytes))
  unfolding step charge
  step_send-IsSound l bytes v =
      let s = l.source in
      let b = v.bytes_balanced in
      let p = v.packets_balanced in
      elim (Bool-cases (
        (bytes == 0)
        || ltb s.outstanding_byte_credit bytes
        || (s.outstanding_packet_credit == 0))) [
          | inl denied ↦ simp (step, denied) v
          | inr allowed ↦
              let enough : bytes ≤ s.outstanding_byte_credit = ground (arith, allowed) in
              let one : 1 ≤ s.outstanding_packet_credit = ground (arith, allowed) in
              let fits : ltb u64_max (s.charged_bytes + bytes) ≡ false =
                ground (arith, enough, b.within, bytes_fit, bytes_window_fits) in
              let fits' : ltb u64_max (s.charged_packets + 1) ≡ false =
                ground (arith, one, p.within, packets_fit, packets_window_fits) in
              let k : Sound (record l {
                source = record s {
                  outstanding_byte_credit = s.outstanding_byte_credit - bytes;
                  outstanding_packet_credit = s.outstanding_packet_credit - 1;
                  charged_bytes = s.charged_bytes + bytes;
                  charged_packets = s.charged_packets + 1;
                };
                sent_bytes = l.sent_bytes + bytes;
                sent_packets = l.sent_packets + 1;
              }) =
                record {
                  bytes_balanced = sent-Balanced _ _ _ _ _ _ bytes enough b;
                  packets_balanced = sent-Balanced _ _ _ _ _ _ 1 one p;
                  bytes_window = v.bytes_window;
                  packets_window = v.packets_window;
                } in
              simp (step, allowed, fits, fits') k
        ]

  step_return-IsSound :
      (l : Ledger) (projected : Bool) (bytes packets : ℕ)
      → Sound l
      → Sound (step l (return_op projected bytes packets))
  unfolding step refund give_back top_up top_up_bytes top_up_packets
  step_return-IsSound l projected bytes packets v =
      let s = l.source in
      let b = v.bytes_balanced in
      let p = v.packets_balanced in
      elim (Bool-cases (ltb s.charged_bytes bytes || ltb s.charged_packets packets)) [
        | inl refused ↦
            let k : Sound (record l {
              granted_bytes = l.granted_bytes + 0;
              granted_packets = l.granted_packets + 0;
            }) =
              record {
                bytes_balanced = nothing-Balanced _ _ _ _ _ _ b;
                packets_balanced = nothing-Balanced _ _ _ _ _ _ p;
                bytes_window = v.bytes_window;
                packets_window = v.packets_window;
              } in
            simp (step, refused) k
        | inr allowed ↦
            let enough : bytes ≤ s.charged_bytes = ground (arith, allowed) in
            let enough' : packets ≤ s.charged_packets = ground (arith, allowed) in
            let gb = given-Balanced _ _ _ _ _ _ bytes bytes_fit bytes_window_fits enough b in
            let gp = given-Balanced _ _ _ _ _ _ packets packets_fit packets_window_fits enough' p in
            elim (Bool-cases projected) [
              | inl shown ↦
                  let given = give_back s bytes packets in
                  let k : Sound (record l {
                    source = top_up given;
                    granted_bytes =
                        l.granted_bytes + saturating_add u64_max bytes (top_up_bytes given);
                    granted_packets =
                        l.granted_packets + saturating_add u64_max packets (top_up_packets given);
                  }) =
                    record {
                      bytes_balanced =
                          topped-Balanced _ _ s.credit_window_bytes _ _ _ _ bytes bytes_fit
                            bytes_window_fits v.bytes_window
                            (omega (arith, enough, b.within, bytes_fit, bytes_window_fits)) gb;
                      packets_balanced =
                          topped-Balanced _ _ s.credit_window_packets _ _ _ _ packets packets_fit
                            packets_window_fits v.packets_window
                            (omega (arith, enough', p.within, packets_fit, packets_window_fits)) gp;
                      bytes_window = v.bytes_window;
                      packets_window = v.packets_window;
                    } in
                  simp (step, allowed, shown) k
              | inr hidden ↦
                  let k : Sound (record l {
                    source = give_back s bytes packets;
                    granted_bytes = l.granted_bytes + bytes;
                    granted_packets = l.granted_packets + packets;
                  }) =
                    record {
                      bytes_balanced = gb;
                      packets_balanced = gp;
                      bytes_window = v.bytes_window;
                      packets_window = v.packets_window;
                    } in
                  simp (step, allowed, hidden) k
            ]
      ]

  steps-Sound : (l : Ledger) (ops : List CreditOp) → Sound l → Sound (steps l ops)
  unfolding steps
  steps-Sound l [] v = v
  steps-Sound l (send_op bytes ∷ ops) v =
      steps-Sound (step l (send_op bytes)) ops (step_send-IsSound l bytes v)
  steps-Sound l (return_op projected bytes packets ∷ ops) v =
      steps-Sound (step l (return_op projected bytes packets)) ops
        (step_return-IsSound l projected bytes packets v)

-- A source with its first credit, before any record.
abbrev pub opened : Source → Ledger
opened s = record {
  source = record s { charged_bytes = 0; charged_packets = 0 };
  sent_bytes = 0;
  sent_packets = 0;
  granted_bytes = 0;
  granted_packets = 0;
}

-- From a source whose credits and windows are `u64` values, after any records and any returns, also
-- wrong ones: the bytes and packets that are outstanding are what its producer has left of its first
-- credit and its grants, and with what is charged they stay within the greater of the first credit
-- and the window.
pub steps-IsSound :
    (s : Source) (ops : List CreditOp)
    → s.outstanding_byte_credit ≤ u64_max
    → s.outstanding_packet_credit ≤ u64_max
    → s.credit_window_bytes ≤ u64_max
    → s.credit_window_packets ≤ u64_max
    → IsSound s.outstanding_byte_credit s.outstanding_packet_credit s (steps (opened s) ops)
steps-IsSound s ops h₁ h₂ h₃ h₄ =
    steps-Sound s.outstanding_byte_credit s.outstanding_packet_credit s h₁ h₂ h₃ h₄ (opened s) ops
      (record {
        bytes_balanced = record { agreed = refl; within = omega arith };
        packets_balanced = record { agreed = refl; within = omega arith };
        bytes_window = refl;
        packets_window = refl;
      })
