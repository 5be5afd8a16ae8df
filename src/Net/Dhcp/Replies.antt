-- ===== src/Net/Dhcp/Replies.antt =====
-- net/dhcp.c: which packets `dhcp_handle_udp_packet` heeds, and what it makes of them.
use naw_os.Base.{
  ℕ, ◌+◌, ◌≤◌, ◌≡◌, ◌≢◌, ◌∙◌, ◌⊎◌, ◌↔◌, inl, inr, refl, ap, true, Bool-cases, some, Option-cases,
  List, ◌==◌, ==_iff, length, length-take, length-drop, get_or, take, drop, arith,
}
use naw_os.Base.Int.{is_zero}
use naw_os.CString.Memory.{memcmp, is_zero-memcmp}
use naw_os.Net.Dhcp.{
  NetState, dhcp_transaction_id, is_same_mac, is_reply, message_type, handle_message,
  dhcp_handle_udp_packet,
}

-- A reply to this machine: a BOOTREPLY for Ethernet with the transaction of the requests and the
-- machine's hardware address.
pub record IsReply (mac : List ℕ) (packet : List ℕ) : Type 0 where
  pub long : 240 ≤ length packet
  pub op : get_or packet 0 0 ≡ 2
  pub hardware : get_or packet 1 0 ≡ 1
  pub address_len : get_or packet 2 0 ≡ 6
  pub transaction : take 4 (drop 4 packet) ≡ dhcp_transaction_id
  pub to_me : take 6 (drop 28 packet) ≡ mac

-- a part of a packet of 240 bytes
part :
    (packet : List ℕ) (i n : ℕ)
    → 240 ≤ length packet
    → i + n ≤ 240
    → length (take n (drop i packet)) ≡ n
part packet i n h le = omega (arith, length-take {0} n (drop i packet), length-drop {0} i packet)

pub is_reply_iff :
    (mac packet : List ℕ) → length mac ≡ 6 → (is_reply mac packet ≡ true) ↔ IsReply mac packet
unfolding is_reply is_same_mac
is_reply_iff mac packet l = (forward, backward)
  where
    same_transaction :
        240 ≤ length packet
        → (is_zero (memcmp (take 4 (drop 4 packet)) dhcp_transaction_id 4) ≡ true)
          ↔ (take 4 (drop 4 packet) ≡ dhcp_transaction_id)
    same_transaction h =
        is_zero-memcmp (take 4 (drop 4 packet)) dhcp_transaction_id 4
          (part packet 4 4 h (omega arith)) refl

    same_mac :
        240 ≤ length packet
        → (is_zero (memcmp (take 6 (drop 28 packet)) mac 6) ≡ true)
          ↔ (take 6 (drop 28 packet) ≡ mac)
    same_mac h = is_zero-memcmp (take 6 (drop 28 packet)) mac 6 (part packet 28 6 h (omega arith)) l

    forward : is_reply mac packet ≡ true → IsReply mac packet
    forward e =
        let long : 240 ≤ length packet = ground (arith, e) in
        record {
          long = long;
          op = ground (arith, e);
          hardware = ground (arith, e);
          address_len = ground (arith, e);
          transaction = (same_transaction long).0 (ground (arith, e));
          to_me = (same_mac long).0 (ground (arith, e));
        }

    backward : IsReply mac packet → is_reply mac packet ≡ true
    backward r = ground (
      arith,
      r.long,
      r.op,
      r.hardware,
      r.address_len,
      (same_transaction r.long).1 r.transaction,
      (same_mac r.long).1 r.to_me,
    )

-- With a hardware address of six bytes, a packet that changes the state at all is a reply to this
-- machine: it has at least 240 bytes, the op, hardware type and address length of a reply, the
-- transaction of the requests and the hardware address of the machine; and its message type is an
-- offer, an acknowledgement or a refusal.
pub dhcp_handle_udp_packet-rejects :
    (packet : List ℕ) (st : NetState)
    → length st.naw_mac_address ≡ 6
    → dhcp_handle_udp_packet packet st ≢ st
    → IsReply st.naw_mac_address packet
      × ((message_type packet ≡ some 2)
          ⊎ ((message_type packet ≡ some 5) ⊎ (message_type packet ≡ some 6)))
unfolding dhcp_handle_udp_packet handle_message
dhcp_handle_udp_packet-rejects packet st l changed = elim (Option-cases (message_type packet)) [
  | inl e ↦ absurd (changed (rw (e, dhcp_handle_udp_packet) refl))
  | inr (t, e) ↦ elim (Bool-cases (is_reply st.naw_mac_address packet)) [
    | inr no_reply ↦ absurd (changed (rw (e, dhcp_handle_udp_packet, no_reply) refl))
    | inl reply ↦ elim (Bool-cases (t == 2)) [
      | inl two ↦ (
        (is_reply_iff st.naw_mac_address packet l).0 reply,
        inl (e ∙ ap some ((==_iff t 2).0 two)),
      )
      | inr not_two ↦ elim (Bool-cases (t == 5)) [
        | inl five ↦ (
          (is_reply_iff st.naw_mac_address packet l).0 reply,
          inr (inl (e ∙ ap some ((==_iff t 5).0 five))),
        )
        | inr not_five ↦ elim (Bool-cases (t == 6)) [
          | inl six ↦ (
            (is_reply_iff st.naw_mac_address packet l).0 reply,
            inr (inr (e ∙ ap some ((==_iff t 6).0 six))),
          )
          | inr other ↦
              absurd
                (changed (rw (e, dhcp_handle_udp_packet, reply, not_two, not_five, other) refl))
        ]
      ]
    ]
  ]
]
