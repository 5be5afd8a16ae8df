-- ===== src/Net/Dhcp/Lease.antt =====
-- net/dhcp.c and net/net.c: the way from a request to a lease, and what holds at any time.
use naw_os.Base.{
  ℕ, ◌≤◌, ◌≡◌, inl, inr, refl, sym, Bool, true, Bool-cases, Option-cases, List, ltb, leb, ◌==◌,
  length, length-take, length-drop, take, drop, arith, ==_iff,
}
use naw_os.Net.Dhcp.{
  NetState, dhcp_find_option, send, dhcp_send_request, dhcp_send_discover, dhcp_init, option_or,
  is_reply, message_type, handle_message, handle_offer, handle_ack, handle_nak,
  dhcp_handle_udp_packet, options_of, yiaddr, net_is_configured, net_request_dhcp, net_init,
  net_periodic, net_send_text_broadcast,
}
use naw_os.Net.Dhcp.Options.{dhcp_find_option-inside}
use naw_os.Net.Dhcp.Replies.{is_reply_iff}

-- The addresses have their sizes, a lease and a configuration go together, and the wait is at most
-- NET_DHCP_RETRY_TICKS.
pub record IsValid (st : NetState) : Type 0 where
  pub mac_len : length st.naw_mac_address ≡ 6
  pub own_len : length st.naw_ip_address ≡ 4
  pub ip_len : length st.net_info.ip ≡ 4
  pub gateway_len : length st.net_info.gateway ≡ 4
  pub subnet_len : length st.net_info.subnet ≡ 4
  pub server_len : length st.net_info.dhcp_server ≡ 4
  pub offered_len : length st.offered_ip ≡ 4
  pub id_len : length st.server_id ≡ 4
  pub together : st.dhcp_bound ≡ st.net_info.configured
  pub same_ip : st.naw_ip_address ≡ st.net_info.ip
  pub ticks : st.dhcp_retry_ticks ≤ 100000

four : (xs : List ℕ) → 4 ≤ length xs → length (take 4 xs) ≡ 4
four xs h = omega (arith, length-take {0} 4 xs)

-- the four bytes of an option, or those kept
length-option_or :
    (test : ℕ → Bool) (options : List ℕ) (code : ℕ) (old : List ℕ)
    → ((len : ℕ) → test len ≡ true → 4 ≤ len)
    → length old ≡ 4
    → length (option_or test (dhcp_find_option options code) old) ≡ 4
length-option_or test options code old h l = elim (Option-cases (dhcp_find_option options code)) [
  | inl e ↦ rw e l
  | inr ((body, len), e) ↦ elim (Bool-cases (test len)) [
    | inl t ↦
        let inside = dhcp_find_option-inside options code body len e in
        rw (e, t) (four body (omega (arith, inside.0, h len t)))
    | inr t ↦ rw (e, t) l
  ]
]

length-yiaddr : (packet : List ℕ) → 240 ≤ length packet → length (yiaddr packet) ≡ 4
length-yiaddr packet h = four (drop 16 packet) (omega (arith, length-drop {0} 16 packet))

handle_offer-IsValid :
    (packet : List ℕ) (st : NetState)
    → 240 ≤ length packet
    → IsValid st
    → IsValid (handle_offer packet st)
unfolding handle_offer dhcp_send_request send
handle_offer-IsValid packet st h v = elim (Option-cases (dhcp_find_option (options_of packet) 54)) [
  | inl e ↦ rw (e, handle_offer) v
  | inr ((body, len), e) ↦ elim (Bool-cases (len == 4)) [
    | inr t ↦ rw (e, handle_offer, t) v
    | inl t ↦
        let inside = dhcp_find_option-inside (options_of packet) 54 body len e in
        rw (e, handle_offer, t)
          (record {
            mac_len = v.mac_len;
            own_len = v.own_len;
            ip_len = v.ip_len;
            gateway_len = v.gateway_len;
            subnet_len = v.subnet_len;
            server_len = v.server_len;
            offered_len = length-yiaddr packet h;
            id_len = four body (omega (arith, inside.0, (==_iff len 4).0 t));
            together = v.together;
            same_ip = v.same_ip;
            ticks = v.ticks;
          })
  ]
]

handle_ack-IsValid :
    (packet : List ℕ) (st : NetState)
    → 240 ≤ length packet
    → IsValid st
    → IsValid (handle_ack packet st)
unfolding handle_ack
handle_ack-IsValid packet st h v = record {
  mac_len = v.mac_len;
  own_len = length-yiaddr packet h;
  ip_len = length-yiaddr packet h;
  gateway_len =
      length-option_or (λ len. leb 4 len) (options_of packet) 3 st.net_info.gateway
        (λ len t. ground (arith, t)) v.gateway_len;
  subnet_len =
      length-option_or (λ len. len == 4) (options_of packet) 1 st.net_info.subnet
        (λ len t. ground (arith, t)) v.subnet_len;
  server_len =
      length-option_or (λ len. len == 4) (options_of packet) 54 st.server_id
        (λ len t. ground (arith, t)) v.id_len;
  offered_len = v.offered_len;
  id_len = v.id_len;
  together = refl;
  same_ip = refl;
  ticks = v.ticks;
}

handle_nak-IsValid : (st : NetState) → IsValid st → IsValid (handle_nak st)
unfolding handle_nak
handle_nak-IsValid st v = record {
  mac_len = v.mac_len;
  own_len = v.own_len;
  ip_len = v.ip_len;
  gateway_len = v.gateway_len;
  subnet_len = v.subnet_len;
  server_len = v.server_len;
  offered_len = v.offered_len;
  id_len = v.id_len;
  together = refl;
  same_ip = v.same_ip;
  ticks = v.ticks;
}

dhcp_handle_udp_packet-IsValid :
    (packet : List ℕ) (st : NetState) → IsValid st → IsValid (dhcp_handle_udp_packet packet st)
unfolding dhcp_handle_udp_packet handle_message
dhcp_handle_udp_packet-IsValid packet st v = elim (Option-cases (message_type packet)) [
  | inl e ↦ rw (e, dhcp_handle_udp_packet) v
  | inr (t, e) ↦ elim (Bool-cases (is_reply st.naw_mac_address packet)) [
    | inr n ↦ rw (e, dhcp_handle_udp_packet, n) v
    | inl r ↦
        let long = ((is_reply_iff st.naw_mac_address packet v.mac_len).0 r).long in
        rw (e, dhcp_handle_udp_packet, r)
          (elim (Bool-cases (t == 2)) [
            | inl two ↦ rw two (handle_offer-IsValid packet st long v)
            | inr a ↦ elim (Bool-cases (t == 5)) [
              | inl five ↦ rw (a, five) (handle_ack-IsValid packet st long v)
              | inr b ↦ elim (Bool-cases (t == 6)) [
                | inl six ↦ rw (a, b, six) (handle_nak-IsValid st v)
                | inr c ↦ rw (a, b, c) v
              ]
            ]
          ])
  ]
]

net_request_dhcp-IsValid : (st : NetState) → IsValid st → IsValid (net_request_dhcp st)
unfolding net_request_dhcp dhcp_send_discover send
net_request_dhcp-IsValid st v = record {
  mac_len = v.mac_len;
  own_len = refl;
  ip_len = refl;
  gateway_len = refl;
  subnet_len = refl;
  server_len = refl;
  offered_len = v.offered_len;
  id_len = v.id_len;
  together = refl;
  same_ip = refl;
  ticks = omega arith;
}

net_init-IsValid :
    (rtl_mac : List ℕ) (st : NetState) → length rtl_mac ≡ 6 → IsValid (net_init rtl_mac st)
unfolding net_init net_request_dhcp dhcp_init dhcp_send_discover send
net_init-IsValid rtl_mac st l = record {
  mac_len = omega (arith, l, length-take {0} 6 rtl_mac);
  own_len = refl;
  ip_len = refl;
  gateway_len = refl;
  subnet_len = refl;
  server_len = refl;
  offered_len = refl;
  id_len = refl;
  together = refl;
  same_ip = refl;
  ticks = omega arith;
}

net_periodic-IsValid : (st : NetState) → IsValid st → IsValid (net_periodic st)
unfolding net_periodic dhcp_send_discover send
net_periodic-IsValid st v = elim (Bool-cases (net_is_configured st)) [
  | inl e ↦ rw e v
  | inr e ↦ elim (Bool-cases (ltb 0 st.dhcp_retry_ticks)) [
    | inl waiting ↦
        rw (e, waiting)
          (record {
            mac_len = v.mac_len;
            own_len = v.own_len;
            ip_len = v.ip_len;
            gateway_len = v.gateway_len;
            subnet_len = v.subnet_len;
            server_len = v.server_len;
            offered_len = v.offered_len;
            id_len = v.id_len;
            together = v.together;
            same_ip = v.same_ip;
            ticks = omega (arith, v.ticks);
          })
    | inr due ↦
        rw (e, due)
          (record {
            mac_len = v.mac_len;
            own_len = v.own_len;
            ip_len = v.ip_len;
            gateway_len = v.gateway_len;
            subnet_len = v.subnet_len;
            server_len = v.server_len;
            offered_len = v.offered_len;
            id_len = v.id_len;
            together = sym (unfold net_is_configured in e);
            same_ip = v.same_ip;
            ticks = omega arith;
          })
  ]
]

net_send_text_broadcast-IsValid :
    (t : List ℕ) (st : NetState) → IsValid st → IsValid (net_send_text_broadcast t st)
unfolding net_send_text_broadcast send
net_send_text_broadcast-IsValid t st v = elim (Bool-cases (net_is_configured st)) [
  | inr e ↦ rw e v
  | inl e ↦ rw e (record {
    mac_len = v.mac_len;
    own_len = v.own_len;
    ip_len = v.ip_len;
    gateway_len = v.gateway_len;
    subnet_len = v.subnet_len;
    server_len = v.server_len;
    offered_len = v.offered_len;
    id_len = v.id_len;
    together = v.together;
    same_ip = v.same_ip;
    ticks = v.ticks;
  })
]

-- What the rest of the kernel calls, in any order.
pub data Step : NetState → NetState → Type 0 where
  received : (packet : List ℕ) (st : NetState) → Step st (dhcp_handle_udp_packet packet st)
  ticked : (st : NetState) → Step st (net_periodic st)
  requested : (st : NetState) → Step st (net_request_dhcp st)
  texted : (t : List ℕ) (st : NetState) → Step st (net_send_text_broadcast t st)

-- The states after `net_init` with the hardware address of the card, from whatever the memory held.
pub data NetReachable : NetState → Type 0 where
  started :
      (rtl_mac : List ℕ) (st : NetState) → length rtl_mac ≡ 6 → NetReachable (net_init rtl_mac st)
  stepped : {st st' : NetState} → NetReachable st → Step st st' → NetReachable st'

Step-IsValid : {st st' : NetState} → Step st st' → IsValid st → IsValid st'
Step-IsValid (received packet st) v = dhcp_handle_udp_packet-IsValid packet st v
Step-IsValid (ticked st) v = net_periodic-IsValid st v
Step-IsValid (requested st) v = net_request_dhcp-IsValid st v
Step-IsValid (texted t st) v = net_send_text_broadcast-IsValid t st v

-- Whatever packets, ticks, requests and texts come after net_init with a hardware address of six bytes,
-- every address keeps its size, the machine is configured exactly while it has a lease, its two copies
-- of the own address agree, and the wait for the next request is at most 100000 ticks.
pub NetReachable-IsValid : {st : NetState} → NetReachable st → IsValid st
NetReachable-IsValid (started rtl_mac st l) = net_init-IsValid rtl_mac st l
NetReachable-IsValid (stepped r s) = Step-IsValid s (NetReachable-IsValid r)
