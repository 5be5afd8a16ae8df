-- ===== src/Net/Dhcp/Exchange.antt =====
-- net/dhcp.c and net/net.c: requests, and the options that a server reads in them.
use mathlib.Core.List.{append_assoc}
use naw_os.Base.{
  ℕ, zero, suc, ◌<◌, ◌≡◌, ◌≢◌, ◌∙◌, inl, inr, refl, ap, lt→ltb, ltb→lt, false, Bool-cases, Option,
  none, some, List, [], ◌∷◌, ◌++◌, ltb, ◌==◌, if◌then◌else◌, length, length-append, length-take,
  length-drop, take, take-append_at, drop, drop-append_at, replicate, arith,
}
use naw_os.Net.Dhcp.{
  NetState, Datagram, dhcp_client_port, dhcp_server_port, zero_ip, broadcast_ip, dhcp_write_header,
  dhcp_find_option, send, request_options, discover_options, dhcp_send_request, dhcp_send_discover,
  message_type, handle_message, handle_offer, dhcp_handle_udp_packet, options_of, yiaddr,
  net_is_configured, net_periodic,
}
use naw_os.Net.Dhcp.Options.{
  DhcpOption, option_bytes, first_option, dhcp_find_option-option_bytes, dhcp_find_option-inside,
}
use naw_os.Net.Dhcp.Replies.{IsReply, is_reply_iff}

length-dhcp_write_header : (mac : List ℕ) → length mac ≡ 6 → length (dhcp_write_header mac) ≡ 240
unfolding dhcp_write_header
length-dhcp_write_header mac l =
    omega (arith, l, length-append mac (replicate 202 0 ++ (0x63 ∷ 0x82 ∷ 0x53 ∷ 0x63 ∷ [])))

options_of-header :
    (mac options : List ℕ)
    → length mac ≡ 6
    → options_of (dhcp_write_header mac ++ options) ≡ options
options_of-header mac options l =
    drop-append_at 240 0 (dhcp_write_header mac) options (length-dhcp_write_header mac l)

-- the options of a request, as a list of options
abbrev requested : List ℕ → List ℕ → List DhcpOption
requested offered server =
    (53, 3 ∷ []) ∷ (50, offered) ∷ (54, server) ∷ (55, 1 ∷ 3 ∷ 6 ∷ 54 ∷ []) ∷ []

request_options_bytes :
    (offered server : List ℕ)
    → length offered ≡ 4
    → length server ≡ 4
    → request_options offered server ≡ option_bytes (requested offered server) ++ (255 ∷ [])
unfolding request_options
request_options_bytes offered server a b = rw (a, b) (simp append_assoc)

known : (c : ℕ) → 0 < c → c < 255 → (c ≢ 0) × (c ≢ 255)
known c a b = ((λ z. omega arith), (λ z. omega arith))

-- what a server makes of an option that it looks for: its bytes, if its length is 4
abbrev pub four_of : Option (List ℕ × ℕ) → Option (List ℕ)
four_of none = none
four_of (some (body, len)) = if len == 4 then some (take 4 body) else none

abbrev pub four_bytes : List ℕ → ℕ → Option (List ℕ)
four_bytes packet code = four_of (dhcp_find_option (options_of packet) code)

four_of_lem : (a tail : List ℕ) → length a ≡ 4 → four_of (some (a ++ tail, length a)) ≡ some a
four_of_lem a tail l =
    ap (λ n. four_of (some (a ++ tail, n))) l ∙ ap some (take-append_at 4 a tail l)

module _ (mac offered server : List ℕ) (mac_len : length mac ≡ 6) (offered_len : length offered ≡ 4)
    (server_len : length server ≡ 4) where
  abbrev request : List ℕ
  request = dhcp_write_header mac ++ request_options offered server

  found_in_request :
      (code : ℕ)
      → dhcp_find_option (options_of request) code
        ≡ first_option (requested offered server) (255 ∷ []) code
  found_in_request code =
      ap (λ o. dhcp_find_option o code)
        (options_of-header mac (request_options offered server) mac_len
          ∙ request_options_bytes offered server offered_len server_len)
      ∙ dhcp_find_option-option_bytes (requested offered server) [] code (
        known 53 (omega arith) (omega arith),
        (
          known 50 (omega arith) (omega arith),
          (known 54 (omega arith) (omega arith), (known 55 (omega arith) (omega arith), tt)),
        ),
      )

  request-message_type : message_type request ≡ some 3
  unfolding message_type
  request-message_type = rw (found_in_request 53, message_type) refl

  request-offered : four_bytes request 50 ≡ some offered
  request-offered = ap four_of (found_in_request 50) ∙ four_of_lem offered _ offered_len

  request-server : four_bytes request 54 ≡ some server
  request-server = ap four_of (found_in_request 54) ∙ four_of_lem server _ server_len

-- With a hardware address of six bytes, on a reply to this machine that is an offer with an option 54
-- of four bytes, one datagram is sent, broadcast to the port of servers: it is a request, its option 50
-- is the address that is offered and its option 54 that of the offer.
pub dhcp_handle_udp_packet-offer :
    (packet : List ℕ) (st : NetState) (body : List ℕ)
    → length st.naw_mac_address ≡ 6
    → IsReply st.naw_mac_address packet
    → message_type packet ≡ some 2
    → dhcp_find_option (options_of packet) 54 ≡ some (body, 4)
    → (d : Datagram) × ((dhcp_handle_udp_packet packet st).sent ≡ d ∷ st.sent)
      × (d.dest_ip ≡ broadcast_ip)
      × (d.dst_port ≡ dhcp_server_port)
      × (message_type d.body ≡ some 3)
      × (four_bytes d.body 50 ≡ some (yiaddr packet))
      × (four_bytes d.body 54 ≡ some (take 4 body))
unfolding dhcp_handle_udp_packet handle_message handle_offer dhcp_send_request send
dhcp_handle_udp_packet-offer packet st body l r t e =
    let mac = st.naw_mac_address in
    let reply = (is_reply_iff mac packet l).1 r in
    let offered_len : length (yiaddr packet) ≡ 4 =
      omega (arith, r.long, length-take {0} 4 (drop 16 packet), length-drop {0} 16 packet) in
    let server_len : length (take 4 body) ≡ 4 = omega (
      arith,
      length-take {0} 4 body,
      (dhcp_find_option-inside (options_of packet) 54 body 4 e).0,
    ) in
    (
      record {
        src_ip = zero_ip;
        dest_ip = broadcast_ip;
        src_port = dhcp_client_port;
        dst_port = dhcp_server_port;
        body = dhcp_write_header mac ++ request_options (yiaddr packet) (take 4 body);
      },
      rw (t, dhcp_handle_udp_packet, reply, e, handle_offer) refl,
      refl,
      refl,
      request-message_type mac (yiaddr packet) (take 4 body) l offered_len server_len,
      request-offered mac (yiaddr packet) (take 4 body) l offered_len server_len,
      request-server mac (yiaddr packet) (take 4 body) l offered_len server_len,
    )

-- the calls of `net_periodic` one after another
abbrev pub ticks : ℕ → NetState → NetState
ticks zero st = st
ticks (suc n) st = ticks n (net_periodic st)

net_periodic-waits :
    (n : ℕ) (st : NetState)
    → net_is_configured st ≡ false
    → st.dhcp_retry_ticks ≡ suc n
    → net_periodic st ≡ record st { dhcp_retry_ticks = n }
unfolding net_periodic
net_periodic-waits n st c e =
    rw (c, lt→ltb 0 st.dhcp_retry_ticks (omega (arith, e)))
      (ap (λ k. record st { dhcp_retry_ticks = k }) {y = n} (omega (arith, e)))

net_periodic-sends :
    (st : NetState)
    → net_is_configured st ≡ false
    → st.dhcp_retry_ticks ≡ 0
    → (net_periodic st).sent ≡ (dhcp_send_discover st).sent
unfolding net_periodic
net_periodic-sends st c e = rw c (elim (Bool-cases (ltb 0 st.dhcp_retry_ticks)) [
  | inl t ↦ absurd (omega (arith, ltb→lt 0 st.dhcp_retry_ticks t, e))
  | inr t ↦ rw t refl
])

-- A machine that is not configured and waits for n ticks sends nothing in n calls of net_periodic, and
-- in the next call the request for offers.
pub ticks-net_periodic :
    (n : ℕ) (st : NetState)
    → net_is_configured st ≡ false
    → st.dhcp_retry_ticks ≡ n
    → ((ticks n st).sent ≡ st.sent)
      × ((ticks (suc n) st).sent
          ≡ record {
            src_ip = zero_ip;
            dest_ip = broadcast_ip;
            src_port = dhcp_client_port;
            dst_port = dhcp_server_port;
            body = dhcp_write_header st.naw_mac_address ++ discover_options;
          }
            ∷ st.sent)
unfolding net_is_configured dhcp_send_discover send
ticks-net_periodic zero st c e = (refl, net_periodic-sends st c e)
ticks-net_periodic (suc n) st c e =
    let waits = net_periodic-waits n st c e in
    rw (waits, ticks) (ticks-net_periodic n (record st { dhcp_retry_ticks = n }) c refl)
