-- ===== src/Net/Dhcp.antt =====
-- net/dhcp.c and net/net.c: the address of the machine. A packet is the list of its bytes. What is sent is
-- kept in a list, the last datagram first; the messages on the terminal are not modelled.
pub mod Options
pub mod Replies
pub mod Lease
pub mod Exchange
mod Tests
use naw_os.Base.{
  ℕ, zero, suc, ◌+◌, ◌-◌, Bool, true, false, ◌||◌, ◌&&◌, not, Option, none, some, List, [], ◌∷◌,
  ◌++◌, ltb, leb, ◌==◌, if◌then◌else◌, length, get_or, take, drop, replicate,
}
use naw_os.Base.Int.{ℤ, pos, is_zero}
use naw_os.CString.{peek, rest, strlen, text}
use naw_os.Net.Packet.{net_text_port}
use naw_os.CString.Memory.{memcmp}

pub record NetInfo : Type 0 where
  pub mac : List ℕ
  pub ip : List ℕ
  pub gateway : List ℕ
  pub subnet : List ℕ
  pub dhcp_server : List ℕ
  pub configured : Bool

-- the arguments of `udp_send_packet`
pub record Datagram : Type 0 where
  pub src_ip : List ℕ
  pub dest_ip : List ℕ
  pub src_port : ℕ
  pub dst_port : ℕ
  pub body : List ℕ

pub record NetState : Type 0 where
  pub naw_mac_address : List ℕ
  pub naw_ip_address : List ℕ
  pub net_info : NetInfo
  pub offered_ip : List ℕ
  pub server_id : List ℕ
  pub dhcp_bound : Bool
  pub dhcp_retry_ticks : ℕ
  pub sent : List Datagram

abbrev pub dhcp_client_port : ℕ
dhcp_client_port = 68

abbrev pub dhcp_server_port : ℕ
dhcp_server_port = 67

abbrev pub dhcp_fixed_header_size : ℕ
dhcp_fixed_header_size = 240

abbrev pub net_dhcp_retry_ticks : ℕ
net_dhcp_retry_ticks = 100000

abbrev pub zero_ip : List ℕ
zero_ip = 0 ∷ 0 ∷ 0 ∷ 0 ∷ []

abbrev pub broadcast_ip : List ℕ
broadcast_ip = 255 ∷ 255 ∷ 255 ∷ 255 ∷ []

abbrev pub dhcp_transaction_id : List ℕ
dhcp_transaction_id = 0x4E ∷ 0x41 ∷ 0x57 ∷ 0x01 ∷ []

unfoldable pub is_same_mac : List ℕ → List ℕ → Bool
is_same_mac naw_mac_address packet = is_zero (memcmp (take 6 (drop 28 packet)) naw_mac_address 6)

-- the 240 bytes before the options
unfoldable pub dhcp_write_header : List ℕ → List ℕ
dhcp_write_header naw_mac_address =
    (0x01 ∷ 0x01 ∷ 0x06 ∷ 0x00 ∷ dhcp_transaction_id)
    ++ ((0 ∷ 0 ∷ 0x80 ∷ 0x00 ∷ replicate 16 0)
        ++ (naw_mac_address ++ (replicate 202 0 ++ (0x63 ∷ 0x82 ∷ 0x53 ∷ 0x63 ∷ []))))

-- The loop of `dhcp_find_option`, with the rounds left: what stands behind the length of the option that is
-- found, and the length.
unfoldable pub find_option : ℕ → List ℕ → ℕ → Option (List ℕ × ℕ)
find_option zero options code = none
find_option (suc rounds) [] code = none
find_option (suc rounds) (option_code ∷ []) code = none
find_option (suc rounds) (option_code ∷ len ∷ body) code =
    let padded = find_option rounds (len ∷ body) code in
    let later = find_option rounds (drop len body) code in
    if option_code == 0
    then padded
    else (if option_code == 255
        then none
        else (if ltb (length body) len
            then none
            else (if option_code == code then some (body, len) else later)))

unfoldable pub dhcp_find_option : List ℕ → ℕ → Option (List ℕ × ℕ)
unfolding find_option
dhcp_find_option options code = find_option (length options) options code

-- A call of `udp_send_packet`, in the order of the calls: what the card makes of it, which may not be
-- ready, is not part of this state.
unfoldable pub send : List ℕ → List ℕ → ℕ → ℕ → List ℕ → NetState → NetState
send src_ip dest_ip src_port dst_port body st = record st {
  sent =
      record {
        src_ip = src_ip;
        dest_ip = dest_ip;
        src_port = src_port;
        dst_port = dst_port;
        body = body;
      }
      ∷ st.sent;
}

unfoldable pub request_options : List ℕ → List ℕ → List ℕ
request_options offered_ip server_id =
    53
    ∷ 1
    ∷ 3
    ∷ 50
    ∷ 4
    ∷ (offered_ip ++ (54 ∷ 4 ∷ (server_id ++ (55 ∷ 4 ∷ 1 ∷ 3 ∷ 6 ∷ 54 ∷ 255 ∷ []))))

unfoldable pub dhcp_send_request : NetState → NetState
unfolding send
dhcp_send_request st =
    send zero_ip broadcast_ip dhcp_client_port dhcp_server_port
      (dhcp_write_header st.naw_mac_address ++ request_options st.offered_ip st.server_id) st

unfoldable pub dhcp_init : NetState → NetState
dhcp_init st = record st { offered_ip = zero_ip; server_id = zero_ip; dhcp_bound = false }

abbrev pub discover_options : List ℕ
discover_options = 53 ∷ 1 ∷ 1 ∷ 55 ∷ 4 ∷ 1 ∷ 3 ∷ 6 ∷ 54 ∷ 255 ∷ []

unfoldable pub dhcp_send_discover : NetState → NetState
unfolding send
dhcp_send_discover st =
    send zero_ip broadcast_ip dhcp_client_port dhcp_server_port
      (dhcp_write_header st.naw_mac_address ++ discover_options) (record st { dhcp_bound = false })

-- the four bytes of an option found, if its length passes the test
abbrev pub option_or : (ℕ → Bool) → Option (List ℕ × ℕ) → List ℕ → List ℕ
option_or test none old = old
option_or test (some (body, len)) old = if test len then take 4 body else old

abbrev pub options_of : List ℕ → List ℕ
options_of packet = drop dhcp_fixed_header_size packet

abbrev pub yiaddr : List ℕ → List ℕ
yiaddr packet = take 4 (drop 16 packet)

unfoldable pub handle_offer : List ℕ → NetState → NetState
unfolding dhcp_send_request
handle_offer packet st = elim (dhcp_find_option (options_of packet) 54) [
  | none ↦ st
  | some (body, len) ↦
      if len == 4
      then dhcp_send_request (record st { offered_ip = yiaddr packet; server_id = take 4 body })
      else st
]

unfoldable pub handle_ack : List ℕ → NetState → NetState
handle_ack packet st =
    let found = dhcp_find_option (options_of packet) in
    record st {
      naw_ip_address = yiaddr packet;
      dhcp_bound = true;
      net_info = record st.net_info {
        ip = yiaddr packet;
        subnet = option_or (λ len. len == 4) (found 1) st.net_info.subnet;
        gateway = option_or (λ len. leb 4 len) (found 3) st.net_info.gateway;
        dhcp_server = option_or (λ len. len == 4) (found 54) st.server_id;
        configured = true;
      };
    }

unfoldable pub handle_nak : NetState → NetState
handle_nak st = record st {
  dhcp_bound = false;
  net_info = record st.net_info { configured = false };
}

unfoldable pub handle_message : ℕ → List ℕ → NetState → NetState
unfolding handle_offer handle_ack handle_nak
handle_message message_type packet st =
    if message_type == 2
    then handle_offer packet st
    else (if message_type == 5
        then handle_ack packet st
        else (if message_type == 6 then handle_nak st else st))

-- the tests on the fixed part of a packet
unfoldable pub is_reply : List ℕ → List ℕ → Bool
is_reply naw_mac_address packet =
    not (ltb (length packet) dhcp_fixed_header_size)
    && (get_or packet 0 0 == 0x02
        && get_or packet 1 0 == 0x01
        && get_or packet 2 0 == 0x06
        && is_zero (memcmp (take 4 (drop 4 packet)) dhcp_transaction_id 4)
        && is_same_mac naw_mac_address packet)

-- The message type, `message_type[0]`, in an option of length 1.
unfoldable pub message_type : List ℕ → Option ℕ
message_type packet = elim (dhcp_find_option (options_of packet) 53) [
  | none ↦ none
  | some (body, len) ↦ if len == 1 then some (peek body) else none
]

unfoldable pub dhcp_handle_udp_packet : List ℕ → NetState → NetState
unfolding handle_message
dhcp_handle_udp_packet packet st = elim (message_type packet) [
  | none ↦ st
  | some t ↦ if is_reply st.naw_mac_address packet then handle_message t packet st else st
]

unfoldable pub net_is_configured : NetState → Bool
net_is_configured st = st.net_info.configured

unfoldable pub net_request_dhcp : NetState → NetState
unfolding dhcp_send_discover
net_request_dhcp st =
    record (dhcp_send_discover (record st {
      naw_ip_address = zero_ip;
      net_info = record st.net_info {
        ip = zero_ip;
        gateway = zero_ip;
        subnet = zero_ip;
        dhcp_server = zero_ip;
        configured = false;
      };
    })) { dhcp_retry_ticks = net_dhcp_retry_ticks }

unfoldable pub net_init : List ℕ → NetState → NetState
unfolding dhcp_init net_request_dhcp
net_init rtl_mac st = net_request_dhcp (
    dhcp_init (record st {
      naw_ip_address = zero_ip;
      naw_mac_address = take 6 rtl_mac;
      net_info = record {
        mac = take 6 rtl_mac;
        ip = zero_ip;
        gateway = zero_ip;
        subnet = zero_ip;
        dhcp_server = zero_ip;
        configured = false;
      };
    }))

unfoldable pub net_periodic : NetState → NetState
unfolding dhcp_send_discover
net_periodic st =
    if net_is_configured st
    then st
    else (if ltb 0 st.dhcp_retry_ticks
        then record st { dhcp_retry_ticks = st.dhcp_retry_ticks - 1 }
        else record (dhcp_send_discover st) { dhcp_retry_ticks = net_dhcp_retry_ticks })

unfoldable pub net_send_text_broadcast : List ℕ → NetState → NetState
unfolding send
net_send_text_broadcast t st =
    if net_is_configured st
    then send st.naw_ip_address broadcast_ip net_text_port net_text_port (text t) st
    else st
