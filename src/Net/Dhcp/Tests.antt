-- ===== src/Net/Dhcp/Tests.antt =====
-- A lease, packet by packet.
use naw_os.Base.{
  ℕ, ◌≡◌, ◌≢◌, ◌⊎◌, refl, true, false, some, List, [], ◌∷◌, ◌++◌, replicate, take, get_or, ap,
  arith,
}
use naw_os.CString.Memory.{memcmp}
use naw_os.Net.Dhcp.{
  NetState, Datagram, zero_ip, broadcast_ip, dhcp_client_port, dhcp_server_port, dhcp_write_header,
  discover_options, dhcp_find_option, net_init, dhcp_handle_udp_packet, message_type, yiaddr,
  is_reply, is_same_mac, net_is_configured,
}
use naw_os.Net.Dhcp.Options.{option_bytes, first_option, dhcp_find_option-option_bytes}
use naw_os.Net.Dhcp.Replies.{IsReply, dhcp_handle_udp_packet-rejects}
use naw_os.Net.Dhcp.Lease.{IsValid, started, stepped, received, NetReachable-IsValid}
use naw_os.Net.Dhcp.Exchange.{four_bytes, dhcp_handle_udp_packet-offer, ticks, ticks-net_periodic}

abbrev mac : List ℕ
mac = 1 ∷ 2 ∷ 3 ∷ 4 ∷ 5 ∷ 6 ∷ []

abbrev blank : NetState
blank = record {
  naw_mac_address = [];
  naw_ip_address = [];
  net_info = record {
    mac = [];
    ip = [];
    gateway = [];
    subnet = [];
    dhcp_server = [];
    configured = true;
  };
  offered_ip = [];
  server_id = [];
  dhcp_bound = true;
  dhcp_retry_ticks = 7;
  sent = [];
}

abbrev fresh : NetState
fresh = record {
  naw_mac_address = mac;
  naw_ip_address = zero_ip;
  net_info = record {
    mac = mac;
    ip = zero_ip;
    gateway = zero_ip;
    subnet = zero_ip;
    dhcp_server = zero_ip;
    configured = false;
  };
  offered_ip = zero_ip;
  server_id = zero_ip;
  dhcp_bound = false;
  dhcp_retry_ticks = 2;
  sent = [];
}

-- a reply of the server 10.0.0.1 that offers or gives 10.0.0.9
abbrev reply : ℕ → List ℕ
reply t =
    (2 ∷ 1 ∷ 6 ∷ 0 ∷ 0x4E ∷ 0x41 ∷ 0x57 ∷ 0x01 ∷ replicate 8 0)
    ++ ((10 ∷ 0 ∷ 0 ∷ 9 ∷ replicate 8 0)
        ++ (mac ++ (replicate 206 0 ++ (53 ∷ 1 ∷ t ∷ 54 ∷ 4 ∷ 10 ∷ 0 ∷ 0 ∷ 1 ∷ 255 ∷ []))))

acknowledged : (dhcp_handle_udp_packet (reply 5) fresh).naw_ip_address ≡ 10 ∷ 0 ∷ 0 ∷ 9 ∷ []
unfolding dhcp_handle_udp_packet message_type dhcp_find_option is_reply is_same_mac memcmp
acknowledged = refl

reply-IsReply : (t : ℕ) → IsReply mac (reply t)
reply-IsReply t = record {
  long = omega arith;
  op = refl;
  hardware = refl;
  address_len = refl;
  transaction = refl;
  to_me = refl;
}

dhcp_handle_udp_packet-offer_example :
    (d : Datagram) × ((dhcp_handle_udp_packet (reply 2) fresh).sent ≡ d ∷ [])
    × (d.dest_ip ≡ broadcast_ip)
    × (d.dst_port ≡ dhcp_server_port)
    × (message_type d.body ≡ some 3)
    × (four_bytes d.body 50 ≡ some (yiaddr (reply 2)))
    × (four_bytes d.body 54 ≡ some (take 4 (10 ∷ 0 ∷ 0 ∷ 1 ∷ 255 ∷ [])))
unfolding message_type dhcp_find_option
dhcp_handle_udp_packet-offer_example =
    dhcp_handle_udp_packet-offer (reply 2) fresh (10 ∷ 0 ∷ 0 ∷ 1 ∷ 255 ∷ []) refl (reply-IsReply 2)
      refl refl

-- the acknowledgement changes the state
changes : dhcp_handle_udp_packet (reply 5) fresh ≢ fresh
changes e =
    let same = ap (λ (st : NetState). get_or st.naw_ip_address 0 0) e in
    let ten = ap (λ (a : List ℕ). get_or a 0 0) acknowledged in omega (arith, same, ten)

dhcp_handle_udp_packet-rejects_example :
    IsReply mac (reply 5)
    × ((message_type (reply 5) ≡ some 2)
        ⊎ ((message_type (reply 5) ≡ some 5) ⊎ (message_type (reply 5) ≡ some 6)))
dhcp_handle_udp_packet-rejects_example = dhcp_handle_udp_packet-rejects (reply 5) fresh refl changes

dhcp_find_option-option_bytes_example :
    dhcp_find_option (option_bytes ((53, 2 ∷ []) ∷ (54, 10 ∷ 0 ∷ 0 ∷ 1 ∷ []) ∷ []) ++ (255 ∷ [])) 54
    ≡ first_option ((53, 2 ∷ []) ∷ (54, 10 ∷ 0 ∷ 0 ∷ 1 ∷ []) ∷ []) (255 ∷ []) 54
dhcp_find_option-option_bytes_example =
    dhcp_find_option-option_bytes ((53, 2 ∷ []) ∷ (54, 10 ∷ 0 ∷ 0 ∷ 1 ∷ []) ∷ []) [] 54
      (((λ z. omega arith), (λ z. omega arith)), (((λ z. omega arith), (λ z. omega arith)), tt))

NetReachable-IsValid_example : IsValid (dhcp_handle_udp_packet (reply 5) (net_init mac blank))
NetReachable-IsValid_example =
    NetReachable-IsValid
      (stepped (started mac blank refl) (received (reply 5) (net_init mac blank)))

ticks-net_periodic_example :
    ((ticks 2 fresh).sent ≡ [])
    × ((ticks 3 fresh).sent
        ≡ record {
          src_ip = zero_ip;
          dest_ip = broadcast_ip;
          src_port = dhcp_client_port;
          dst_port = dhcp_server_port;
          body = dhcp_write_header mac ++ discover_options;
        }
          ∷ [])
unfolding net_is_configured
ticks-net_periodic_example = ticks-net_periodic 2 fresh refl refl
